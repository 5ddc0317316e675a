-- ===== src/Types.antt =====
-- wolfspdm/spdm_types.h, wolfspdm/spdm_error.h and the states of src/spdm_internal.h: the protocol
-- constants, the build's limits, the modes and the error codes.
-- The build modelled has the TCG binding, both vendor adapters, PSK, certificates, measurements,
-- challenge, chunking, heartbeat and key update; ML-DSA and ML-KEM are off.
pub mod Code
use wolf_spdm.Base.{ℕ, ◌+◌}

-- The values of `ctx->state`.
abbrev pub state_init : ℕ
state_init = 0

abbrev pub state_version : ℕ
state_version = 1

abbrev pub state_cert : ℕ
state_cert = 2

abbrev pub state_key_ex : ℕ
state_key_ex = 3

abbrev pub state_finish : ℕ
state_finish = 4

abbrev pub state_connected : ℕ
state_connected = 5

abbrev pub state_error : ℕ
state_error = 6

-- SPDM versions, and the range that the build negotiates.
abbrev pub version_10 : ℕ
version_10 = 0x10

abbrev pub version_13 : ℕ
version_13 = 0x13

abbrev pub version_14 : ℕ
version_14 = 0x14

abbrev pub min_spdm_version : ℕ
min_spdm_version = 0x12

abbrev pub max_spdm_version : ℕ
max_spdm_version = 0x14

-- SPDM_ERROR_LARGE_RESPONSE: the peer asks for CHUNK_GET.
abbrev pub error_large_response : ℕ
error_large_response = 0x0F

-- Sizes.
abbrev pub hash_size : ℕ
hash_size = 48

abbrev pub ecc_key_size : ℕ
ecc_key_size = 48

abbrev pub ecc_point_size : ℕ
ecc_point_size = 96

abbrev pub ecc_sig_size : ℕ
ecc_sig_size = 96

abbrev pub aead_key_size : ℕ
aead_key_size = 32

abbrev pub aead_iv_size : ℕ
aead_iv_size = 12

abbrev pub aead_tag_size : ℕ
aead_tag_size = 16

abbrev pub secured_pad : ℕ
secured_pad = 48

abbrev pub aead_overhead : ℕ
aead_overhead = 32 + secured_pad

abbrev pub random_size : ℕ
random_size = 32

abbrev pub max_msg_size : ℕ
max_msg_size = 4096

abbrev pub max_transcript : ℕ
max_transcript = 4096

abbrev pub data_transfer_size_max : ℕ
data_transfer_size_max = max_msg_size

abbrev pub xfer_msg_size : ℕ
xfer_msg_size = max_msg_size

abbrev pub key_ex_tx_size : ℕ
key_ex_tx_size = 96 + ecc_point_size

abbrev pub key_ex_rx_size : ℕ
key_ex_rx_size = 192 + ecc_point_size + ecc_sig_size

abbrev pub finish_buf_size : ℕ
finish_buf_size = 152

abbrev pub finish_opaque_max : ℕ
finish_opaque_max = 256

abbrev pub finish_rsp_max : ℕ
finish_rsp_max = 4 + 2 + finish_opaque_max

abbrev pub vendor_buf_size : ℕ
vendor_buf_size = 256

abbrev pub vendor_rx_size : ℕ
vendor_rx_size = 512

abbrev pub tcg_header_size : ℕ
tcg_header_size = 16

abbrev pub tcg_tag_clear : ℕ
tcg_tag_clear = 0x8101

abbrev pub tcg_tag_secured : ℕ
tcg_tag_secured = 0x8201

abbrev pub fips_non_fips : ℕ
fips_non_fips = 0

abbrev pub mctp_message_type_spdm : ℕ
mctp_message_type_spdm = 0x05

-- Capability bits.
abbrev pub cap_cert : ℕ
cap_cert = 0x2

abbrev pub cap_chal : ℕ
cap_chal = 0x4

abbrev pub cap_meas_no_sig : ℕ
cap_meas_no_sig = 0x8

abbrev pub cap_meas_sig : ℕ
cap_meas_sig = 0x10

abbrev pub cap_encrypt : ℕ
cap_encrypt = 0x40

abbrev pub cap_mac : ℕ
cap_mac = 0x80

abbrev pub cap_key_ex : ℕ
cap_key_ex = 0x200

abbrev pub cap_hbeat : ℕ
cap_hbeat = 0x2000

abbrev pub cap_key_upd : ℕ
cap_key_upd = 0x4000

abbrev pub cap_chunk : ℕ
cap_chunk = 0x20000

-- The capabilities that the requester announces, a sum of different bits.
abbrev pub req_caps : ℕ
req_caps = cap_encrypt + cap_mac + cap_key_ex + cap_hbeat + cap_key_upd + cap_chunk

-- Algorithm Set B, and the types of the algorithm structures.
abbrev pub hash_algo_sha_384 : ℕ
hash_algo_sha_384 = 0x2

abbrev pub asym_algo_ecdsa_p384 : ℕ
asym_algo_ecdsa_p384 = 0x80

abbrev pub dhe_algo_secp384r1 : ℕ
dhe_algo_secp384r1 = 0x10

abbrev pub aead_algo_aes_256_gcm : ℕ
aead_algo_aes_256_gcm = 0x2

abbrev pub key_schedule_spdm : ℕ
key_schedule_spdm = 0x1

abbrev pub alg_type_dhe : ℕ
alg_type_dhe = 2

abbrev pub alg_type_aead : ℕ
alg_type_aead = 3

abbrev pub alg_type_req_base_asym : ℕ
alg_type_req_base_asym = 4

abbrev pub alg_type_key_schedule : ℕ
alg_type_key_schedule = 5

abbrev pub neg_algo_size : ℕ
neg_algo_size = 48

-- Certificates, measurements and pre-shared keys.
abbrev pub cert_chain_hdr_size : ℕ
cert_chain_hdr_size = 4 + hash_size

abbrev pub max_cert_chain : ℕ
max_cert_chain = 4096

abbrev pub max_trusted_ca : ℕ
max_trusted_ca = 4096

abbrev pub cert_portion_size : ℕ
cert_portion_size = 1024

abbrev pub pubkey_buf_size : ℕ
pubkey_buf_size = 256

abbrev pub rsp_pubkey_size : ℕ
rsp_pubkey_size = 128

abbrev pub meas_spec_dmtf : ℕ
meas_spec_dmtf = 0x01

abbrev pub meas_block_hdr_size : ℕ
meas_block_hdr_size = 4

abbrev pub max_meas_record : ℕ
max_meas_record = 1024

abbrev pub psk_max_size : ℕ
psk_max_size = 64

abbrev pub psk_hint_max : ℕ
psk_hint_max = 32

abbrev pub key_update_op_update_key : ℕ
key_update_op_update_key = 1

abbrev pub key_update_op_update_all_keys : ℕ
key_update_op_update_all_keys = 2

abbrev pub key_update_op_verify_new_key : ℕ
key_update_op_verify_new_key = 3

-- WOLFSPDM_RUN_*: the states of a running L1/L2 or M1 hash.
pub data Run : Type 0 where
  run_none run_live run_open : Run

-- WOLFSPDM_MODE.
pub data Mode : Type 0 where
  auto nuvoton nations nations_psk tcg : Mode

-- enum WOLFSPDM_ERROR but for WOLFSPDM_SUCCESS, which is `ok` of a result.
pub data Error : Type 0 where
  invalid_arg buffer_small bad_state version_mismatch crypto_fail bad_signature bad_hmac : Error
  io_fail timeout peer_error decrypt_fail sequence not_connected already_init no_memory : Error
  session_invalid key_exchange not_available framing not_impl cert_fail caps_mismatch : Error
  algo_mismatch cert_parse key_update measurement challenge chunk : Error
