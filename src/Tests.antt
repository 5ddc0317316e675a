-- ===== src/Tests.antt =====
-- A concrete environment and concrete contexts on which the theorems are run.
pub mod Records
mod Chunks
mod Sessions
mod Certificates
pub mod Psks
mod Conversation
mod Vendors
pub mod Responders
mod Agreements
mod Attestation
mod Handshakes
use wolf_spdm.Context.{Env, Ctx, Keys}
use wolf_spdm.Base.{◌%◌, true, some, [], arith, length, replicate, false, none}
use wolf_spdm.Secured.RoundTrip.{AeadOpens}
use wolf_spdm.Types.{state_connected, auto, hash_size, aead_key_size, run_none, aead_iv_size}
use wolf_spdm.Kdf.{zeros}

-- A transport that answers with nothing, and an AEAD that copies its input.
abbrev pub toy_env : Env
toy_env = record {
  io = λ history tx room. some [];
  init_rng = true;
  random = λ k n. some (replicate n 7);
  sha384 = λ m. some (replicate 48 (length m % 256));
  sha384_init = true;
  sha384_update = λ m d. true;
  hmac = λ k m. some (replicate 48 (length m % 256));
  hkdf_extract = λ s k. some (replicate 48 1);
  hkdf_expand = λ s i n. some (replicate n (length i % 256));
  aes_set_key = λ k. true;
  aes_gcm_encrypt = λ k iv aad p. some (p, replicate 16 9);
  aes_gcm_decrypt = λ k iv aad ct tag. some ct;
  ecc_make_key = λ k. some k;
  ecc_export_public_raw = λ k. some (replicate 48 2, replicate 48 3);
  ecc_shared_secret = λ k x y. some (replicate 48 4);
  ecc_verify = λ p h s. some true;
  ecc_sign = λ k d p h. some (replicate 48 5, replicate 48 6);
}

pub toy_AeadOpens : AeadOpens toy_env
toy_AeadOpens key iv aad plain ct tag e = ground arith

abbrev pub toy_keys : Keys
toy_keys = record {
  shared_secret = [];
  handshake_secret = zeros hash_size;
  req_hs_secret = zeros hash_size;
  rsp_hs_secret = zeros hash_size;
  req_finished_key = zeros hash_size;
  rsp_finished_key = zeros hash_size;
  req_data_key = zeros aead_key_size;
  rsp_data_key = zeros aead_key_size;
  req_data_iv = zeros aead_iv_size;
  rsp_data_iv = zeros aead_iv_size;
  req_app_secret = zeros hash_size;
  rsp_app_secret = zeros hash_size;
}

-- A connected requester over MCTP, and its peer.
abbrev pub toy_ctx : Ctx
toy_ctx = record {
  state = state_connected;
  mode = auto;
  wire = record { has_io = true; history = []; connection_handle = 0; fips_indicator = 0 };
  rng_initialized = true;
  draws = 0;
  max_version = 0;
  spdm_version = 0x12;
  last_peer_error_code = 0;
  ephemeral = none;
  transcript = [];
  cert_chain_hash = zeros hash_size;
  th1 = zeros hash_size;
  th2 = zeros hash_size;
  keys = toy_keys;
  req_seq_num = 0;
  rsp_seq_num = 0;
  req_session_id = 1;
  rsp_session_id = 0;
  session_id = 0x20001;
  mut_auth_requested = 0;
  req_slot_id_param = 0;
  identity = record {
    rsp_pub_key = [];
    has_rsp_pub_key = false;
    rsp_key_from_cert = false;
    req_priv_key = [];
    req_pub_key = [];
    has_req_key_pair = false;
    req_pub_key_tpmt = [];
  };
  limits = record {
    rsp_caps = 0;
    data_transfer_size = 0;
    max_spdm_msg_size = 0;
    vca_len = 0;
    current_slot_id = 0;
  };
  psk = record { psk = []; hint = [] };
  certs = record { slot_mask = 0; cert_chain = []; trusted_ca = []; allow_untrusted = false };
  chunk_handle = 0;
  attest = record {
    l1l2_state = run_none;
    l1l2_hash = [];
    m1_state = run_none;
    m1_hash = [];
    meas_record = [];
    meas_block_count = 0;
  };
  initialized = true;
}
