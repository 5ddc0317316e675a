-- ===== src/Message/KeyExchange.antt =====
-- KEY_EXCHANGE and KEY_EXCHANGE_RSP of src/spdm_msg.c, for ECDHE P-384.
pub mod Proof
pub mod Authentic
use wolf_spdm.Base.{
  ℕ, ◌+◌, ◌*◌, ◌/◌, ◌%◌, ◌^◌, [], ◌∷◌, ◌++◌, ◌&&◌, not, ltb, ◌!=◌, length, take, drop, get_or,
  if◌then◌else◌,
}
use wolf_spdm.Types.Code
use wolf_spdm.Types.{
  Mode, nuvoton, nations, tcg, state_key_ex, ecc_key_size, ecc_point_size, ecc_sig_size,
  random_size, hash_size, buffer_small, key_exchange, bad_hmac,
}
use wolf_spdm.Context.{Bytes, Env, M, fail_if, gets, modify, pure, is_tcg_mode, ◌>>=◌, ◌>>◌}
use wolf_spdm.Bytes.{get16le, same_bytes}
use wolf_spdm.Transcript.{transcript_add, transcript_hash}
use wolf_spdm.Crypto.{
  get_random, generate_ephemeral_key, export_ephemeral_pub_key, compute_shared_secret,
}
use wolf_spdm.Kdf.{codes, derive_handshake_keys, compute_verify_data}
use wolf_spdm.Message.{check_parse_or_error_args, check_response}
use wolf_spdm.Message.Signing.{verify_rsp_sig}

-- kexOpaqueStd, kexOpaqueNuvoton, kexOpaqueNations, kexOpaqueTcg, and wolfSPDM_KeyExOpaque.
unfoldable pub key_ex_opaque : Mode → Bytes
key_ex_opaque tcg =
    0x10 ∷ 0x00 ∷ 0x01 ∷ 0x00 ∷ 0x00 ∷ 0x00 ∷ 0x00 ∷ 0x00 ∷ 0x05 ∷ 0x00 ∷ 0x01 ∷ 0x01 ∷ 0x01 ∷ 0x00
    ∷ 0x10 ∷ 0x00 ∷ 0x00 ∷ 0x00 ∷ []
key_ex_opaque nuvoton =
    0x0c ∷ 0x00 ∷ 0x00 ∷ 0x00 ∷ 0x05 ∷ 0x00 ∷ 0x01 ∷ 0x01 ∷ 0x01 ∷ 0x00 ∷ 0x10 ∷ 0x00 ∷ 0x00 ∷ 0x00
    ∷ []
key_ex_opaque nations = 0x00 ∷ 0x00 ∷ []
key_ex_opaque _ =
    0x14 ∷ 0x00 ∷ 0x01 ∷ 0x00 ∷ 0x00 ∷ 0x00 ∷ 0x00 ∷ 0x00 ∷ 0x09 ∷ 0x00 ∷ 0x01 ∷ 0x01 ∷ 0x03 ∷ 0x00
    ∷ 0x10 ∷ 0x00 ∷ 0x11 ∷ 0x00 ∷ 0x12 ∷ 0x00 ∷ 0x00 ∷ 0x00 ∷ []

-- WOLFSPDM_KEYEX_FIXED_SZ.
abbrev pub key_ex_fixed_size : ℕ
key_ex_fixed_size = 40 + 2 * ecc_key_size

-- Where the optional parts of KEY_EXCHANGE_RSP start: OpaqueData, then the signature.
abbrev pub opaque_off : ℕ
opaque_off = 40 + ecc_point_size

unfoldable pub sig_offset : Bytes → ℕ
sig_offset buf = opaque_off + 2 + get16le (drop opaque_off buf)

module _ (env : Env) where
  -- wolfSPDM_BuildKeyExchange.
  unfoldable pub build_key_exchange : ℕ → M Bytes
  build_key_exchange size = do
    c ← gets λ c. c
    let opaque = key_ex_opaque c.mode
    fail_if (ltb size (key_ex_fixed_size + length opaque)) buffer_small
    random ← get_random env random_size
    generate_ephemeral_key env
    point ← export_ephemeral_pub_key env ecc_key_size ecc_key_size
    pure (
        c.spdm_version
        ∷ Code.key_exchange
        ∷ 0
        ∷ (if is_tcg_mode c.mode then 0xFF else c.limits.current_slot_id)
        ∷ c.req_session_id % 256
        ∷ c.req_session_id / 256 % 256
        ∷ 0
        ∷ 0
        ∷ (random ++ (point ++ opaque)))

  -- The responder's proof in wolfSPDM_ParseKeyExchangeRsp: its signature over TH1, the handshake
  -- keys, and its HMAC.
  unfoldable pub check_responder : Bytes → ℕ → M (Unit {0})
  check_responder buf off = do
    let signature = take ecc_sig_size (drop off buf)
    let rsp_verify_data = take hash_size (drop (off + ecc_sig_size) buf)
    transcript_add (take off buf)
    th1_sig_hash ← transcript_hash env
    verify_rsp_sig env (codes "responder-key_exchange_rsp signing") th1_sig_hash signature
    transcript_add signature
    compute_shared_secret env (take ecc_key_size (drop 40 buf))
        (take ecc_key_size (drop (40 + ecc_key_size) buf))
    th1 ← transcript_hash env
    modify λ c. record c { th1 = th1 }
    derive_handshake_keys env th1
    finished_key ← gets λ c. c.keys.rsp_finished_key
    expected_hmac ← compute_verify_data env finished_key th1
    fail_if (not (same_bytes expected_hmac rsp_verify_data)) bad_hmac
    transcript_add rsp_verify_data

  -- wolfSPDM_ParseKeyExchangeRsp. The session is committed only after the proof.
  unfoldable pub parse_key_exchange_rsp : Bytes → M (Unit {0})
  parse_key_exchange_rsp buf = do
    check_parse_or_error_args buf 140
    check_response buf Code.key_exchange_rsp key_exchange
    mode ← gets λ c. c.mode
    fail_if (not (is_tcg_mode mode) && get_or buf 6 0 != 0) key_exchange
    fail_if (ltb (length buf) (opaque_off + 2)) buffer_small
    fail_if (ltb (length buf) (sig_offset buf + ecc_sig_size + hash_size)) buffer_small
    check_responder buf (sig_offset buf)
    modify λ c. record c {
      rsp_session_id = get16le (drop 4 buf);
      session_id = c.req_session_id + get16le (drop 4 buf) * 2 ^ 16;
      mut_auth_requested = get_or buf 6 0;
      req_slot_id_param = get_or buf 7 0;
      state = state_key_ex;
    }
