-- ===== src/Psk.antt =====
-- src/spdm_psk.c: sessions from a pre-shared key.
pub mod Authentic
pub mod Once
use wolf_spdm.Base.{
  ℕ, ◌&&◌, ◌+◌, ◌*◌, ◌^◌, not, [], ◌∷◌, ◌++◌, ltb, ◌==◌, if◌then◌else◌, length, get_or, take, drop,
  replicate,
}
use wolf_spdm.Types.Code
use wolf_spdm.Types.{
  key_exchange, buffer_small, hash_size, max_msg_size, bad_state, invalid_arg, aead_overhead,
  random_size, io_fail, psk_max_size, psk_hint_max, state_finish, state_key_ex, crypto_fail,
  bad_hmac, state_init, peer_error, state_connected, state_error,
}
use wolf_spdm.Context.{
  Ctx, Bytes, Env, M, ◌>>◌, ◌>>=◌, gets, fail_if, always, modify, or_fail, pure, fail,
}
use wolf_spdm.Bytes.{get16le, same_bytes, set16le}
use wolf_spdm.Secured.{encrypt_internal, decrypt_internal}
use wolf_spdm.Message.{check_parse_or_error_args, check_response}
use wolf_spdm.Transcript.{transcript_add, transcript_hash, transcript_reset}
use wolf_spdm.Transport.{send_receive}
use wolf_spdm.Kdf.{
  compute_verify_data, on_error, derive_from_handshake_secret, derive_app_data_keys,
}
use wolf_spdm.Crypto.{get_random}
use wolf_spdm.Session.{get_version}

-- wolfSPDM_SetPSK; an absent hint is the empty one.
unfoldable pub set_psk : Bytes → Bytes → M (Unit {0})
set_psk psk hint = do
  fail_if (length psk == 0) invalid_arg
  fail_if (ltb psk_max_size (length psk)) invalid_arg
  fail_if (ltb psk_hint_max (length hint)) invalid_arg
  modify λ c. record c { psk = record { psk = psk; hint = hint } }

-- `wc_ForceZero(ctx->psk, sizeof(ctx->psk)); ctx->pskSz = 0;`
unfoldable pub wipe_psk : Ctx → Ctx
wipe_psk c = record c { psk = record (c.psk) { psk = [] } }

-- wolfSPDM_ParsePskFinishRsp.
unfoldable pub parse_psk_finish_rsp : Bytes → M (Unit {0})
parse_psk_finish_rsp buf = do
  fail_if (ltb (length buf) 4) invalid_arg
  (if get_or buf 1 0 == Code.psk_finish_rsp
      then (do transcript_add (take 4 buf); modify λ c. record c { state = state_finish })
      else fail (if get_or buf 1 0 == Code.error then peer_error else bad_state))

-- Where ResponderVerifyData of PSK_EXCHANGE_RSP is: past RspContext and OpaqueData.
unfoldable pub verify_offset : Bytes → ℕ
verify_offset buf = 12 + get16le (drop 8 buf) + get16le (drop 10 buf)

module _ (env : Env) where
  -- wolfSPDM_BuildPskExchange.
  unfoldable pub build_psk_exchange : ℕ → M Bytes
  build_psk_exchange size = do
    c ← gets λ c. c
    fail_if (ltb size 48) buffer_small
    fail_if (length c.psk.psk == 0) bad_state
    fail_if (ltb 0 (length c.psk.hint) && ltb size (12 + length c.psk.hint)) buffer_small
    fail_if (ltb size (12 + length c.psk.hint + random_size)) buffer_small
    random ← get_random env random_size
    pure (
        c.spdm_version
        ∷ Code.psk_exchange
        ∷ 0
        ∷ 0
        ∷ (set16le c.req_session_id
            ++ (set16le (length c.psk.hint)
                ++ (set16le random_size ++ (set16le 0 ++ (c.psk.hint ++ random))))))

  -- wolfSPDM_DeriveHandshakeKeysPsk: Salt_0 is all 0xFF, and the PSK is gone afterwards.
  unfoldable pub derive_handshake_keys_psk : Bytes → M (Unit {0})
  derive_handshake_keys_psk th1_hash = do
    psk ← gets λ c. c.psk.psk
    fail_if (length psk == 0) bad_state
    always
        (do
          hs ← or_fail (env.hkdf_extract (replicate hash_size 0xFF) psk) crypto_fail
          modify λ c. record c { keys = record (c.keys) { handshake_secret = hs } }
          derive_from_handshake_secret env th1_hash)
        wipe_psk

  -- The responder's proof in wolfSPDM_ParsePskExchangeRsp: TH1, the handshake keys, and the HMAC.
  unfoldable pub check_psk_responder : Bytes → ℕ → M (Unit {0})
  check_psk_responder buf off = do
    transcript_add (take off buf)
    th1 ← transcript_hash env
    modify λ c. record c { th1 = th1 }
    derive_handshake_keys_psk th1
    finished_key ← gets λ c. c.keys.rsp_finished_key
    expected_hmac ← compute_verify_data env finished_key th1
    fail_if (not (same_bytes expected_hmac (take hash_size (drop off buf)))) bad_hmac
    transcript_add (take hash_size (drop off buf))

  -- wolfSPDM_ParsePskExchangeRsp. The session is committed only after the proof.
  unfoldable pub parse_psk_exchange_rsp : Bytes → M (Unit {0})
  parse_psk_exchange_rsp buf = do
    check_parse_or_error_args buf 59
    check_response buf Code.psk_exchange_rsp key_exchange
    fail_if (ltb (length buf) (verify_offset buf + hash_size)) buffer_small
    check_psk_responder buf (verify_offset buf)
    modify λ c. record c {
      rsp_session_id = get16le (drop 4 buf);
      session_id = c.req_session_id + get16le (drop 4 buf) * 2 ^ 16;
      state = state_key_ex;
    }

  -- wolfSPDM_BuildPskFinish.
  unfoldable pub build_psk_finish : ℕ → M Bytes
  build_psk_finish size = do
    fail_if (ltb size (4 + hash_size)) buffer_small
    version ← gets λ c. c.spdm_version
    let header : Bytes = version ∷ Code.psk_finish ∷ 0 ∷ 0 ∷ []
    transcript_add header
    th2 ← transcript_hash env
    modify λ c. record c { th2 = th2 }
    finished_key ← gets λ c. c.keys.req_finished_key
    verify_data ← compute_verify_data env finished_key th2
    transcript_add verify_data
    pure (header ++ verify_data)

  -- The PSK_EXCHANGE of wolfSPDM_ConnectPsk.
  unfoldable pub psk_exchange : M (Unit {0})
  psk_exchange = do
    tx ← build_psk_exchange 128
    transcript_add tx
    rx ← send_receive env tx (max_msg_size + aead_overhead)
    parse_psk_exchange_rsp rx

  -- The PSK_FINISH of wolfSPDM_ConnectPsk, a record under the handshake keys.
  unfoldable pub psk_finish : M (Unit {0})
  psk_finish = do
    fin ← build_psk_finish 64
    enc ← encrypt_internal env fin (max_msg_size + aead_overhead)
    rx ← send_receive env enc (max_msg_size + aead_overhead)
    dec ← decrypt_internal env rx 64
    parse_psk_finish_rsp dec

  -- wolfSPDM_ConnectPsk.
  unfoldable pub connect_psk : M (Unit {0})
  connect_psk = do
    c ← gets λ c. c
    fail_if (not c.initialized) bad_state
    fail_if (length c.psk.psk == 0) bad_state
    fail_if (not c.wire.has_io) io_fail
    on_error
        (do
          modify λ c. transcript_reset (record c { state = state_init })
          get_version env
          psk_exchange
          psk_finish
          derive_app_data_keys env
          modify λ c. record c { state = state_connected })
        (λ c. record c { state = state_error })
