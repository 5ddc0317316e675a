-- ===== src/Responder/Exchange.antt =====
-- The key exchanges of the responder and the finish of both (src/spdm_responder.c).
use wolf_spdm.Types.Code
use wolf_spdm.Base.{
  ℕ, ◌+◌, ◌*◌, ◌^◌, Bool, true, not, [], ◌∷◌, ◌++◌, ltb, leb, if◌then◌else◌, length, take, drop,
}
use wolf_spdm.Context.{Env, M, Bytes, Ctx, ◌>>◌, always, ◌>>=◌, fail_if, gets, modify, pure}
use wolf_spdm.Responder.{Resp}
use wolf_spdm.Bytes.{get16le, set16le, same_bytes}
use wolf_spdm.Crypto.{
  compute_shared_secret, sign_hash, get_random, generate_ephemeral_key, export_ephemeral_pub_key,
}
use wolf_spdm.Transcript.{transcript_add, transcript_hash}
use wolf_spdm.Types.{
  buffer_small, hash_size, ecc_sig_size, framing, random_size, state_key_ex, ecc_key_size, bad_hmac,
  state_connected,
}
use wolf_spdm.Message.Signing.{build_signed_hash}
use wolf_spdm.Kdf.{compute_verify_data, codes, derive_handshake_keys}
use wolf_spdm.Psk.{derive_handshake_keys_psk}

-- `ctx->rspSessionId`, and how wolfSPDM joins the halves of a session ID.
abbrev pub resp_session_id : ℕ
resp_session_id = 0xFFFE

-- The session IDs after an exchange with the request `buf`.
unfoldable pub take_session_id : Bytes → Ctx → Ctx
take_session_id buf c = record c {
  req_session_id = get16le (drop 4 buf);
  rsp_session_id = resp_session_id;
  session_id = get16le (drop 4 buf) + resp_session_id * 2 ^ 16;
}

-- The PSK and the hint are read again from the responder's store.
unfoldable pub reload_psk : Resp → Resp
reload_psk r = record r {
  ctx = record (r.ctx) {
    psk = record {
      psk = r.psk_store;
      hint = if ltb 0 (length r.psk_hint_store) then r.psk_hint_store else r.ctx.psk.hint;
    };
  };
}

-- The request's hint, context and opaque data lie within it.
unfoldable pub psk_request_fits : Bytes → Bool
psk_request_fits buf =
    leb (12 + get16le (drop 6 buf) + get16le (drop 8 buf) + get16le (drop 10 buf)) (length buf)

module _ (env : Env) where
  -- The fixed part of PSK_EXCHANGE_RSP, with 32 bytes of RspContext.
  unfoldable pub psk_exchange_rsp_head : M Bytes
  psk_exchange_rsp_head = do
    version ← gets λ c. c.spdm_version
    random ← get_random env 32
    pure (
        version
        ∷ Code.psk_exchange_rsp
        ∷ 0
        ∷ 0
        ∷ (set16le resp_session_id ++ (0 ∷ 0 ∷ (set16le 32 ++ (set16le 0 ++ random)))))

  -- TH1 and the handshake keys of RespBuildPskExchangeRsp.
  unfoldable pub psk_exchange_keys : Bytes → M Bytes
  psk_exchange_keys head = do
    transcript_add head
    th1 ← transcript_hash env
    modify λ c. record c { th1 = th1 }
    derive_handshake_keys_psk env th1
    pure th1

  -- Its ResponderVerifyData.
  unfoldable pub psk_exchange_verify : Bytes → M Bytes
  psk_exchange_verify th1 = do
    finished_key ← gets λ c. c.keys.rsp_finished_key
    verify_data ← compute_verify_data env finished_key th1
    transcript_add verify_data
    modify λ c. record c { state = state_key_ex }
    pure verify_data

  -- The rest of RespBuildPskExchangeRsp after the fixed part `head` of the answer.
  unfoldable pub psk_exchange_proof : Bytes → M Bytes
  psk_exchange_proof head = do
    th1 ← psk_exchange_keys head
    verify_data ← psk_exchange_verify th1
    pure (head ++ verify_data)

  -- wolfSPDM_SignHash with the identity key in the place of the requester's, which is put back.
  unfoldable pub sign_as : Bytes → Bytes → Bytes → M Bytes
  sign_as priv_key pub_key hash c =
      always (sign_hash env hash ecc_sig_size)
        (λ c'. record c' {
          identity = record (c'.identity) {
            req_priv_key = c.identity.req_priv_key;
            req_pub_key = c.identity.req_pub_key;
            has_req_key_pair = c.identity.has_req_key_pair;
          };
        })
        (record c {
          identity = record (c.identity) {
            req_priv_key = priv_key;
            req_pub_key = pub_key;
            has_req_key_pair = true;
          };
        })

  -- The fixed part of KEY_EXCHANGE_RSP, with a fresh ephemeral key and no OpaqueData.
  unfoldable pub key_exchange_rsp_head : M Bytes
  key_exchange_rsp_head = do
    version ← gets λ c. c.spdm_version
    random ← get_random env random_size
    generate_ephemeral_key env
    point ← export_ephemeral_pub_key env ecc_key_size ecc_key_size
    pure (
        version
        ∷ Code.key_exchange_rsp
        ∷ 0
        ∷ 0
        ∷ (set16le resp_session_id ++ (0 ∷ 0 ∷ (random ++ (point ++ set16le 0)))))

  -- The signature of RespBuildKeyExchangeRsp over the transcript with `head`.
  unfoldable pub key_exchange_sign : Bytes → Bytes → Bytes → M Bytes
  key_exchange_sign priv_key pub_key head = do
    transcript_add head
    th1 ← transcript_hash env
    version ← gets λ c. c.spdm_version
    hash ← build_signed_hash env version (codes "responder-key_exchange_rsp signing") th1
    sig ← sign_as priv_key pub_key hash
    transcript_add (take ecc_sig_size sig)
    pure sig

  -- The rest of it: the shared secret, the handshake keys and ResponderVerifyData.
  unfoldable pub key_exchange_proof : Bytes → Bytes → M Bytes
  key_exchange_proof peer_x peer_y = do
    compute_shared_secret env peer_x peer_y
    th1 ← transcript_hash env
    modify λ c. record c { th1 = th1 }
    derive_handshake_keys env th1
    finished_key ← gets λ c. c.keys.rsp_finished_key
    verify_data ← compute_verify_data env finished_key th1
    transcript_add verify_data
    modify λ c. record c { state = state_key_ex }
    pure verify_data

  -- FINISH and PSK_FINISH up to the answer: the requester's HMAC over TH2, and the answer with the
  -- response code `code`.
  unfoldable pub finish_answer : ℕ → Bytes → ℕ → M Bytes
  finish_answer code buf room = do
    fail_if (ltb (length buf) (4 + hash_size)) framing
    fail_if (ltb room 4) buffer_small
    transcript_add (take 4 buf)
    th2 ← transcript_hash env
    modify λ c. record c { th2 = th2 }
    finished_key ← gets λ c. c.keys.req_finished_key
    expected_hmac ← compute_verify_data env finished_key th2
    fail_if (not (same_bytes expected_hmac (take hash_size (drop 4 buf)))) bad_hmac
    transcript_add (take hash_size (drop 4 buf))
    version ← gets λ c. c.spdm_version
    let out : Bytes = version ∷ code ∷ 0 ∷ 0 ∷ []
    transcript_add out
    modify λ c. record c { state = state_connected }
    pure out

-- RespBuildEndSessionAck.
unfoldable pub build_end_session_ack : ℕ → M Bytes
build_end_session_ack room = do
  fail_if (ltb room 4) buffer_small
  version ← gets λ c. c.spdm_version
  pure (version ∷ Code.end_session_ack ∷ 0 ∷ 0 ∷ [])
