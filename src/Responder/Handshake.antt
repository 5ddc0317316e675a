-- ===== src/Responder/Handshake.antt =====
-- The handshake handlers of the responder over their parts (src/spdm_responder.c).
use wolf_spdm.Types.Code
use wolf_spdm.Base.{ℕ, ◌+◌, true, false, not, ◌||◌, ◌++◌, ltb, ◌==◌, length, take, drop}
use wolf_spdm.Context.{Env, Bytes, fail_if, pure, modify}
use wolf_spdm.Responder.{R, on_ctx, gets_resp, modify_resp, ◌>>=◌, ◌>>◌}
use wolf_spdm.Responder.Exchange.{
  finish_answer, psk_request_fits, take_session_id, key_exchange_rsp_head, reload_psk,
  key_exchange_sign, psk_exchange_rsp_head, psk_exchange_proof, key_exchange_proof,
}
use wolf_spdm.Types.{bad_state, hash_size, ecc_sig_size, buffer_small, framing, ecc_key_size}

module _ (env : Env) where
  -- RespBuildPskExchangeRsp.
  unfoldable pub build_psk_exchange_rsp : Bytes → ℕ → R Bytes
  build_psk_exchange_rsp buf room = do
    store ← gets_resp λ r. r.psk_store
    on_ctx (fail_if (ltb (length buf) 12 || length store == 0) bad_state)
    on_ctx (fail_if (ltb room (12 + 32 + hash_size)) buffer_small)
    on_ctx (fail_if (not (psk_request_fits buf)) framing)
    modify_resp reload_psk
    on_ctx (modify (take_session_id buf))
    head ← on_ctx (psk_exchange_rsp_head env)
    out ← on_ctx (psk_exchange_proof env head)
    modify_resp λ r. record r { pending_asym = false }
    on_ctx (pure out)

  -- RespBuildKeyExchangeRsp.
  unfoldable pub build_key_exchange_rsp : Bytes → ℕ → R Bytes
  build_key_exchange_rsp buf room = do
    has_id_key ← gets_resp λ r. r.has_id_key
    on_ctx (fail_if (ltb (length buf) 136 || not has_id_key) bad_state)
    on_ctx (fail_if (ltb room (138 + ecc_sig_size + hash_size)) buffer_small)
    on_ctx (modify (take_session_id buf))
    head ← on_ctx (key_exchange_rsp_head env)
    priv_key ← gets_resp λ r. r.id_priv_key
    pub_key ← gets_resp λ r. r.id_pub_key
    sig ← on_ctx (key_exchange_sign env priv_key pub_key head)
    verify_data ←
        on_ctx (
          key_exchange_proof env (take ecc_key_size (drop 40 buf))
            (take ecc_key_size (drop 88 buf)))
    modify_resp λ r. record r { pending_asym = true }
    on_ctx (pure (head ++ (take ecc_sig_size sig ++ verify_data)))

  -- RespHandleFinish.
  unfoldable pub handle_finish : Bytes → ℕ → R Bytes
  handle_finish buf room = do
    out ← on_ctx (finish_answer env Code.finish_rsp buf room)
    modify_resp λ r. record r { session_asym = true }
    on_ctx (pure out)

  -- RespHandlePskFinish.
  unfoldable pub handle_psk_finish : Bytes → ℕ → R Bytes
  handle_psk_finish buf room = do
    out ← on_ctx (finish_answer env Code.psk_finish_rsp buf room)
    modify_resp λ r. record r { session_asym = false }
    on_ctx (pure out)
