-- ===== src/Exchange.antt =====
-- One request and its response: wolfSPDM_ClearExchange (src/spdm_chunk.c), wolfSPDM_SecuredExchange
-- (src/spdm_secured.c) and wolfSPDM_ExchangeMsg (src/spdm_session.c).
pub mod RollBack
pub mod Frame
use wolf_spdm.Base.{
  ℕ, Bool, ◌||◌, ◌&&◌, not, true, false, ltb, ◌==◌, ◌!=◌, length, take, if◌then◌else◌,
}
use wolf_spdm.Types.{
  state_key_ex, state_error, Run, run_none, run_live, run_open, buffer_small, not_connected,
}
use wolf_spdm.Context.{Bytes, Env, Ctx, err, M, fail_if, modify, gets, is_tcg_mode, ◌>>=◌, ◌>>◌}
use wolf_spdm.Transcript.{transcript_add}
use wolf_spdm.Transport.{send_receive}
use wolf_spdm.Secured.{secured_xfer}
use wolf_spdm.Kdf.{on_error}
use wolf_spdm.Chunk.{chunk_on, chunk_exchange}

-- Only back-to-back GET_MEASUREMENTS extend L1/L2.
abbrev pub close_run : Run → Run
close_run run_none = run_none
close_run run_live = run_live
close_run run_open = run_live

-- The guard of wolfSPDM_SecuredExchange: keys exist from KEY_EXCHANGE_RSP on, and only the TCG
-- binding sends a request under the handshake keys.
unfoldable pub no_session : Ctx → Bool
no_session c =
    ltb c.state state_key_ex
    || (c.state == state_error
        || (c.session_id == 0 || (c.state == state_key_ex && not (is_tcg_mode c.mode))))

-- A failed exchange leaves no half message for a retry to build on.
unfoldable pub roll_back : ℕ → Ctx → Ctx
roll_back mark c =
    if ltb mark (length c.transcript) then record c { transcript = take mark c.transcript } else c

module _ (env : Env) where
  -- wolfSPDM_ClearExchange. Unchunked, a request must fit the responder's DataTransferSize.
  unfoldable pub clear_exchange : Bytes → ℕ → M Bytes
  clear_exchange req room c =
      if chunk_on c
      then chunk_exchange env false req room c
      else (if not (is_tcg_mode c.mode)
            && (c.limits.data_transfer_size != 0 && ltb c.limits.data_transfer_size (length req))
          then (err buffer_small, c)
          else send_receive env req room c)

  -- wolfSPDM_SecuredExchange.
  unfoldable pub secured_exchange : Bytes → ℕ → M Bytes
  secured_exchange cmd rsp_size = do
    closed ← gets no_session
    fail_if closed not_connected
    modify
        λ c. record c { attest = record (c.attest) { l1l2_state = close_run c.attest.l1l2_state } }
    chunked ← gets chunk_on
    (if chunked then chunk_exchange env true cmd rsp_size else secured_xfer env cmd rsp_size)

  -- wolfSPDM_ExchangeMsg: build, transcript, exchange, transcript, parse.
  unfoldable pub exchange_msg : (ℕ → M Bytes) → (Bytes → M (Unit {0})) → ℕ → ℕ → M (Unit {0})
  exchange_msg build parse tx_size rx_size c =
      on_error
        (do
          tx ← build tx_size
          transcript_add tx
          rx ← clear_exchange tx rx_size
          transcript_add rx
          parse rx)
        (roll_back (length c.transcript)) c
