-- ===== src/Responder/Promotion.antt =====
-- A session begins with a finish, and with nothing else (wolfSPDM_RespHandleMessage of
-- src/spdm_responder.c).
pub mod Dispatch
pub mod Message
use wolf_spdm.Types.Code
use wolf_spdm.Base.{
  ℕ, ◌≡◌, ◌≢◌, Bool, true, false, arith, sym, ap, ◌∙◌, subst, inl, inr, ◌==◌, Bool-cases, get_or,
}
use wolf_spdm.Responder.Handshake.{handle_finish, handle_psk_finish}
use wolf_spdm.Responder.Follows.Absorbs.{Absorbs, Follows-before, Follows-embed}
use wolf_spdm.Responder.Command.{
  vendor_command, tpm2_cmd, resp_get_pubk, resp_give_pub, resp_get_sts, resp_spdmonly, resp_psk_set,
  resp_psk_clr, is_code,
}
use wolf_spdm.Responder.{Resp, R, Tpm}
use wolf_spdm.Context.{Env, Bytes, Outcome-cases}
use wolf_spdm.Responder.Dispatch.{secured_vendor, guarded_finish, secured_answer}
use wolf_spdm.Responder.Follows.{Steady, Follows, Steady-on_ctx, Calm-pure, Follows-if}
use wolf_spdm.Types.{state_connected, state_key_ex, max_msg_size}
use wolf_spdm.Responder.Finish.{Finished, finish_answer-Finished, finish_answer-err}
use wolf_spdm.Responder.Exchange.{finish_answer}
use wolf_spdm.Responder.Follows.Vendor.{handle_vendor_defined-Follows}
use wolf_spdm.Transcript.{sha384_hash}
use wolf_spdm.Responder.Calm.{build_end_session_ack-Calm, build_error_clear-Calm}
use wolf_spdm.Responder.Clear.{error_unsupported_request}

-- No session begins.
record Unpromoted (r s : Resp) : Type 0 where
  calm : s.ctx.state ≡ state_connected → r.ctx.state ≡ state_connected

Unpromoted-Absorbs : Absorbs Steady Unpromoted
Unpromoted-Absorbs = record {
  embed = λ r s x. record { calm = x.ctx.calm };
  left = λ r s t x y. record { calm = λ h. x.ctx.calm (y.calm h) };
  right = λ r s t x y. record { calm = λ h. x.calm (y.ctx.calm h) };
}

vendor_command-Unpromoted :
    (env : Env) (tpm : Tpm) (vd_code arg : Bytes)
    → Follows Unpromoted (vendor_command env tpm vd_code arg)
unfolding vendor_command tpm2_cmd resp_get_pubk resp_give_pub resp_get_sts resp_spdmonly
    resp_psk_set resp_psk_clr sha384_hash
vendor_command-Unpromoted env tpm vd_code arg =
    Follows-if (is_code vd_code "TPM2_CMD") (record { follows = λ r. ground arith })
      (Follows-if (is_code vd_code "GET_PUBK") (record { follows = λ r. ground arith })
        (Follows-if (is_code vd_code "GIVE_PUB") (record { follows = λ r. ground arith })
          (Follows-if (is_code vd_code "GET_STS_") (record { follows = λ r. ground arith })
            (Follows-if (is_code vd_code "SPDMONLY") (record { follows = λ r. ground arith })
              (Follows-if (is_code vd_code "PSK_SET_") (record { follows = λ r. ground arith })
                (Follows-if (is_code vd_code "PSK_CLR_") (record { follows = λ r. ground arith })
                  (record { follows = λ r. ground arith })))))))

secured_vendor-Unpromoted :
    (env : Env) (tpm : Tpm) (plain : Bytes) → Follows Unpromoted (secured_vendor env tpm plain)
unfolding secured_vendor
secured_vendor-Unpromoted env tpm plain =
    Follows-before Steady Unpromoted Unpromoted-Absorbs
      (handle_vendor_defined-Follows Unpromoted Unpromoted-Absorbs env tpm plain
        (λ vd_code arg _. vendor_command-Unpromoted env tpm vd_code arg) true max_msg_size)
      λ answer. Steady-on_ctx (Calm-pure {a = answer.1})

-- The request code of the finish that answers KEY_EXCHANGE, and of the one that answers PSK_EXCHANGE.
abbrev pub finish_code : Bool → ℕ
finish_code true = Code.finish
finish_code false = Code.psk_finish

-- How a message began a session: from KEY_EX, with the finish of the exchange that opened it.
pub record Promotes (env : Env) (r s : Resp) (plain : Bytes) : Type 0 where
  pub from_key_ex : r.ctx.state ≡ state_key_ex
  pub code : get_or plain 1 0 ≡ finish_code r.pending_asym
  pub finished : Finished env r.ctx plain
  pub session_asym : s.session_asym ≡ r.pending_asym

guarded_finish-state :
    (asym : Bool) (m : R Bytes) (r : Resp)
    → r.ctx.state ≢ state_connected
    → (guarded_finish asym m r).1.ctx.state ≡ state_connected
    → (r.ctx.state ≡ state_key_ex) × (r.pending_asym ≡ asym) × (guarded_finish asym m r ≡ m r)
unfolding guarded_finish
guarded_finish-state true m r before after = (ground arith, ground arith, ground arith)
guarded_finish-state false m r before after = (ground arith, ground arith, ground arith)

handle_finish-state :
    (env : Env) (buf : Bytes) (room : ℕ) (r : Resp)
    → r.ctx.state ≢ state_connected
    → (handle_finish env buf room r).1.ctx.state ≡ state_connected
    → Finished env r.ctx buf × ((handle_finish env buf room r).1.session_asym ≡ true)
unfolding handle_finish
handle_finish-state env buf room r before after =
    elim (Outcome-cases (finish_answer env Code.finish_rsp buf room r.ctx)) [
      | inr (e, d, run) ↦
          let same = finish_answer-err env Code.finish_rsp buf room r.ctx d e run in
          absurd (before (ground arith))
      | inl (out, d, run) ↦ (
        finish_answer-Finished env Code.finish_rsp buf room r.ctx before (ground arith),
        ground arith,
      )
    ]

handle_psk_finish-state :
    (env : Env) (buf : Bytes) (room : ℕ) (r : Resp)
    → r.ctx.state ≢ state_connected
    → (handle_psk_finish env buf room r).1.ctx.state ≡ state_connected
    → Finished env r.ctx buf × ((handle_psk_finish env buf room r).1.session_asym ≡ false)
unfolding handle_psk_finish
handle_psk_finish-state env buf room r before after =
    elim (Outcome-cases (finish_answer env Code.psk_finish_rsp buf room r.ctx)) [
      | inr (e, d, run) ↦
          let same = finish_answer-err env Code.psk_finish_rsp buf room r.ctx d e run in
          absurd (before (ground arith))
      | inl (out, d, run) ↦ (
        finish_answer-Finished env Code.psk_finish_rsp buf room r.ctx before (ground arith),
        ground arith,
      )
    ]

finish-Promotes :
    (env : Env) (plain : Bytes) (r : Resp)
    → get_or plain 1 0 ≡ Code.finish
    → r.ctx.state ≢ state_connected
    → (guarded_finish true (handle_finish env plain max_msg_size) r).1.ctx.state ≡ state_connected
    → Promotes env r (guarded_finish true (handle_finish env plain max_msg_size) r).1 plain
finish-Promotes env plain r named before after =
    let m = handle_finish env plain max_msg_size in
    let (open_, pending, same) = guarded_finish-state true m r before after in
    let (finished, asym) =
      handle_finish-state env plain max_msg_size r before
        (subst (λ p. p.1.ctx.state ≡ state_connected) same after) in
    record {
      from_key_ex = open_;
      code = named ∙ ap finish_code (sym pending);
      finished = finished;
      session_asym = ap (λ p. p.1.session_asym) same ∙ (asym ∙ sym pending);
    }

psk_finish-Promotes :
    (env : Env) (plain : Bytes) (r : Resp)
    → get_or plain 1 0 ≡ Code.psk_finish
    → r.ctx.state ≢ state_connected
    → (guarded_finish false (handle_psk_finish env plain max_msg_size) r).1.ctx.state
      ≡ state_connected
    → Promotes env r (guarded_finish false (handle_psk_finish env plain max_msg_size) r).1 plain
psk_finish-Promotes env plain r named before after =
    let m = handle_psk_finish env plain max_msg_size in
    let (open_, pending, same) = guarded_finish-state false m r before after in
    let (finished, asym) =
      handle_psk_finish-state env plain max_msg_size r before
        (subst (λ p. p.1.ctx.state ≡ state_connected) same after) in
    record {
      from_key_ex = open_;
      code = named ∙ ap finish_code (sym pending);
      finished = finished;
      session_asym = ap (λ p. p.1.session_asym) same ∙ (asym ∙ sym pending);
    }

pub secured_answer-Promotes :
    (env : Env) (tpm : Tpm) (code : ℕ) (plain : Bytes) (r : Resp)
    → get_or plain 1 0 ≡ code
    → r.ctx.state ≢ state_connected
    → (secured_answer env tpm code plain r).1.ctx.state ≡ state_connected
    → Promotes env r (secured_answer env tpm code plain r).1 plain
unfolding secured_answer
secured_answer-Promotes env tpm code plain r named before after =
    elim (Bool-cases (code == Code.psk_finish)) [
      | inl a ↦ rw a (psk_finish-Promotes env plain r (named ∙ ground arith) before (rw a at after))
      | inr a ↦ elim (Bool-cases (code == Code.finish)) [
        | inl b ↦
            rw (a, b)
              (finish-Promotes env plain r (named ∙ ground arith) before (rw (a, b) at after))
        | inr b ↦
            let rest =
              Follows-if (code == Code.end_session)
                (Follows-embed Steady Unpromoted Unpromoted-Absorbs
                  (Steady-on_ctx (build_end_session_ack-Calm max_msg_size)))
                (Follows-if (code == Code.vendor_defined_request)
                  (secured_vendor-Unpromoted env tpm plain)
                  (Follows-embed Steady Unpromoted Unpromoted-Absorbs (
                    Steady-on_ctx
                      (build_error_clear-Calm error_unsupported_request code max_msg_size)))) in
            absurd (before ((rest.follows r).calm (rw (a, b) at after)))
      ]
    ]
