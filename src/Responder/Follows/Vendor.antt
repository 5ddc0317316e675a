-- ===== src/Responder/Follows/Vendor.antt =====
-- A relation that every vendor command keeps is kept by RespHandleVendorDefined
-- (src/spdm_responder.c).
use wolf_spdm.Responder
use wolf_spdm.Base.{ℕ, Bool, ◌≡◌}
use wolf_spdm.Responder.{Resp, Tpm, on_ctx, gets_resp}
use wolf_spdm.Responder.Follows.Absorbs.{Absorbs, Follows-after, Follows-before, after_run}
use wolf_spdm.Responder.Follows.{
  Steady, Follows, Steady-on_ctx, Steady->>=, Calm-lift, Calm-pure, Steady-gets, Calm-fail_if,
}
use wolf_spdm.Context.{Env, Bytes, ok, lift, fail_if}
use wolf_spdm.Responder.Command.{vendor_command, vendor_run, handle_vendor_defined, vendor_refused}
use wolf_spdm.Responder.Steady.{vendor_reply-Steady}
use wolf_spdm.Tcg.{parse_vendor_defined}
use wolf_spdm.Types.{max_msg_size, bad_state}

module _ (Q : Resp → Resp → Type 0) (absorbs : Absorbs Steady Q) (env : Env) (tpm : Tpm)
    (buf : Bytes)
    (command : (vd_code arg : Bytes)
      → parse_vendor_defined buf max_msg_size ≡ ok (vd_code, arg)
      → Follows Q (vendor_command env tpm vd_code arg)) where
  vendor_run-Follows :
      (vd_code arg : Bytes) (room : ℕ)
      → parse_vendor_defined buf max_msg_size ≡ ok (vd_code, arg)
      → Follows Q (vendor_run env tpm vd_code arg room)
  unfolding vendor_run
  vendor_run-Follows vd_code arg room parsed =
      Follows-before Steady Q absorbs (command vd_code arg parsed) λ payload.
        Steady->>= (vendor_reply-Steady vd_code payload room)
          λ out. Steady-on_ctx (Calm-pure {a = (vd_code, out)})

  pub handle_vendor_defined-Follows :
      (secured : Bool) (room : ℕ) → Follows Q (handle_vendor_defined env tpm secured buf room)
  unfolding handle_vendor_defined
  handle_vendor_defined-Follows secured room = record {
    follows = λ r.
        after_run Steady Q absorbs r (on_ctx (lift (parse_vendor_defined buf max_msg_size)))
          (λ request. Responder.◌>>=◌ (gets_resp λ r. r.ctx.state) λ state.
            Responder.◌>>◌ (on_ctx (fail_if (vendor_refused secured request.0 state) bad_state))
              (vendor_run env tpm request.0 request.1 room))
          ((Steady-on_ctx (Calm-lift {r = parse_vendor_defined buf max_msg_size})).follows r)
          λ request parsed.
            Follows-after Steady Q absorbs (Steady-gets {f = λ r. r.ctx.state}) λ state.
              Follows-after Steady Q absorbs
                (Steady-on_ctx (Calm-fail_if (vendor_refused secured request.0 state) bad_state))
                λ _. vendor_run-Follows request.0 request.1 room parsed;
  }
