-- ===== src/Responder/Gate.antt =====
-- What a clear frame cannot do to the responder (src/spdm_responder.c).
use wolf_spdm.Responder
use wolf_spdm.Base.{ℕ, ◌-◌, ◌≡◌, refl, ap, ◌∙◌, Bool, true, false, arith, ◌==◌}
use wolf_spdm.Responder.Command.{
  resp_get_pubk, resp_get_sts, handle_vendor_defined, vendor_command, resp_psk_set, resp_psk_clr,
  vendor_refused, is_code, vendor_run,
}
use wolf_spdm.Types.{
  Error, state_connected, tcg_tag_clear, not_available, max_msg_size, tcg_header_size, bad_state,
}
use wolf_spdm.Responder.Follows.{
  Follows, Steady, Follows-if, Steady-on_ctx, Calm-lift, Steady-gets, Follows-if-true, Steady->>=,
  Calm-pure,
}
use wolf_spdm.Responder.{Resp, Tpm, on_ctx, R}
use wolf_spdm.Responder.Follows.Absorbs.{Absorbs, Follows-after, Follows-before}
use wolf_spdm.Context.{Env, Bytes, fail_if, fail}
use wolf_spdm.Transcript.{sha384_hash}
use wolf_spdm.Bytes.{get16be}
use wolf_spdm.Responder.Dispatch.{handle_message, frame_payload, dispatch_secured}
use wolf_spdm.Tcg.{parse_vendor_defined}
use wolf_spdm.Responder.Follows.Clear.{dispatch_clear-Follows}
use wolf_spdm.Responder.Follows.Message.{handle_message-Follows, framed}
use wolf_spdm.Responder.Steady.{vendor_reply-Steady}

-- What the defence against bus snooping guards: the TPM, the SPDMONLY lock, the requester's and the
-- responder's keys; and no session begins.
pub record Gated (r s : Resp) : Type 0 where
  pub tpm_log : s.tpm_log ≡ r.tpm_log
  pub spdm_only_lock : s.spdm_only_lock ≡ r.spdm_only_lock
  pub identity : s.ctx.identity ≡ r.ctx.identity
  pub id_priv_key : s.id_priv_key ≡ r.id_priv_key
  pub id_pub_key : s.id_pub_key ≡ r.id_pub_key
  pub calm : s.ctx.state ≡ state_connected → r.ctx.state ≡ state_connected

Gated-of-Steady : (r s : Resp) → Steady r s → Gated r s
Gated-of-Steady r s x = record {
  tpm_log = ap (λ h. h.tpm_log) x.held;
  spdm_only_lock = ap (λ h. h.spdm_only_lock) x.held;
  identity = x.ctx.identity;
  id_priv_key = ap (λ h. h.id_priv_key) x.held;
  id_pub_key = ap (λ h. h.id_pub_key) x.held;
  calm = x.ctx.calm;
}

Gated-trans : (r s t : Resp) → Gated r s → Gated s t → Gated r t
Gated-trans r s t x y = record {
  tpm_log = y.tpm_log ∙ x.tpm_log;
  spdm_only_lock = y.spdm_only_lock ∙ x.spdm_only_lock;
  identity = y.identity ∙ x.identity;
  id_priv_key = y.id_priv_key ∙ x.id_priv_key;
  id_pub_key = y.id_pub_key ∙ x.id_pub_key;
  calm = λ h. x.calm (y.calm h);
}

Gated-Absorbs : Absorbs Steady Gated
Gated-Absorbs = record {
  embed = Gated-of-Steady;
  left = λ r s t x y. Gated-trans r s t (Gated-of-Steady r s x) y;
  right = λ r s t x y. Gated-trans r s t x (Gated-of-Steady s t y);
}

resp_get_pubk-Gated : Follows Gated resp_get_pubk
unfolding resp_get_pubk
resp_get_pubk-Gated = record { follows = λ r. ground arith }

resp_get_sts-Gated : Follows Gated resp_get_sts
unfolding resp_get_sts
resp_get_sts-Gated = record { follows = λ r. ground arith }

resp_psk_set-Gated : (payload : Bytes) → Follows Gated (resp_psk_set payload)
unfolding resp_psk_set
resp_psk_set-Gated payload = record { follows = λ r. ground arith }

resp_psk_clr-Gated : (env : Env) (payload : Bytes) → Follows Gated (resp_psk_clr env payload)
unfolding resp_psk_clr sha384_hash
resp_psk_clr-Gated env payload = record { follows = λ r. ground arith }

unknown-Gated : Follows Gated (on_ctx (fail {A = Bytes} not_available))
unknown-Gated = record { follows = λ r. ground arith }

-- The commands that are not refused in the clear.
vendor_command-Gated :
    (env : Env) (tpm : Tpm) (vd_code payload : Bytes) (state : ℕ)
    → vendor_refused false vd_code state ≡ false
    → Follows Gated (vendor_command env tpm vd_code payload)
unfolding vendor_command vendor_refused
vendor_command-Gated env tpm vd_code payload state allowed =
    let no_tpm : is_code vd_code "TPM2_CMD" ≡ false = ground arith in
    let no_give : is_code vd_code "GIVE_PUB" ≡ false = ground arith in
    let no_lock : is_code vd_code "SPDMONLY" ≡ false = ground arith in
    rw (no_tpm, no_give, no_lock)
      (Follows-if (is_code vd_code "GET_PUBK") resp_get_pubk-Gated (
        Follows-if (is_code vd_code "GET_STS_") resp_get_sts-Gated (
          Follows-if (is_code vd_code "PSK_SET_") (resp_psk_set-Gated payload) (
            Follows-if (is_code vd_code "PSK_CLR_") (resp_psk_clr-Gated env payload)
              unknown-Gated))))

-- The rest of the block may use that the guard passed.
guarded-Gated :
    {A : Type 0} (test : Bool) (e : Error) (m : R A)
    → (test ≡ false → Follows Gated m)
    → Follows Gated (Responder.◌>>◌ (on_ctx (fail_if test e)) m)
guarded-Gated true e m passes = record { follows = λ r. ground arith }
guarded-Gated false e m passes = record { follows = λ r. (passes refl).follows r }

vendor_run-Gated :
    (env : Env) (tpm : Tpm) (vd_code arg : Bytes) (room state : ℕ)
    → vendor_refused false vd_code state ≡ false
    → Follows Gated (vendor_run env tpm vd_code arg room)
unfolding vendor_run
vendor_run-Gated env tpm vd_code arg room state allowed =
    Follows-before Steady Gated Gated-Absorbs
      (vendor_command-Gated env tpm vd_code arg state allowed)
      λ payload.
        Steady->>= (vendor_reply-Steady vd_code payload room)
          λ out. Steady-on_ctx (Calm-pure {a = (vd_code, out)})

handle_vendor_defined-Gated :
    (env : Env) (tpm : Tpm) (buf : Bytes) (room : ℕ)
    → Follows Gated (handle_vendor_defined env tpm false buf room)
unfolding handle_vendor_defined
handle_vendor_defined-Gated env tpm buf room =
    Follows-after Steady Gated Gated-Absorbs
      (Steady-on_ctx (Calm-lift {r = parse_vendor_defined buf max_msg_size}))
      λ request.
        Follows-after Steady Gated Gated-Absorbs (Steady-gets {f = λ r. r.ctx.state}) λ state.
          guarded-Gated (vendor_refused false request.0 state) bad_state
            (vendor_run env tpm request.0 request.1 room)
            λ allowed. vendor_run-Gated env tpm request.0 request.1 room state allowed

-- A frame with the clear tag gives the TPM no command, moves neither the SPDMONLY lock nor the keys of
-- the requester and of the responder, and begins no session, whatever it holds, whatever the state
-- and whether it is answered or refused.
pub handle_message-Gated :
    (env : Env) (tpm : Tpm) (buf : Bytes) (room : ℕ) (r : Resp)
    → get16be buf ≡ tcg_tag_clear
    → Gated r (handle_message env tpm buf room r).1
handle_message-Gated env tpm buf room r tag =
    let clear =
      dispatch_clear-Follows Gated Gated-Absorbs env tpm (frame_payload buf)
        (room - tcg_header_size)
        (handle_vendor_defined-Gated env tpm (frame_payload buf) (room - tcg_header_size)) in
    let body =
      Follows-if-true (get16be buf == tcg_tag_clear)
        (dispatch_secured env tpm (frame_payload buf) (room - tcg_header_size)) (ground arith)
        clear in
    handle_message-Follows Gated Gated-Absorbs env tpm buf room r (body.follows (framed buf r))
