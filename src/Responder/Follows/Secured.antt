-- ===== src/Responder/Follows/Secured.antt =====
-- A relation that the vendor commands of a secured message keep is kept by the whole of it
-- (RespDispatchSecured of src/spdm_responder.c).
use wolf_spdm.Types.Code
use wolf_spdm.Responder
use wolf_spdm.Base.{
  ℕ, ◌≡◌, refl, ◌∙◌, Bool, true, false, not, ◌||◌, arith, ltb, ◌==◌, ◌!=◌, if◌then◌else◌, length,
  get_or,
}
use wolf_spdm.Responder.Dispatch.{
  secured_close, guarded_finish, dispatch_secured, secured_answer, secured_vendor, no_keys,
}
use wolf_spdm.Context.{M, Env, Bytes, fail_if, pure, ok}
use wolf_spdm.Responder.{Resp, R, resp_reset, Tpm, on_ctx, gets_resp}
use wolf_spdm.Responder.Handshake.{handle_psk_finish, handle_finish}
use wolf_spdm.Responder.Follows.{IsPreorder, Follows, held, Follows-bind, Follows-if, bind}
use wolf_spdm.Responder.Follows.Absorbs.{
  Absorbs, Follows-embed, Follows-after, Follows-before, after_run,
}
use wolf_spdm.Types.{state_key_ex, bad_state, max_msg_size, framing}
use wolf_spdm.Responder.Command.{handle_vendor_defined}
use wolf_spdm.Responder.Exchange.{build_end_session_ack}
use wolf_spdm.Responder.Clear.{resp_decrypt, build_error_clear, error_unsupported_request}

-- What is provisioned stays.
abbrev pub Kept : Resp → Resp → Type 0
Kept r s = held s ≡ held r

pub Kept-IsPreorder : IsPreorder Kept
Kept-IsPreorder = record { reflexive = λ r. refl; transitive = λ r s t p q. q ∙ p }

pub Kept-on_ctx : {A : Type 0} (m : M A) → Follows Kept (on_ctx m)
Kept-on_ctx m = record { follows = λ r. refl }

Kept->>= :
    {A B : Type 0} {m : R A} {f : A → R B}
    → Follows Kept m
    → ((a : A) → Follows Kept (f a))
    → Follows Kept (Responder.◌>>=◌ m f)
Kept->>= first then_ = Follows-bind Kept Kept-IsPreorder first then_

secured_close-Kept :
    (env : Env) (tpm : Tpm) (code : ℕ) (answer : Bytes) (room : ℕ)
    → Follows Kept (secured_close env tpm code answer room)
unfolding secured_close resp_reset
secured_close-Kept env tpm code answer room = record { follows = λ r. ground arith }

handle_finish-Kept :
    (env : Env) (buf : Bytes) (room : ℕ) → Follows Kept (handle_finish env buf room)
unfolding handle_finish
handle_finish-Kept env buf room = record { follows = λ r. ground arith }

handle_psk_finish-Kept :
    (env : Env) (buf : Bytes) (room : ℕ) → Follows Kept (handle_psk_finish env buf room)
unfolding handle_psk_finish
handle_psk_finish-Kept env buf room = record { follows = λ r. ground arith }

guarded_finish-Kept :
    (asym : Bool) {m : R Bytes} → Follows Kept m → Follows Kept (guarded_finish asym m)
unfolding guarded_finish
guarded_finish-Kept asym {m} kept =
    Kept->>= {m = gets_resp λ r. r} (record { follows = λ r. refl })
      λ (r : Resp).
        Kept->>= {f = λ _. m}
          (Kept-on_ctx (
            fail_if
              (r.ctx.state != state_key_ex || (if asym then not r.pending_asym else r.pending_asym))
              bad_state))
          λ _. kept

module _ (Q : Resp → Resp → Type 0) (absorbs : Absorbs Kept Q) (env : Env) (tpm : Tpm)
    (plain : Bytes)
    (vendor : Follows Q (handle_vendor_defined env tpm true plain max_msg_size)) where
  embedded : {A : Type 0} {m : R A} → Follows Kept m → Follows Q m
  embedded kept = Follows-embed Kept Q absorbs kept

  secured_vendor-Follows : Follows Q (secured_vendor env tpm plain)
  unfolding secured_vendor
  secured_vendor-Follows =
      Follows-before Kept Q absorbs vendor λ answer. Kept-on_ctx (pure answer.1)

  secured_answer-Follows : (code : ℕ) → Follows Q (secured_answer env tpm code plain)
  unfolding secured_answer
  secured_answer-Follows code =
      Follows-if (code == Code.psk_finish)
        (embedded (guarded_finish-Kept false (handle_psk_finish-Kept env plain max_msg_size)))
        (Follows-if (code == Code.finish)
          (embedded (guarded_finish-Kept true (handle_finish-Kept env plain max_msg_size)))
          (Follows-if (code == Code.end_session)
            (embedded (Kept-on_ctx (build_end_session_ack max_msg_size)))
            (Follows-if (code == Code.vendor_defined_request) secured_vendor-Follows (
              embedded
                (Kept-on_ctx (build_error_clear error_unsupported_request code max_msg_size))))))

  -- The message of a record that was opened.
  pub secured_message-Follows :
      (room : ℕ)
      → Follows Q (
          Responder.◌>>◌ (on_ctx (fail_if (ltb (length plain) 2) framing)) (
            Responder.◌>>=◌
              (secured_answer env tpm (get_or plain 1 0) plain)
              λ answer. secured_close env tpm (get_or plain 1 0) answer room))
  secured_message-Follows room =
      Follows-after Kept Q absorbs (Kept-on_ctx (fail_if (ltb (length plain) 2) framing)) λ _.
        Follows-before Kept Q absorbs (secured_answer-Follows (get_or plain 1 0))
          λ answer. secured_close-Kept env tpm (get_or plain 1 0) answer room

module _ (Q : Resp → Resp → Type 0) (absorbs : Absorbs Kept Q) (env : Env) (tpm : Tpm) (buf : Bytes)
    (room : ℕ) (r : Resp)
    (vendor : (plain : Bytes)
      → (resp_decrypt env buf max_msg_size r.ctx).0 ≡ ok plain
      → Follows Q (handle_vendor_defined env tpm true plain max_msg_size)) where
  with_keys :
      (unkeyed : Bool) (f : Bytes → R Bytes)
      → Q r (bind (on_ctx (resp_decrypt env buf max_msg_size)) f r).1
      → Q r
          (bind
            (on_ctx (fail_if unkeyed bad_state))
            (λ _. bind (on_ctx (resp_decrypt env buf max_msg_size)) f)
            r).1
  with_keys true f opened = absorbs.embed r r refl
  with_keys false f opened = opened

  pub dispatch_secured-Follows : Q r (dispatch_secured env tpm buf room r).1
  unfolding dispatch_secured
  dispatch_secured-Follows =
      let answer = λ (plain : Bytes).
        Responder.◌>>◌ (on_ctx (fail_if (ltb (length plain) 2) framing)) (
          Responder.◌>>=◌ (secured_answer env tpm (get_or plain 1 0) plain)
            λ answer. secured_close env tpm (get_or plain 1 0) answer room) in
      with_keys (no_keys r) answer (
        after_run Kept Q absorbs r (on_ctx (resp_decrypt env buf max_msg_size)) answer refl
          λ plain opened.
            secured_message-Follows Q absorbs env tpm plain (vendor plain opened) room)
