-- ===== src/Responder/Promotion/Dispatch.antt =====
-- A session begins with a finish, and with nothing else: the dispatcher of secured messages and
-- wolfSPDM_RespHandleMessage (src/spdm_responder.c).
use wolf_spdm.Responder
use wolf_spdm.Base.{
  ℕ, ◌≡◌, sym, ap, ◌∙◌, subst, ◌≢◌, inl, inr, some, ◌++◌, arith, ltb, Bool-cases, length, get_or,
  take, drop, refl,
}
use wolf_spdm.Context.{Env, Bytes, Ctx, err, ok, Outcome-cases, Result}
use wolf_spdm.Responder.Dispatch.{dispatch_secured, secured_answer, secured_close, no_keys}
use wolf_spdm.Responder.{Tpm, R, Resp}
use wolf_spdm.Types.{state_connected, hash_size, max_msg_size}
use wolf_spdm.Responder.Promotion.{Promotes, secured_answer-Promotes}
use wolf_spdm.Responder.Clear.{resp_decrypt}
use wolf_spdm.Responder.Follows.{run_cases}
use wolf_spdm.Responder.Finish.{resp_decrypt-same, secured_close-Steady, secured_close-asym}

-- What a secured message does once it is decrypted.
abbrev run_plain : Env → Tpm → ℕ → Bytes → R Bytes
run_plain env tpm room plain =
    Responder.◌>>=◌ (secured_answer env tpm (get_or plain 1 0) plain)
      λ answer. secured_close env tpm (get_or plain 1 0) answer room

run_plain-Promotes :
    (env : Env) (tpm : Tpm) (room : ℕ) (plain : Bytes) (r : Resp)
    → r.ctx.state ≢ state_connected
    → (run_plain env tpm room plain r).1.ctx.state ≡ state_connected
    → Promotes env r (run_plain env tpm room plain r).1 plain
run_plain-Promotes env tpm room plain r before after =
    let code = get_or plain 1 0 in
    let s = (secured_answer env tpm code plain r).1 in
    elim (run_cases (secured_answer env tpm code plain r)) [
      | inr (e, run) ↦
          let same : run_plain env tpm room plain r ≡ (err e, s) = ground arith in
          let p =
            secured_answer-Promotes env tpm code plain r refl before
              (subst (λ o. o.1.ctx.state ≡ state_connected) same after) in
          subst (λ o. Promotes env r o.1 plain) (sym same) p
      | inl (answer, run) ↦
          let same : run_plain env tpm room plain r ≡ secured_close env tpm code answer room s =
            ground arith in
          let ended = subst (λ o. o.1.ctx.state ≡ state_connected) same after in
          let began = ((secured_close-Steady env tpm code answer room).follows s).ctx.calm ended in
          let p = secured_answer-Promotes env tpm code plain r refl before began in
          let asym = secured_close-asym env tpm code answer room s ended in
          record {
            from_key_ex = p.from_key_ex;
            code = p.code;
            finished = p.finished;
            session_asym = ap (λ o. o.1.session_asym) same ∙ (asym ∙ p.session_asym);
          }
    ]

-- The promotion as seen from before the decryption.
before_decrypt :
    (env : Env) (plain : Bytes) (d : Ctx) (r s : Resp)
    → (d.state ≡ r.ctx.state) × (d.transcript ≡ r.ctx.transcript) × (d.keys ≡ r.ctx.keys)
    → Promotes env (record r { ctx = d }) s plain
    → Promotes env r s plain
before_decrypt env plain d r s (state, transcript, keys) p = record {
  from_key_ex = sym state ∙ p.from_key_ex;
  code = p.code;
  finished = record {
    th2 = p.finished.th2;
    whole = p.finished.whole;
    hashed =
        subst (λ t. env.sha384 (t ++ take 4 plain) ≡ some p.finished.th2) transcript
          p.finished.hashed;
    proved =
        subst
          (λ k. env.hmac k.req_finished_key p.finished.th2 ≡ some (take hash_size (drop 4 plain)))
          keys p.finished.proved;
  };
  session_asym = p.session_asym;
}

pub dispatch_secured-Promotes :
    (env : Env) (tpm : Tpm) (buf : Bytes) (room : ℕ) (r : Resp)
    → r.ctx.state ≢ state_connected
    → (dispatch_secured env tpm buf room r).1.ctx.state ≡ state_connected
    → (plain : Bytes) × ((resp_decrypt env buf max_msg_size r.ctx).0 ≡ ok plain)
      × Promotes env r (dispatch_secured env tpm buf room r).1 plain
unfolding dispatch_secured
dispatch_secured-Promotes env tpm buf room r before after =
    let kept = resp_decrypt-same env buf max_msg_size r.ctx in
    elim (Bool-cases (no_keys r)) [
      | inl bad ↦ absurd (before (ground arith))
      | inr keyed ↦ elim (Outcome-cases (resp_decrypt env buf max_msg_size r.ctx)) [
        | inr (e, d, run) ↦ absurd (before (ground arith))
        | inl (plain, d, run) ↦ elim (Bool-cases (ltb (length plain) 2)) [
          | inl short ↦ absurd (before (ground arith))
          | inr long ↦
              let d' : Resp = record r { ctx = d } in
              let same_d =
                subst
                  (λ (o : Result Bytes × Ctx).
                    (o.1.state ≡ r.ctx.state)
                    × (o.1.transcript ≡ r.ctx.transcript)
                    × (o.1.keys ≡ r.ctx.keys))
                  run kept in
              let same : dispatch_secured env tpm buf room r ≡ run_plain env tpm room plain d' =
                ground arith in
              let ended = subst (λ o. o.1.ctx.state ≡ state_connected) same after in
              let p =
                run_plain-Promotes env tpm room plain d' (λ h. before (sym same_d.0 ∙ h)) ended in
              (
                plain,
                ap (λ o. o.0) run,
                subst (λ o. Promotes env r o.1 plain) (sym same)
                    (before_decrypt env plain d r (run_plain env tpm room plain d').1 same_d p),
              )
        ]
      ]
    ]
