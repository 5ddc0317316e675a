-- ===== src/Responder/Finish.antt =====
-- How a session begins at the responder (RespDispatchSecured and the finish handlers of
-- src/spdm_responder.c).
use wolf_spdm.Types.Code
use wolf_spdm.Base.{
  ℕ, ◌+◌, ◌≤◌, ◌≡◌, sym, ap, ◌∙◌, ◌≢◌, inl, inr, false, ◌||◌, some, [], ◌++◌, append-nil, arith,
  ltb, ◌==◌, Bool-cases, Option-cases, length, take, drop,
}
use wolf_spdm.Responder.Dispatch.{secured_close}
use wolf_spdm.Context.{Env, Ctx, Bytes, err}
use wolf_spdm.Responder.Clear.{resp_decrypt, resp_encrypt, swap_data_dir}
use wolf_spdm.Responder.Exchange.{finish_answer}
use wolf_spdm.Responder.{resp_reset, Tpm, Resp}
use wolf_spdm.Transcript.{transcript_add, transcript_hash, transcript_reset, sha384_hash}
use wolf_spdm.Secured.{decrypt_internal, encrypt_internal, encrypt_record}
use wolf_spdm.Crypto.{free_ephemeral_key}
use wolf_spdm.Exchange.Frame.Exchanges.{Keeps-decrypt_record, Keeps-encrypt_record}
use wolf_spdm.Types.{hash_size, state_connected, Error}
use wolf_spdm.Responder.Follows.{
  Follows, Calm, Steady, Steady->>=, Steady-on_ctx, Follows-if, Calm-pure, Steady-modify,
}
use wolf_spdm.Kdf.{compute_verify_data}
use wolf_spdm.Bytes.{same_bytes}
use wolf_spdm.Standard.Chain.Trust.{same_bytes-eq}
use wolf_spdm.Responder.Calm.{derive_app_data_keys-Calm}

-- What a finish that was accepted says: the message `plain` carries the HMAC, under the requester's
-- finished key, of the SHA-384 of the transcript with the message's header.
pub record Finished (env : Env) (c : Ctx) (plain : Bytes) : Type 0 where
  pub th2 : Bytes
  pub whole : 4 + hash_size ≤ length plain
  pub hashed : env.sha384 (c.transcript ++ take 4 plain) ≡ some th2
  pub proved : env.hmac c.keys.req_finished_key th2 ≡ some (take hash_size (drop 4 plain))

-- finish_answer leaves a session behind only if the finish is the requester's.
pub finish_answer-Finished :
    (env : Env) (code : ℕ) (buf : Bytes) (room : ℕ) (c : Ctx)
    → c.state ≢ state_connected
    → (finish_answer env code buf room c).1.state ≡ state_connected
    → Finished env c buf
unfolding finish_answer transcript_add transcript_hash sha384_hash compute_verify_data
finish_answer-Finished env code buf room c before after =
    elim (Option-cases (env.sha384 ((c.transcript ++ take 4 buf) ++ []))) [
      | inl q ↦ absurd (before (ground arith))
      | inr (th2, q) ↦ elim (Option-cases (env.hmac c.keys.req_finished_key th2)) [
        | inl w ↦ absurd (before (ground arith))
        | inr (hmac, w) ↦ elim (Bool-cases (same_bytes hmac (take hash_size (drop 4 buf)))) [
          | inr other ↦ absurd (before (ground arith))
          | inl same ↦ elim (Bool-cases (ltb (length buf) (4 + hash_size))) [
            | inl short ↦ absurd (before (ground arith))
            | inr long ↦ record {
              th2 = th2;
              whole = ground arith;
              hashed = ap env.sha384 (sym (append-nil (c.transcript ++ take 4 buf))) ∙ q;
              proved = w ∙ ap some (same_bytes-eq hmac (take hash_size (drop 4 buf)) same);
            }
          ]
        ]
      ]
    ]

-- A finish that is refused begins nothing.
pub finish_answer-err :
    (env : Env) (code : ℕ) (buf : Bytes) (room : ℕ) (c d : Ctx) (e : Error)
    → finish_answer env code buf room c ≡ (err e, d)
    → d.state ≡ c.state
unfolding finish_answer transcript_add transcript_hash sha384_hash compute_verify_data
finish_answer-err env code buf room c d e run =
    elim (Option-cases (env.sha384 ((c.transcript ++ take 4 buf) ++ []))) [
      | inl q ↦ ground arith
      | inr (th2, q) ↦ elim (Option-cases (env.hmac c.keys.req_finished_key th2)) [
        | inl w ↦ ground arith
        | inr (hmac, w) ↦ elim (Bool-cases (same_bytes hmac (take hash_size (drop 4 buf)))) [
          | inr other ↦ ground arith
          | inl same ↦ ground arith
        ]
      ]
    ]

resp_encrypt-Calm :
    (env : Env) (plain : Bytes) (room : ℕ) → Follows Calm (resp_encrypt env plain room)
unfolding resp_encrypt swap_data_dir encrypt_internal
resp_encrypt-Calm env plain room = record {
  follows = λ c.
      let k = (Keeps-encrypt_record env false plain room).kept (swap_data_dir c) in
      let i : (encrypt_record env false plain room (swap_data_dir c)).1.identity ≡ c.identity =
        ap (λ f. f.identity) k in
      let s : (encrypt_record env false plain room (swap_data_dir c)).1.state ≡ c.state =
        ap (λ f. f.state) k in
      record { identity = i; calm = λ h. sym s ∙ h };
}

-- resp_decrypt writes the requester's sequence number only.
pub resp_decrypt-same :
    (env : Env) (enc : Bytes) (room : ℕ) (c : Ctx)
    → let d = (resp_decrypt env enc room c).1 in
      (d.state ≡ c.state) × (d.transcript ≡ c.transcript) × (d.keys ≡ c.keys)
unfolding resp_decrypt swap_data_dir decrypt_internal
resp_decrypt-same env enc room c =
    let k = (Keeps-decrypt_record env false enc room).kept (swap_data_dir c) in
    (ap (λ f. f.state) k, ap (λ f. f.transcript) k, ground arith)

pub secured_close-Steady :
    (env : Env) (tpm : Tpm) (code : ℕ) (answer : Bytes) (room : ℕ)
    → Follows Steady (secured_close env tpm code answer room)
unfolding secured_close resp_reset transcript_reset free_ephemeral_key
secured_close-Steady env tpm code answer room =
    Steady->>= (Steady-on_ctx (resp_encrypt-Calm env answer room)) λ out.
      Steady->>=
        (Follows-if (code == Code.psk_finish || code == Code.finish)
          (Steady-on_ctx (derive_app_data_keys-Calm env)) (Steady-on_ctx (Calm-pure {a = tt})))
        λ _.
          Steady->>=
            (Follows-if (code == Code.end_session)
              (Steady-modify {f = resp_reset} λ r. ground arith)
              (Steady-on_ctx (Calm-pure {a = tt})))
            λ _. Steady-on_ctx (Calm-pure {a = out})

-- The end of a secured message that leaves a session keeps how it was authenticated.
pub secured_close-asym :
    (env : Env) (tpm : Tpm) (code : ℕ) (answer : Bytes) (room : ℕ) (r : Resp)
    → (secured_close env tpm code answer room r).1.ctx.state ≡ state_connected
    → (secured_close env tpm code answer room r).1.session_asym ≡ r.session_asym
unfolding secured_close resp_reset
secured_close-asym env tpm code answer room r after = ground arith
