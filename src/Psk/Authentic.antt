-- ===== src/Psk/Authentic.antt =====
-- The responder's proof in wolfSPDM_ParsePskExchangeRsp (src/spdm_psk.c).
use wolf_spdm.Base.{
  ℕ, ◌≡◌, inl, inr, some, [], ◌++◌, arith, take, drop, true, Option-cases, replicate, ◌+◌, ◌≤◌,
  length, sym, ap, ◌∙◌, subst, ◌≢◌,
}
use wolf_spdm.Psk.{
  derive_handshake_keys_psk, check_psk_responder, wipe_psk, parse_psk_exchange_rsp, verify_offset,
}
use wolf_spdm.Kdf.{
  compute_verify_data, derive_from_handshake_secret, wipe_handshake_keys, derive_handshake_chain,
  derive_key_iv_pair,
}
use wolf_spdm.Context.{Env, Bytes, Ctx, ok, Outcome-cases, err}
use wolf_spdm.Types.{hash_size, state_key_ex, Error}
use wolf_spdm.Transcript.{transcript_add, transcript_hash}
use wolf_spdm.Message.KeyExchange.Authentic.{transcript_add-ok, transcript_hash-ok}
use wolf_spdm.Bytes.{same_bytes}
use wolf_spdm.Message.{check_parse_or_error_args, check_response}
use wolf_spdm.Standard.Chain.Trust.{same_bytes-eq}
use wolf_spdm.Responder.Follows.{run_cases}
use wolf_spdm.Message.Commit.{check_psk_responder-Uncommitted}

derive_handshake_keys_psk-wiped :
    (env : Env) (th1_hash : Bytes) (c c' : Ctx)
    → derive_handshake_keys_psk env th1_hash c ≡ (ok tt, c')
    → c'.psk.psk ≡ []
unfolding derive_handshake_keys_psk wipe_psk
derive_handshake_keys_psk-wiped env th1_hash c c' e = ground arith

derive_from_handshake_secret-th1 :
    (env : Env) (th1_hash : Bytes) (c : Ctx)
    → (derive_from_handshake_secret env th1_hash c).1.th1 ≡ c.th1
unfolding derive_from_handshake_secret wipe_handshake_keys derive_handshake_chain derive_key_iv_pair
derive_from_handshake_secret-th1 env th1_hash c = ground arith

derive_handshake_keys_psk-th1 :
    (env : Env) (th1_hash : Bytes) (c c' : Ctx)
    → derive_handshake_keys_psk env th1_hash c ≡ (ok tt, c')
    → c'.th1 ≡ c.th1
unfolding derive_handshake_keys_psk wipe_psk
derive_handshake_keys_psk-th1 env th1_hash c c' e =
    elim (Option-cases (env.hkdf_extract (replicate hash_size 0xFF) c.psk.psk)) [
      | inl q ↦ absurd (ground arith)
      | inr (hs, q) ↦
          let d : Ctx = record c { keys = record (c.keys) { handshake_secret = hs } } in
          let kept = derive_from_handshake_secret-th1 env th1_hash d in ground arith
    ]

check_psk_responder-ok :
    (env : Env) (buf : Bytes) (off : ℕ) (c c' : Ctx)
    → check_psk_responder env buf off c ≡ (ok tt, c')
    → (c'.psk.psk ≡ [])
      × (env.sha384 (c.transcript ++ take off buf) ≡ some c'.th1)
      × (env.hmac c'.keys.rsp_finished_key c'.th1 ≡ some (take hash_size (drop off buf)))
unfolding check_psk_responder compute_verify_data
check_psk_responder-ok env buf off c c' e = elim (Outcome-cases (transcript_add (take off buf) c)) [
  | inr (x, c1, r1) ↦ absurd (ground arith)
  | inl (_, c1, r1) ↦ elim (Outcome-cases (transcript_hash env c1)) [
    | inr (x, c2, r2) ↦ absurd (ground arith)
    | inl (th1, c2, r2) ↦
        let d : Ctx = record c2 { th1 = th1 } in
        elim (Outcome-cases (derive_handshake_keys_psk env th1 d)) [
          | inr (x, c3, r3) ↦ absurd (ground arith)
          | inl (_, c3, r3) ↦ elim (Option-cases (env.hmac c3.keys.rsp_finished_key th1)) [
            | inl q ↦ absurd (ground arith)
            | inr (hmac, q) ↦
                let sent = take hash_size (drop off buf) in
                elim (Outcome-cases (transcript_add sent c3)) [
                  | inr (x, c4, r4) ↦ absurd (ground arith)
                  | inl (_, c4, r4) ↦
                      let grown = transcript_add-ok (take off buf) c c1 r1 in
                      let (same2, hashed) = transcript_hash-ok env c1 c2 th1 r2 in
                      let wiped = derive_handshake_keys_psk-wiped env th1 d c3 r3 in
                      let kept = derive_handshake_keys_psk-th1 env th1 d c3 r3 in
                      let last = transcript_add-ok sent c3 c4 r4 in
                      let named : same_bytes hmac sent ≡ true = ground arith in
                      let whole : c4 ≡ c' = ground arith in
                      let th : c'.th1 ≡ th1 = ground arith in
                      let key : c'.keys.rsp_finished_key ≡ c3.keys.rsp_finished_key =
                        ground arith in
                      (
                        ground arith,
                        subst (λ t. env.sha384 (c.transcript ++ take off buf) ≡ some t) (sym th)
                            (subst (λ d. env.sha384 d.transcript ≡ some th1) grown hashed),
                        rw (th, key) (q ∙ ap some (same_bytes-eq hmac sent named)),
                      )
                ]
          ]
        ]
  ]
]

parse_psk_exchange_rsp-check :
    (env : Env) (buf : Bytes) (c c' : Ctx)
    → parse_psk_exchange_rsp env buf c ≡ (ok tt, c')
    → (d : Ctx) × (check_psk_responder env buf (verify_offset buf) c ≡ (ok tt, d))
      × (verify_offset buf + hash_size ≤ length buf)
      × (c'.psk ≡ d.psk)
      × (c'.th1 ≡ d.th1)
      × (c'.keys ≡ d.keys)
      × (c'.state ≡ state_key_ex)
unfolding parse_psk_exchange_rsp check_parse_or_error_args check_response
parse_psk_exchange_rsp-check env buf c c' e =
    elim (Outcome-cases (check_psk_responder env buf (verify_offset buf) c)) [
      | inl (_, d, run) ↦
          (d, run, ground arith, ground arith, ground arith, ground arith, ground arith)
      | inr (x, d, run) ↦ absurd (ground arith)
    ]

pub parse_psk_exchange_rsp-ok :
    (env : Env) (buf : Bytes) (c c' : Ctx)
    → parse_psk_exchange_rsp env buf c ≡ (ok tt, c')
    → (verify_offset buf + hash_size ≤ length buf)
      × (c'.psk.psk ≡ [])
      × (env.sha384 (c.transcript ++ take (verify_offset buf) buf) ≡ some c'.th1)
      × (env.hmac c'.keys.rsp_finished_key c'.th1
          ≡ some (take hash_size (drop (verify_offset buf) buf)))
parse_psk_exchange_rsp-ok env buf c c' e =
    let (d, run, whole, psk, th1, keys, state) = parse_psk_exchange_rsp-check env buf c c' e in
    let (wiped, hashed, proved) = check_psk_responder-ok env buf (verify_offset buf) c d run in
    let transported : env.hmac c'.keys.rsp_finished_key c'.th1
        ≡ some (take hash_size (drop (verify_offset buf) buf)) =
      ap (λ k. env.hmac k.rsp_finished_key c'.th1) keys
      ∙ ap (env.hmac d.keys.rsp_finished_key) th1
      ∙ proved in
    (whole, rw psk wiped, rw th1 hashed, transported)

parse_psk_exchange_rsp-err :
    (env : Env) (buf : Bytes) (c c' : Ctx) (e : Error)
    → parse_psk_exchange_rsp env buf c ≡ (err e, c')
    → c'.state ≡ c.state
unfolding parse_psk_exchange_rsp check_parse_or_error_args check_response
parse_psk_exchange_rsp-err env buf c c' e run =
    let kept = (check_psk_responder-Uncommitted env buf (verify_offset buf)).follows c in
    elim (Outcome-cases (check_psk_responder env buf (verify_offset buf) c)) [
      | inl (_, d, ran) ↦ ground arith
      | inr (x, d, ran) ↦ ground arith
    ]

-- If parse_psk_exchange_rsp, which may fail in any way, leaves the state KEY_EX where it was another
-- one, then it has succeeded, on a response that holds its whole verify data, and whose verify data is
-- the HMAC, under the responder's finished key of the context, of TH1, the SHA-384 of the transcript
-- with the response up to the verify data. The PSK is gone from the context then.
pub parse_psk_exchange_rsp_authentic :
    (env : Env) (buf : Bytes) (c : Ctx)
    → c.state ≢ state_key_ex
    → (parse_psk_exchange_rsp env buf c).1.state ≡ state_key_ex
    → let c' = (parse_psk_exchange_rsp env buf c).1 in
      ((parse_psk_exchange_rsp env buf c).0 ≡ ok tt)
      × (verify_offset buf + hash_size ≤ length buf)
      × (c'.psk.psk ≡ [])
      × (env.sha384 (c.transcript ++ take (verify_offset buf) buf) ≡ some c'.th1)
      × (env.hmac c'.keys.rsp_finished_key c'.th1
          ≡ some (take hash_size (drop (verify_offset buf) buf)))
parse_psk_exchange_rsp_authentic env buf c before after =
    elim (run_cases (parse_psk_exchange_rsp env buf c)) [
      | inr (e, run) ↦ absurd (before (sym (parse_psk_exchange_rsp-err env buf c _ e run) ∙ after))
      | inl (_, run) ↦
          let (whole, psk, hashed, proved) = parse_psk_exchange_rsp-ok env buf c _ run in
          (ap (λ p. p.0) run, whole, psk, hashed, proved)
    ]
