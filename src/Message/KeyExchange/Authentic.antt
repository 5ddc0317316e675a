-- ===== src/Message/KeyExchange/Authentic.antt =====
-- The responder's signature in wolfSPDM_ParseKeyExchangeRsp (src/spdm_msg.c).
use wolf_spdm.Context.{Bytes, Ctx, ok, Env, Outcome-cases, err}
use wolf_spdm.Base.{
  ℕ, ◌≡◌, subst, true, some, ◌++◌, append-nil, arith, take, drop, ◌∙◌, ◌+◌, ◌≤◌, inl, inr, length,
  sym, ap, ◌≢◌,
}
use wolf_spdm.Message.KeyExchange.{check_responder, parse_key_exchange_rsp, sig_offset}
use wolf_spdm.Transcript.{transcript_hash, transcript_add, sha384_hash}
use wolf_spdm.Kdf.{codes}
use wolf_spdm.Types.{ecc_sig_size, state_key_ex, hash_size, Error}
use wolf_spdm.Message.Signing.{build_signed_msg, verify_rsp_sig}
use wolf_spdm.Crypto.{extract_ecc_point}
use wolf_spdm.Message.KeyExchange.Proof.{verify_rsp_sig-ok}
use wolf_spdm.Message.{check_parse_or_error_args, check_response}
use wolf_spdm.Responder.Follows.{run_cases}
use wolf_spdm.Message.Commit.{check_responder-Uncommitted}

-- The context string of the responder's signature.
abbrev pub key_ex_context : Bytes
key_ex_context = codes "responder-key_exchange_rsp signing"

-- `digest` was signed with `sig` by the holder of the key that `c` has provisioned.
abbrev pub Signed : Env → Ctx → Bytes → Bytes → Type 0
Signed env c digest sig =
    (msg : Bytes) × (hash : Bytes) × (point : Bytes) × (build_signed_msg c.spdm_version
        key_ex_context digest
      ≡ ok msg)
    × (env.sha384 msg ≡ some hash)
    × (extract_ecc_point c.identity.rsp_pub_key ≡ ok point)
    × (env.ecc_verify point hash sig ≡ some true)

pub transcript_add-ok :
    (message : Bytes) (c c' : Ctx)
    → transcript_add message c ≡ (ok tt, c')
    → c' ≡ record c { transcript = c.transcript ++ message }
unfolding transcript_add
transcript_add-ok message c c' e = ground arith

pub transcript_hash-ok :
    (env : Env) (c c' : Ctx) (digest : Bytes)
    → transcript_hash env c ≡ (ok digest, c')
    → (c' ≡ c) × (env.sha384 c.transcript ≡ some digest)
unfolding transcript_hash sha384_hash
transcript_hash-ok env c c' digest e =
    (ground arith, subst (λ t. env.sha384 t ≡ some digest) (append-nil c.transcript) (ground arith))

check_responder-Signed :
    (env : Env) (buf : Bytes) (off : ℕ) (c c' : Ctx)
    → check_responder env buf off c ≡ (ok tt, c')
    → (digest : Bytes) × (env.sha384 (c.transcript ++ take off buf) ≡ some digest)
      × Signed env c digest (take ecc_sig_size (drop off buf))
unfolding check_responder
check_responder-Signed env buf off c c' e =
    let sig = take ecc_sig_size (drop off buf) in
    elim (Outcome-cases (transcript_add (take off buf) c)) [
      | inr (x, c1, r1) ↦ absurd (ground arith)
      | inl (_, c1, r1) ↦ elim (Outcome-cases (transcript_hash env c1)) [
        | inr (x, c2, r2) ↦ absurd (ground arith)
        | inl (digest, c2, r2) ↦
            elim (Outcome-cases (verify_rsp_sig env key_ex_context digest sig c2)) [
              | inr (x, c3, r3) ↦ absurd (ground arith)
              | inl (_, c3, r3) ↦
                  let grown = transcript_add-ok (take off buf) c c1 r1 in
                  let (same2, hashed) = transcript_hash-ok env c1 c2 digest r2 in
                  let (same3, has, msg, hash, point, built, hm, pt, ver) =
                    verify_rsp_sig-ok env key_ex_context digest sig c2 c3 r3 in
                  (
                    digest,
                    subst (λ d. env.sha384 d.transcript ≡ some digest) grown hashed,
                    subst (λ d. Signed env d digest sig) (same2 ∙ grown)
                        (msg, hash, point, built, hm, pt, ver),
                  )
            ]
      ]
    ]

parse_key_exchange_rsp-check :
    (env : Env) (buf : Bytes) (c c' : Ctx)
    → parse_key_exchange_rsp env buf c ≡ (ok tt, c')
    → (d : Ctx) × (check_responder env buf (sig_offset buf) c ≡ (ok tt, d))
      × (sig_offset buf + ecc_sig_size + hash_size ≤ length buf)
      × (c'.state ≡ state_key_ex)
unfolding parse_key_exchange_rsp check_parse_or_error_args check_response
parse_key_exchange_rsp-check env buf c c' e =
    elim (Outcome-cases (check_responder env buf (sig_offset buf) c)) [
      | inl (_, d, run) ↦ (d, run, ground arith, ground arith)
      | inr (x, d, run) ↦ absurd (ground arith)
    ]

parse_key_exchange_rsp-err :
    (env : Env) (buf : Bytes) (c c' : Ctx) (e : Error)
    → parse_key_exchange_rsp env buf c ≡ (err e, c')
    → c'.state ≡ c.state
unfolding parse_key_exchange_rsp check_parse_or_error_args check_response
parse_key_exchange_rsp-err env buf c c' e run =
    let kept = (check_responder-Uncommitted env buf (sig_offset buf)).follows c in
    elim (Outcome-cases (check_responder env buf (sig_offset buf) c)) [
      | inl (_, d, ran) ↦ ground arith
      | inr (x, d, ran) ↦ ground arith
    ]

-- If parse_key_exchange_rsp, which may fail in any way, leaves the state KEY_EX where it was another
-- one, then it has succeeded, on a response that holds its whole signature and HMAC, and whose
-- signature wolfCrypt verified, under the provisioned responder key, over the signed message for the
-- SHA-384 of the transcript with the response up to the signature.
pub parse_key_exchange_rsp_authentic :
    (env : Env) (buf : Bytes) (c : Ctx)
    → c.state ≢ state_key_ex
    → (parse_key_exchange_rsp env buf c).1.state ≡ state_key_ex
    → ((parse_key_exchange_rsp env buf c).0 ≡ ok tt)
      × (sig_offset buf + ecc_sig_size + hash_size ≤ length buf)
      × (digest : Bytes) × (env.sha384 (c.transcript ++ take (sig_offset buf) buf) ≡ some digest)
      × Signed env c digest (take ecc_sig_size (drop (sig_offset buf) buf))
parse_key_exchange_rsp_authentic env buf c before after =
    elim (run_cases (parse_key_exchange_rsp env buf c)) [
      | inr (e, run) ↦ absurd (before (sym (parse_key_exchange_rsp-err env buf c _ e run) ∙ after))
      | inl (_, run) ↦
          let (d, ran, whole, state) = parse_key_exchange_rsp-check env buf c _ run in
          let (digest, hashed, signed) = check_responder-Signed env buf (sig_offset buf) c d ran in
          (ap (λ p. p.0) run, whole, digest, hashed, signed)
    ]
