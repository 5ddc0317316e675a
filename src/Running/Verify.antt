-- ===== src/Running/Verify.antt =====
-- wolfSPDM_RunVerify (src/spdm_attest.c).
use wolf_spdm.Base.{
  ℕ, ◌≡◌, inl, inr, true, some, ◌++◌, arith, Option-cases, take, drop, refl, ap, ◌∙◌, subst,
}
use wolf_spdm.Context.{Env, Ctx, Bytes, ok, Outcome-cases}
use wolf_spdm.Running.{
  run_verify, run_add, run_update, Digest, run_hash, set_run_hash, l1l2, set_run_state, m1,
}
use wolf_spdm.Message.Signing.{build_signed_msg, verify_rsp_sig}
use wolf_spdm.Crypto.{extract_ecc_point}
use wolf_spdm.Types.{ecc_sig_size, run_none}
use wolf_spdm.Message.KeyExchange.Proof.{verify_rsp_sig-ok}

-- wolfCrypt verified `sig` under the responder key, over the hash of the signed message for `label`
-- and `digest`.
pub record RspSigned (env : Env) (c : Ctx) (label digest sig : Bytes) : Type 0 where
  pub msg : Bytes
  pub hash : Bytes
  pub point : Bytes
  pub built : build_signed_msg c.spdm_version label digest ≡ ok msg
  pub hashed : env.sha384 msg ≡ some hash
  pub extracted : extract_ecc_point c.identity.rsp_pub_key ≡ ok point
  pub verified : env.ecc_verify point hash sig ≡ some true

run_add-ok :
    (env : Env) (d : Digest) (req rsp : Bytes) (c c' : Ctx)
    → run_add env d req rsp c ≡ (ok tt, c')
    → c' ≡ set_run_hash d ((run_hash d c ++ req) ++ rsp) c
unfolding run_add run_update
run_add-ok env l1l2 req rsp c c' e = ground arith
run_add-ok env m1 req rsp c c' e = ground arith

run_hash-set : (d : Digest) (h : Bytes) (c : Ctx) → run_hash d (set_run_hash d h c) ≡ h
run_hash-set l1l2 h c = refl
run_hash-set m1 h c = refl

-- The end of a run leaves the responder key and the version alone.
RspSigned-ended :
    (env : Env) (d : Digest) (h : Bytes) (c : Ctx) (label digest sig : Bytes)
    → RspSigned env (set_run_state d run_none (set_run_hash d h c)) label digest sig
    → RspSigned env c label digest sig
RspSigned-ended env l1l2 h c label digest sig s = record {
  msg = s.msg;
  hash = s.hash;
  point = s.point;
  built = s.built;
  hashed = s.hashed;
  extracted = s.extracted;
  verified = s.verified;
}
RspSigned-ended env m1 h c label digest sig s = record {
  msg = s.msg;
  hash = s.hash;
  point = s.point;
  built = s.built;
  hashed = s.hashed;
  extracted = s.extracted;
  verified = s.verified;
}

run_verify-check :
    (env : Env) (d : Digest) (label req rsp : Bytes) (off : ℕ) (c c' : Ctx)
    → run_verify env d label req rsp off c ≡ (ok tt, c')
    → (digest : Bytes) × (c1 : Ctx) × (run_add env d req (take off rsp) c ≡ (ok tt, c1))
      × (env.sha384 (run_hash d c1) ≡ some digest)
      × (verify_rsp_sig env label digest
            (take ecc_sig_size (drop off rsp))
            (set_run_state d run_none c1)
          ≡ (ok tt, c'))
unfolding run_verify
run_verify-check env d label req rsp off c c' e =
    elim (Outcome-cases (run_add env d req (take off rsp) c)) [
      | inr (x, c1, r1) ↦ absurd (ground arith)
      | inl (_, c1, r1) ↦ elim (Option-cases (env.sha384 (run_hash d c1))) [
        | inl q ↦ absurd (ground arith)
        | inr (digest, q) ↦ (digest, c1, r1, q, ground arith)
      ]
    ]

verify_rsp_sig-RspSigned :
    (env : Env) (label digest sig : Bytes) (c c' : Ctx)
    → verify_rsp_sig env label digest sig c ≡ (ok tt, c')
    → (c' ≡ c) × RspSigned env c label digest sig
verify_rsp_sig-RspSigned env label digest sig c c' e =
    let (same, has, m, h, p, built, hashed, extracted, verified) =
      verify_rsp_sig-ok env label digest sig c c' e in
    (
      same,
      record {
        msg = m;
        hash = h;
        point = p;
        built = built;
        hashed = hashed;
        extracted = extracted;
        verified = verified;
      },
    )

-- run_verify takes a response only if wolfCrypt verified its signature, under the responder key, over
-- the signed message for the SHA-384 of what the run has taken in, the request and the response up
-- to the signature; the run is over then, and but for the run the context is the same.
pub run_verify_signed :
    (env : Env) (d : Digest) (label req rsp : Bytes) (off : ℕ) (c c' : Ctx)
    → run_verify env d label req rsp off c ≡ (ok tt, c')
    → (digest : Bytes) × (env.sha384 ((run_hash d c ++ req) ++ take off rsp) ≡ some digest)
      × RspSigned env c label digest (take ecc_sig_size (drop off rsp))
      × (c' ≡ set_run_state d run_none (set_run_hash d ((run_hash d c ++ req) ++ take off rsp) c))
run_verify_signed env d label req rsp off c c' e =
    let (digest, c1, r1, q, last) = run_verify-check env d label req rsp off c c' e in
    let sig = take ecc_sig_size (drop off rsp) in
    let (same, signed) =
      verify_rsp_sig-RspSigned env label digest sig (set_run_state d run_none c1) c' last in
    let grown = run_add-ok env d req (take off rsp) c c1 r1 in
    let taken = (run_hash d c ++ req) ++ take off rsp in
    (
      digest,
      subst (λ t. env.sha384 t ≡ some digest) (ap (run_hash d) grown ∙ run_hash-set d taken c) q,
      RspSigned-ended env d taken c label digest sig
          (subst (λ x. RspSigned env (set_run_state d run_none x) label digest sig) grown signed),
      same ∙ ap (set_run_state d run_none) grown,
    )
