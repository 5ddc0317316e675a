-- ===== src/Attest/Challenge/Authentic.antt =====
-- What a successful wolfSPDM_Challenge has verified (src/spdm_attest.c).
use wolf_spdm.Types.Code
use wolf_spdm.Base.{
  ℕ, ◌+◌, ◌≡◌, inl, inr, true, arith, take, drop, sym, ap, ◌∙◌, subst, some, ◌++◌, ◌∷◌,
  Option-cases,
}
use wolf_spdm.Context.{Env, Ctx, Bytes, ok, Outcome-cases}
use wolf_spdm.Attest.Challenge.{
  challenge_slot, build_challenge, parse_challenge_auth, chal_rsp_size,
}
use wolf_spdm.Running.{m1_start, run_start, run_update, run_verify, m1}
use wolf_spdm.Crypto.{get_random}
use wolf_spdm.Message.{check_response}
use wolf_spdm.Standard.Chain.{Asn, validate_cert_chain}
use wolf_spdm.Running.Verify.{RspSigned, run_verify_signed}
use wolf_spdm.Types.{hash_size, ecc_sig_size}
use wolf_spdm.Attest.{nonce_size, req_context_max, req_context_size}
use wolf_spdm.Bytes.{same_bytes}
use wolf_spdm.Standard.Chain.Trust.{same_bytes-eq}
use wolf_spdm.Exchange.{clear_exchange}
use wolf_spdm.Kdf.{codes}
use wolf_spdm.Standard.Chain.Validate.{validate_cert_chain-kept}
use wolf_spdm.Exchange.Frame.{frame}
use wolf_spdm.Exchange.Frame.Exchanges.{frame-clear_exchange}

RspSigned-same :
    (env : Env) (c d : Ctx) (label digest sig : Bytes)
    → d.spdm_version ≡ c.spdm_version
    → d.identity ≡ c.identity
    → RspSigned env c label digest sig
    → RspSigned env d label digest sig
RspSigned-same env c d label digest sig version identity s = record {
  msg = s.msg;
  hash = s.hash;
  point = s.point;
  built = rw version s.built;
  hashed = s.hashed;
  extracted = rw identity s.extracted;
  verified = s.verified;
}

m1_start-same :
    (env : Env) (c c' : Ctx)
    → m1_start env c ≡ (ok tt, c')
    → (c'.spdm_version ≡ c.spdm_version) × (c'.identity ≡ c.identity)
unfolding m1_start run_start run_update
m1_start-same env c c' e = ground arith

build_challenge-same :
    (env : Env) (asn : Asn) (size slot kind : ℕ) (c c' : Ctx) (req : Bytes)
    → build_challenge env asn size slot kind c ≡ (ok req, c')
    → (c'.attest ≡ c.attest) × (c'.cert_chain_hash ≡ c.cert_chain_hash)
unfolding build_challenge get_random
build_challenge-same env asn size slot kind c c' req e = ground arith

parse_challenge_auth-ok :
    (req rsp : Bytes) (c c' : Ctx) (off : ℕ)
    → parse_challenge_auth req rsp c ≡ (ok off, c')
    → (c' ≡ c) × (take hash_size (drop 4 rsp) ≡ c.cert_chain_hash)
unfolding parse_challenge_auth check_response
parse_challenge_auth-ok req rsp c c' off e =
    let named : same_bytes (take hash_size (drop 4 rsp)) c.cert_chain_hash ≡ true = ground arith in
    (ground arith, same_bytes-eq _ _ named)

-- The exchange of a CHALLENGE: the request that was built after the chain was validated, the response
-- that the peer gave to it, and where the parser found the signature.
pub record Challenged (env : Env) (asn : Asn) (slot kind : ℕ) (c : Ctx) : Type 0 where
  pub req : Bytes
  pub rsp : Bytes
  pub off : ℕ
  pub c1 : Ctx
  pub c2 : Ctx
  pub c3 : Ctx
  pub c4 : Ctx
  pub validated : validate_cert_chain env asn c ≡ (ok tt, c1)
  pub asked : build_challenge env asn (4 + nonce_size + req_context_max) slot kind c1 ≡ (ok req, c2)
  pub exchanged : clear_exchange env req chal_rsp_size c2 ≡ (ok rsp, c3)
  pub parsed : parse_challenge_auth req rsp c3 ≡ (ok off, c4)

-- The end of a successful wolfSPDM_Challenge.
record Verified (env : Env) (asn : Asn) (slot kind : ℕ) (c c' : Ctx) : Type 0 where
  exchange : Challenged env asn slot kind c
  c5 : Ctx
  checked :
      run_verify env m1
        (codes "responder-challenge_auth signing")
        exchange.req
        exchange.rsp
        exchange.off
        exchange.c4
      ≡ (ok tt, c5)
  restarted : m1_start env c5 ≡ (ok tt, c')

challenge_slot-Verified :
    (env : Env) (asn : Asn) (slot kind : ℕ) (c c' : Ctx)
    → challenge_slot env asn slot kind c ≡ (ok tt, c')
    → Verified env asn slot kind c c'
unfolding challenge_slot
challenge_slot-Verified env asn slot kind c c' e =
    elim (Outcome-cases (validate_cert_chain env asn c)) [
      | inr (x, c1, r1) ↦ absurd (ground arith)
      | inl (_, c1, r1) ↦
          let size = 4 + nonce_size + req_context_max in
          elim (Outcome-cases (build_challenge env asn size slot kind c1)) [
            | inr (x, c2, r2) ↦ absurd (ground arith)
            | inl (req, c2, r2) ↦ elim (Outcome-cases (clear_exchange env req chal_rsp_size c2)) [
              | inr (x, c3, r3) ↦ absurd (ground arith)
              | inl (rsp, c3, r3) ↦ elim (Outcome-cases (parse_challenge_auth req rsp c3)) [
                | inr (x, c4, r4) ↦ absurd (ground arith)
                | inl (off, c4, r4) ↦
                    let label = codes "responder-challenge_auth signing" in
                    elim (Outcome-cases (run_verify env m1 label req rsp off c4)) [
                      | inr (x, c5, r5) ↦ absurd (ground arith)
                      | inl (_, c5, r5) ↦ record {
                        exchange = record {
                          req = req;
                          rsp = rsp;
                          off = off;
                          c1 = c1;
                          c2 = c2;
                          c3 = c3;
                          c4 = c4;
                          validated = r1;
                          asked = r2;
                          exchanged = r3;
                          parsed = r4;
                        };
                        c5 = c5;
                        checked = r5;
                        restarted = ground arith;
                      }
                    ]
              ]
            ]
          ]
    ]

-- What a CHALLENGE asks: the slot and the kind of summary that the caller chose, with a nonce of 32
-- bytes and a RequesterContext from the RNG.
asked_bytes :
    (env : Env) (asn : Asn) (size slot kind : ℕ) (c c' : Ctx) (req : Bytes)
    → build_challenge env asn size slot kind c ≡ (ok req, c')
    → (random : Bytes) × (req ≡ c.spdm_version ∷ Code.challenge ∷ slot ∷ kind ∷ random)
      × (env.random c.draws (nonce_size + req_context_size c.spdm_version) ≡ some random)
unfolding build_challenge get_random
asked_bytes env asn size slot kind c c' req e =
    elim (Option-cases (env.random c.draws (nonce_size + req_context_size c.spdm_version))) [
      | inl q ↦ absurd (ground arith)
      | inr (random, q) ↦ (random, ground arith, q)
    ]

-- challenge_slot succeeds only after the chain was validated, and on a CHALLENGE_AUTH that the peer
-- gave to the CHALLENGE for the slot, with its nonce and RequesterContext just drawn from the RNG; that
-- names the chain by its hash; and whose signature, where the parser found it, wolfCrypt verified,
-- under the responder key that the context then holds, over the signed message for the SHA-384 of M1:
-- what the running hash had taken in, that request and the response up to the signature.
pub challenge_slot_authentic :
    (env : Env) (asn : Asn) (slot kind : ℕ) (c c' : Ctx)
    → challenge_slot env asn slot kind c ≡ (ok tt, c')
    → (s : Challenged env asn slot kind c) × (digest : Bytes) × (random : Bytes) × (s.req
        ≡ s.c1.spdm_version ∷ Code.challenge ∷ slot ∷ kind ∷ random)
      × (env.random s.c1.draws (nonce_size + req_context_size s.c1.spdm_version) ≡ some random)
      × (take hash_size (drop 4 s.rsp) ≡ c.cert_chain_hash)
      × (env.sha384 ((c.attest.m1_hash ++ s.req) ++ take s.off s.rsp) ≡ some digest)
      × RspSigned env c'
          (codes "responder-challenge_auth signing")
          digest
          (take ecc_sig_size (drop s.off s.rsp))
challenge_slot_authentic env asn slot kind c c' e =
    let v = challenge_slot-Verified env asn slot kind c c' e in
    let s = v.exchange in
    let (random, req, drawn) = asked_bytes env asn _ slot kind s.c1 s.c2 s.req s.asked in
    let label = codes "responder-challenge_auth signing" in
    let (attest1, hash1, _) = validate_cert_chain-kept env asn c s.c1 s.validated in
    let (attest2, hash2) = build_challenge-same env asn _ slot kind s.c1 s.c2 s.req s.asked in
    let kept3 =
      ap (λ p. frame p.1) (sym s.exchanged) ∙ frame-clear_exchange env s.req chal_rsp_size s.c2 in
    let (same4, named) = parse_challenge_auth-ok s.req s.rsp s.c3 s.c4 s.off s.parsed in
    let (digest, hashed, signed, ended) =
      run_verify_signed env m1 label s.req s.rsp s.off s.c4 v.c5 v.checked in
    let (version6, identity6) = m1_start-same env v.c5 c' v.restarted in
    let m1_same : s.c4.attest.m1_hash ≡ c.attest.m1_hash =
      ap (λ d. d.attest.m1_hash) same4
      ∙ ap (λ f. f.m1_hash) kept3
      ∙ ap (λ a. a.m1_hash) attest2
      ∙ ap (λ a. a.m1_hash) attest1 in
    (
      s,
      digest,
      random,
      req,
      drawn,
      named ∙ ap (λ f. f.cert_chain_hash) kept3 ∙ hash2 ∙ hash1,
      subst (λ h. env.sha384 ((h ++ s.req) ++ take s.off s.rsp) ≡ some digest) m1_same hashed,
      RspSigned-same env s.c4 c' label digest _ (version6 ∙ ap (λ d. d.spdm_version) ended)
          (identity6 ∙ ap (λ d. d.identity) ended) signed,
    )
