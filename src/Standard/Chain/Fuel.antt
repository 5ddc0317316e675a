-- ===== src/Standard/Chain/Fuel.antt =====
-- The walk over the certificate chain in wolfSPDM_ValidateCertChain (src/spdm_standard.c).
use wolf_spdm.Base.{
  ℕ, zero, suc, ◌≤◌, ◌≡◌, ◌⊎◌, inl, inr, Option, some, [], ◌∷◌, arith, length, drop, length-drop,
}
use wolf_spdm.Context.{Env, Bytes, Ctx, ok, err, Outcome-cases}
use wolf_spdm.Standard.Chain.{Asn, walk_chain, CertKey, walk_step}
use wolf_spdm.Types.{Error}
use wolf_spdm.Standard.Chain.Validate.{walk_step-link}

module _ (env : Env) (asn : Asn) where
  -- The walk over a chain, with as much fuel as the chain has bytes, comes to its end or to a refused
  -- certificate, and never runs out of fuel: every certificate has at least one byte.
  pub walk_chain_ends :
      (f : ℕ) (issuer : Option CertKey) (certs : Bytes) (c : Ctx)
      → length certs ≤ f
      → ((last : Option CertKey) × (d : Ctx) × (walk_chain env asn f issuer certs c
            ≡ (ok (some last), d)))
        ⊎ ((e : Error) × (d : Ctx) × (walk_chain env asn f issuer certs c ≡ (err e, d)))
  unfolding walk_chain
  walk_chain_ends f issuer [] c h = inl (issuer, c, ground arith)
  walk_chain_ends zero issuer (b ∷ certs) c h = absurd (omega arith)
  walk_chain_ends (suc f) issuer (b ∷ certs) c h =
      elim (Outcome-cases (walk_step env asn issuer (b ∷ certs) c)) [
        | inr (x, d, run) ↦ inr (x, d, ground arith)
        | inl ((key, n), d, run) ↦
            let (same, len, whole, issued, subject) =
              walk_step-link env asn issuer (b ∷ certs) c d key n run in
            let left = length-drop n (b ∷ certs) in
            let shorter : length (drop n (b ∷ certs)) ≤ f = omega arith in
            elim (walk_chain_ends f (some key) (drop n (b ∷ certs)) d shorter) [
              | inl (last, d2, rest) ↦ inl (last, d2, ground arith)
              | inr (x, d2, rest) ↦ inr (x, d2, ground arith)
            ]
      ]
