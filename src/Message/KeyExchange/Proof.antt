-- ===== src/Message/KeyExchange/Proof.antt =====
-- wolfSPDM_VerifySignature (src/spdm_crypto.c) and wolfSPDM_VerifyRspSig (src/spdm_msg.c).
use wolf_spdm.Context.{Bytes, Ctx, ok, err, Env, Result-cases}
use wolf_spdm.Base.{
  ◌≡◌, refl, true, some, arith, subst, inl, inr, [], ◌++◌, append-nil, Option-cases,
}
use wolf_spdm.Crypto.{verify_signature, extract_ecc_point}
use wolf_spdm.Message.Signing.{verify_rsp_sig, build_signed_hash, build_signed_msg}
use wolf_spdm.Transcript.{sha384_hash}

verify_signature-ok :
    (env : Env) (hash sig : Bytes) (c c' : Ctx)
    → verify_signature env hash sig c ≡ (ok tt, c')
    → (c' ≡ c)
      × (point : Bytes) × (extract_ecc_point c.identity.rsp_pub_key ≡ ok point)
      × (env.ecc_verify point hash sig ≡ some true)
unfolding verify_signature
verify_signature-ok env hash sig c c' e =
    elim (extract_ecc_point c.identity.rsp_pub_key)
        as (λ r.
          extract_ecc_point c.identity.rsp_pub_key ≡ r
          → (c' ≡ c)
            × (point : Bytes) × (extract_ecc_point c.identity.rsp_pub_key ≡ ok point)
            × (env.ecc_verify point hash sig ≡ some true)) [
              | ok point ↦ λ q. (ground arith, point, q, ground arith)
              | err x ↦ λ q. absurd (ground arith)
            ]
      refl

-- verify_rsp_sig takes a signature only under a provisioned responder key, and then wolfCrypt has
-- verified it under the point of that key over the SHA-384 of the signed message built for the
-- negotiated version; the context is not changed.
pub verify_rsp_sig-ok :
    (env : Env) (context message_hash sig : Bytes) (c c' : Ctx)
    → verify_rsp_sig env context message_hash sig c ≡ (ok tt, c')
    → (c' ≡ c)
      × (c.identity.has_rsp_pub_key ≡ true)
      × (msg : Bytes) × (hash : Bytes) × (point : Bytes) × (build_signed_msg c.spdm_version context
            message_hash
          ≡ ok msg)
      × (env.sha384 msg ≡ some hash)
      × (extract_ecc_point c.identity.rsp_pub_key ≡ ok point)
      × (env.ecc_verify point hash sig ≡ some true)
unfolding verify_rsp_sig build_signed_hash sha384_hash
verify_rsp_sig-ok env context message_hash sig c c' e =
    elim (Result-cases (build_signed_msg c.spdm_version context message_hash)) [
      | inr (x, q) ↦ absurd (ground arith)
      | inl (msg, built) ↦ elim (Option-cases (env.sha384 (msg ++ []))) [
        | inl q ↦ absurd (ground arith)
        | inr (hash, hashed) ↦
            let (same, point, found, verified) =
              verify_signature-ok env hash sig c c' (ground arith) in
            (
              same,
              ground arith,
              msg,
              hash,
              point,
              built,
              subst (λ m. env.sha384 m ≡ some hash) (append-nil msg) hashed,
              found,
              verified,
            )
      ]
    ]
