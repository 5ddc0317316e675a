-- ===== src/Standard/Chain/Trust.antt =====
-- Why wolfSPDM_ValidateCertChain takes a chain (src/spdm_standard.c).
use wolf_spdm.Base.{
  ℕ, ◌-◌, ◌<◌, ◌≡◌, refl, ap, inl, inr, true, Option, none, some, [], ◌∷◌, arith, Option-cases,
  take, drop,
}
use wolf_spdm.Standard.Chain.{
  Asn, check_issuer, CertKey, cert_key, cert_signed_by, der_seq_len, Cert, ecc_spki_verify,
}
use wolf_spdm.Bytes.{same_bytes}
use wolf_spdm.Context.{Env, Bytes, Ctx, ok}

-- What `der` says of its subject.
pub record Subject (asn : Asn) (der : Bytes) (key : CertKey) : Type 0 where
  pub cert : Cert
  pub parsed : asn.parse_cert der ≡ some cert
  pub same_key : cert.public_key ≡ some key.der
  pub same_ca : cert.is_ca ≡ key.is_ca
  pub is_ecdsa : key.oid ≡ asn.ecdsa_k

-- wolfCrypt verified the signature in `der` under the issuer's key, and the issuer is a CA.
pub record Issued (env : Env) (asn : Asn) (issuer : CertKey) (der : Bytes) : Type 0 where
  pub cert : Cert
  pub hash : Bytes
  pub key : ℕ
  pub ca : issuer.is_ca ≡ true
  pub parsed : asn.parse_cert der ≡ some cert
  pub algorithm : cert.signature_oid ≡ asn.ctc_sha384w_ecdsa
  pub hashed :
      env.sha384 (take (cert.sig_index - cert.cert_begin) (drop cert.cert_begin der)) ≡ some hash
  pub decoded : asn.ecc_public_key_decode issuer.der ≡ some key
  pub verified : asn.verify_hash key cert.signature hash ≡ some true

abbrev pub IssuedBy : Env → Asn → Option CertKey → Bytes → Type 0
IssuedBy env asn none der = Unit
IssuedBy env asn (some issuer) der = Issued env asn issuer der

-- The bytes are certificates, each issued by the one before it and the first by `issuer`, down to
-- the key of the leaf.
pub data Linked (env : Env) (asn : Asn) : Option CertKey → Bytes → CertKey → Type 0 where
  leaf : (key : CertKey) → Linked env asn (some key) [] key
  link :
      (issuer : Option CertKey) (certs : Bytes) (key last : CertKey)
      → 0 < der_seq_len certs
      → IssuedBy env asn issuer (take (der_seq_len certs) certs)
      → Subject asn (take (der_seq_len certs) certs) key
      → Linked env asn (some key) (drop (der_seq_len certs) certs) last
      → Linked env asn issuer certs last

pub same_bytes-eq : (a b : Bytes) → same_bytes a b ≡ true → a ≡ b
unfolding same_bytes
same_bytes-eq [] [] e = refl
same_bytes-eq [] (y ∷ b) e = absurd (ground arith)
same_bytes-eq (x ∷ a) [] e = absurd (ground arith)
same_bytes-eq (x ∷ a) (y ∷ b) e =
    let tail = same_bytes-eq a b (ground arith) in
    let head : x ≡ y = ground arith in rw head (ap (λ t. y ∷ t) tail)

module _ (env : Env) (asn : Asn) where
  pub cert_key-Subject :
      (der : Bytes) (c c' : Ctx) (key : CertKey)
      → cert_key env asn der c ≡ (ok key, c')
      → (c' ≡ c) × Subject asn der key
  unfolding cert_key
  cert_key-Subject der c c' key e = elim (Option-cases (asn.parse_cert der)) [
    | inl q ↦ absurd (ground arith)
    | inr (cert, q) ↦ (
      ground arith,
      record {
        cert = cert;
        parsed = q;
        same_key = ground arith;
        same_ca = ground arith;
        is_ecdsa = ground arith;
      },
    )
  ]

  pub check_issuer-IssuedBy :
      (issuer : Option CertKey) (der : Bytes) (c c' : Ctx)
      → check_issuer env asn issuer der c ≡ (ok tt, c')
      → (c' ≡ c) × IssuedBy env asn issuer der
  unfolding check_issuer cert_signed_by ecc_spki_verify
  check_issuer-IssuedBy none der c c' e = (ground arith, tt)
  check_issuer-IssuedBy (some issuer) der c c' e = elim (Option-cases (asn.parse_cert der)) [
    | inl q ↦ absurd (ground arith)
    | inr (cert, q) ↦
        elim (Option-cases
          (env.sha384 (take (cert.sig_index - cert.cert_begin) (drop cert.cert_begin der)))) [
            | inl h ↦ absurd (ground arith)
            | inr (hash, h) ↦ elim (Option-cases (asn.ecc_public_key_decode issuer.der)) [
              | inl k ↦ absurd (ground arith)
              | inr (key, k) ↦ (
                ground arith,
                record {
                  cert = cert;
                  hash = hash;
                  key = key;
                  ca = ground arith;
                  parsed = q;
                  algorithm = ground arith;
                  hashed = h;
                  decoded = k;
                  verified = ground arith;
                },
              )
            ]
          ]
  ]
