-- ===== src/Standard/Chain/Validate.antt =====
-- wolfSPDM_ValidateCertChain as a whole (src/spdm_standard.c).
use wolf_spdm.Base.{
  ℕ, zero, suc, ◌<◌, ◌≡◌, sym, subst, ◌⊎◌, inl, inr, true, false, Option, none, some, [], ◌∷◌, ◌++◌,
  arith, Option-cases, length, take, drop, ap, ◌∙◌, not, ◌&&◌, Bool-cases,
}
use wolf_spdm.Context.{Ctx, Env, Bytes, ok, Outcome-cases}
use wolf_spdm.Standard.Chain.{
  Asn, root_key, walk_step, leaf_key, walk_chain, CertKey, der_seq_len, check_issuer, cert_key,
  accept_leaf, validate_cert_chain,
}
use wolf_spdm.Types.{hash_size, cert_chain_hdr_size, ecc_point_size, rsp_pubkey_size}
use wolf_spdm.Transcript.{sha384_hash}
use wolf_spdm.Standard.Chain.Trust.{
  Subject, Linked, IssuedBy, leaf, cert_key-Subject, link, check_issuer-IssuedBy, same_bytes-eq,
}
use wolf_spdm.Bytes.{same_bytes}
use wolf_spdm.Standard.{forget_cert_key}

-- `point` is the P-384 point of the leaf's key.
pub record LeafPoint (env : Env) (asn : Asn) (key : CertKey) (point : Bytes) : Type 0 where
  pub ecc_key : ℕ
  pub x : Bytes
  pub y : Bytes
  pub decoded : asn.ecc_public_key_decode key.der ≡ some ecc_key
  pub p384 : asn.is_p384 ecc_key ≡ true
  pub exported : env.ecc_export_public_raw ecc_key ≡ some (x, y)
  pub joined : point ≡ x ++ y

-- The chain header names the configured root by its SHA-384, and `key` is the root's.
pub record Rooted (env : Env) (asn : Asn) (c : Ctx) (key : CertKey) : Type 0 where
  pub hashed :
      env.sha384 (c.certs.trusted_ca ++ []) ≡ some (take hash_size (drop 4 c.certs.cert_chain))
  pub subject : Subject asn c.certs.trusted_ca key

-- The configured root, if there is one.
abbrev pub RootOf : Env → Asn → Ctx → Option CertKey → Type 0
RootOf env asn c none = length c.certs.trusted_ca ≡ 0
RootOf env asn c (some key) = Rooted env asn c key

-- The responder key was pinned and stays, or a root is configured, or chains without an anchor are
-- allowed.
abbrev pub IsTrusted : Ctx → Ctx → Type 0
IsTrusted c c' =
    ((c.identity.has_rsp_pub_key ≡ true)
      × (c.identity.rsp_key_from_cert ≡ false)
      × (c'.identity ≡ c.identity))
    ⊎ ((0 < length c.certs.trusted_ca) ⊎ (c.certs.allow_untrusted ≡ true))

module _ (env : Env) (asn : Asn) where
  leaf_key-LeafPoint :
      (key : CertKey) (size : ℕ) (c c' : Ctx) (point : Bytes)
      → leaf_key env asn key size c ≡ (ok point, c')
      → (c' ≡ c) × LeafPoint env asn key point
  unfolding leaf_key
  leaf_key-LeafPoint key size c c' point e =
      elim (Option-cases (asn.ecc_public_key_decode key.der)) [
        | inl q ↦ absurd (ground arith)
        | inr (k, q) ↦ elim (Option-cases (env.ecc_export_public_raw k)) [
          | inl r ↦ absurd (ground arith)
          | inr ((x, y), r) ↦ (
            ground arith,
            record {
              ecc_key = k;
              x = x;
              y = y;
              decoded = q;
              p384 = ground arith;
              exported = r;
              joined = ground arith;
            },
          )
        ]
      ]

  root_key-RootOf :
      (c c' : Ctx) (root : Option CertKey)
      → root_key env asn c ≡ (ok root, c')
      → (c' ≡ c) × RootOf env asn c root
  unfolding root_key sha384_hash
  root_key-RootOf c c' none e = elim (Outcome-cases (cert_key env asn c.certs.trusted_ca c)) [
    | inr (x, d, run) ↦ (ground arith, ground arith)
    | inl (k, d, run) ↦ (ground arith, ground arith)
  ]
  root_key-RootOf c c' (some key) e = elim (Outcome-cases (cert_key env asn c.certs.trusted_ca c)) [
    | inr (x, d, run) ↦ absurd (ground arith)
    | inl (k, d, run) ↦ elim (Option-cases (env.sha384 (c.certs.trusted_ca ++ []))) [
      | inl q ↦ absurd (ground arith)
      | inr (hash, q) ↦
          let (same, subject) = cert_key-Subject env asn c.certs.trusted_ca c d k run in
          let named : same_bytes hash (take hash_size (drop 4 c.certs.cert_chain)) ≡ true =
            ground arith in
          let got : k ≡ key = ground arith in
          (
            ground arith,
            record {
              hashed = q ∙ ap some (same_bytes-eq hash _ named);
              subject = subst (Subject asn c.certs.trusted_ca) got subject;
            },
          )
    ]
  ]

  pub walk_step-link :
      (issuer : Option CertKey) (certs : Bytes) (c c' : Ctx) (key : CertKey) (n : ℕ)
      → walk_step env asn issuer certs c ≡ (ok (key, n), c')
      → (c' ≡ c)
        × (n ≡ der_seq_len certs)
        × (0 < der_seq_len certs)
        × IssuedBy env asn issuer (take (der_seq_len certs) certs)
        × Subject asn (take (der_seq_len certs) certs) key
  unfolding walk_step
  walk_step-link issuer certs c c' key n e =
      let der = take (der_seq_len certs) certs in
      elim (Outcome-cases (check_issuer env asn issuer der c)) [
        | inr (x, d, run) ↦ absurd (ground arith)
        | inl (_, d, run) ↦ elim (Outcome-cases (cert_key env asn der d)) [
          | inr (x, d2, run2) ↦ absurd (ground arith)
          | inl (k, d2, run2) ↦
              let (same, issued) = check_issuer-IssuedBy env asn issuer der c d run in
              let (same2, subject) = cert_key-Subject env asn der d d2 k run2 in
              let got : k ≡ key = ground arith in
              (
                ground arith,
                ground arith,
                ground arith,
                issued,
                subst (Subject asn der) got subject,
              )
        ]
      ]

  walk_chain-Linked :
      (f : ℕ) (issuer : Option CertKey) (certs : Bytes) (c c' : Ctx) (last : CertKey)
      → walk_chain env asn f issuer certs c ≡ (ok (some (some last)), c')
      → (c' ≡ c) × Linked env asn issuer certs last
  unfolding walk_chain
  walk_chain-Linked f issuer [] c c' last e =
      let got : issuer ≡ some last = ground arith in
      (ground arith, subst (λ i. Linked env asn i [] last) (sym got) (leaf last))
  walk_chain-Linked zero issuer (b ∷ certs) c c' last e = absurd (ground arith)
  walk_chain-Linked (suc f) issuer (b ∷ certs) c c' last e =
      elim (Outcome-cases (walk_step env asn issuer (b ∷ certs) c)) [
        | inr (x, d, run) ↦ absurd (ground arith)
        | inl ((key, n), d, run) ↦
            let (same, len, whole, issued, subject) =
              walk_step-link issuer (b ∷ certs) c d key n run in
            let rest : walk_chain env asn f (some key) (drop n (b ∷ certs)) d
                ≡ (ok (some (some last)), c') =
              ground arith in
            let (kept, linked) =
              walk_chain-Linked f (some key) (drop n (b ∷ certs)) d c' last rest in
            (
              kept ∙ same,
              link issuer (b ∷ certs) key last whole issued subject
                  (subst (λ m. Linked env asn (some key) (drop m (b ∷ certs)) last) len linked),
            )
      ]

  accept_leaf-IsTrusted :
      (key : CertKey) (c c' : Ctx)
      → accept_leaf env asn key c ≡ (ok tt, c')
      → LeafPoint env asn key c'.identity.rsp_pub_key
        × (c'.identity.has_rsp_pub_key ≡ true)
        × IsTrusted c c'
  unfolding accept_leaf
  accept_leaf-IsTrusted key c c' e =
      elim (Bool-cases (c.identity.has_rsp_pub_key && not c.identity.rsp_key_from_cert)) [
        | inl pinned ↦ elim (Outcome-cases (leaf_key env asn key ecc_point_size c)) [
          | inr (x, d, run) ↦ absurd (ground arith)
          | inl (point, d, run) ↦
              let (same, is_point) = leaf_key-LeafPoint key ecc_point_size c d point run in
              let named : same_bytes point c.identity.rsp_pub_key ≡ true = ground arith in
              let kept : c' ≡ c = ground arith in
              (
                subst (LeafPoint env asn key)
                    (same_bytes-eq point _ named ∙ ap (λ d. d.identity.rsp_pub_key) (sym kept))
                    is_point,
                ground arith,
                inl (ground arith, ground arith, ground arith),
              )
        ]
        | inr free ↦ elim (Outcome-cases (leaf_key env asn key rsp_pubkey_size c)) [
          | inr (x, d, run) ↦ absurd (ground arith)
          | inl (point, d, run) ↦
              let (same, is_point) = leaf_key-LeafPoint key rsp_pubkey_size c d point run in
              let got : point ≡ c'.identity.rsp_pub_key = ground arith in
              (subst (LeafPoint env asn key) got is_point, ground arith, inr (ground arith))
        ]
      ]

  accept_leaf-kept :
      (key : CertKey) (c c' : Ctx)
      → accept_leaf env asn key c ≡ (ok tt, c')
      → (c'.attest ≡ c.attest)
        × (c'.cert_chain_hash ≡ c.cert_chain_hash)
        × (c'.spdm_version ≡ c.spdm_version)
  unfolding accept_leaf
  accept_leaf-kept key c c' e =
      elim (Bool-cases (c.identity.has_rsp_pub_key && not c.identity.rsp_key_from_cert)) [
        | inl pinned ↦ elim (Outcome-cases (leaf_key env asn key ecc_point_size c)) [
          | inr (x, d, run) ↦ absurd (ground arith)
          | inl (point, d, run) ↦
              let (same, _) = leaf_key-LeafPoint key ecc_point_size c d point run in
              (ground arith, ground arith, ground arith)
        ]
        | inr free ↦ elim (Outcome-cases (leaf_key env asn key rsp_pubkey_size c)) [
          | inr (x, d, run) ↦ absurd (ground arith)
          | inl (point, d, run) ↦
              let (same, _) = leaf_key-LeafPoint key rsp_pubkey_size c d point run in
              (ground arith, ground arith, ground arith)
        ]
      ]

  forget_cert_key-same :
      (c : Ctx)
      → ((forget_cert_key c).certs ≡ c.certs)
        × (forget_cert_key c).identity.rsp_key_from_cert ≡ false
  unfolding forget_cert_key
  forget_cert_key-same c = ground arith

  RootOf-certs :
      (root : Option CertKey) (b c : Ctx)
      → b.certs ≡ c.certs
      → RootOf env asn b root
      → RootOf env asn c root
  RootOf-certs none b c same named = ground arith
  RootOf-certs (some key) b c same named = record {
    hashed = rw (sym same) named.hashed;
    subject = rw (sym same) named.subject;
  }

  IsTrusted-forget : (c c' : Ctx) → IsTrusted (forget_cert_key c) c' → IsTrusted c c'
  unfolding forget_cert_key
  IsTrusted-forget c c' trusted = ground arith

  validate_cert_chain-leaf :
      (c c' : Ctx)
      → validate_cert_chain env asn c ≡ (ok tt, c')
      → (root : Option CertKey) × (key : CertKey) × RootOf env asn (forget_cert_key c) root
        × Linked env asn root (drop cert_chain_hdr_size (forget_cert_key c).certs.cert_chain) key
        × (accept_leaf env asn key (forget_cert_key c) ≡ (ok tt, c'))
  unfolding validate_cert_chain
  validate_cert_chain-leaf c c' e =
      let b = forget_cert_key c in
      let chain = b.certs.cert_chain in
      let certs = drop cert_chain_hdr_size chain in
      elim (Outcome-cases (root_key env asn b)) [
        | inr (x, d, run) ↦ absurd (ground arith)
        | inl (root, d, run) ↦
            elim (Outcome-cases (walk_chain env asn (length chain) root certs d)) [
              | inr (x, d2, run2) ↦ absurd (ground arith)
              | inl (none, d2, run2) ↦ absurd (ground arith)
              | inl (some none, d2, run2) ↦ absurd (ground arith)
              | inl (some (some key), d2, run2) ↦
                  let (same, named) = root_key-RootOf b d root run in
                  let (same2, linked) = walk_chain-Linked (length chain) root certs d d2 key run2 in
                  let kept : d2 ≡ b = same2 ∙ same in (root, key, named, linked, ground arith)
            ]
      ]

  pub validate_cert_chain-kept :
      (c c' : Ctx)
      → validate_cert_chain env asn c ≡ (ok tt, c')
      → (c'.attest ≡ c.attest)
        × (c'.cert_chain_hash ≡ c.cert_chain_hash)
        × (c'.spdm_version ≡ c.spdm_version)
  unfolding forget_cert_key
  validate_cert_chain-kept c c' e =
      let (root, key, named, linked, last) = validate_cert_chain-leaf c c' e in
      let (attest, hash, version) = accept_leaf-kept key (forget_cert_key c) c' last in
      (ground arith, ground arith, ground arith)

  -- validate_cert_chain succeeds only on a chain of certificates that starts after the chain header
  -- and in which wolfCrypt verified every signature under the key of the certificate before it, a CA,
  -- and the first under the configured root, if there is one, whose SHA-384 the header holds. Then
  -- the responder key is the P-384 point of the leaf, and it was pinned and is unchanged, or a root
  -- is configured, or chains without an anchor are allowed.
  pub validate_cert_chain-IsTrusted :
      (c c' : Ctx)
      → validate_cert_chain env asn c ≡ (ok tt, c')
      → (root : Option CertKey) × (key : CertKey) × RootOf env asn c root
        × Linked env asn root (drop cert_chain_hdr_size c.certs.cert_chain) key
        × LeafPoint env asn key c'.identity.rsp_pub_key
        × (c'.identity.has_rsp_pub_key ≡ true)
        × IsTrusted c c'
  validate_cert_chain-IsTrusted c c' e =
      let (root, key, named, linked, last) = validate_cert_chain-leaf c c' e in
      let (certs_same, dropped) = forget_cert_key-same c in
      let (point, has, trusted) = accept_leaf-IsTrusted key (forget_cert_key c) c' last in
      (
        root,
        key,
        RootOf-certs root (forget_cert_key c) c certs_same named,
        subst (λ s. Linked env asn root (drop cert_chain_hdr_size s.cert_chain) key) certs_same
            linked,
        point,
        has,
        IsTrusted-forget c c' trusted,
      )
