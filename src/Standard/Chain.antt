-- ===== src/Standard/Chain.antt =====
-- The certificate chain of src/spdm_standard.c: DER lengths, subject keys, signatures and trust.
pub mod Trust
pub mod Validate
pub mod Fuel
use wolf_spdm.Base.{
  ℕ, Bool, ◌&&◌, zero, suc, ◌+◌, ◌-◌, ◌*◌, ◌%◌, true, not, ◌||◌, Option, none, some, [], ◌∷◌, ◌++◌,
  ltb, leb, ◌==◌, ◌!=◌, if◌then◌else◌, length, get_or, take, drop,
}
use wolf_spdm.Context.{Env, Bytes, M, ◌>>=◌, pure, ◌>>◌, or_fail, fail_if, modify, gets, fail}
use wolf_spdm.Types.{
  cert_parse, cert_fail, ecc_point_size, cert_chain_hdr_size, ecc_key_size, hash_size,
  rsp_pubkey_size,
}
use wolf_spdm.Standard.{forget_cert_key}
use wolf_spdm.Transcript.{sha384_hash}
use wolf_spdm.Bytes.{same_bytes}

-- What the source reads of the DecodedCert that wc_ParseCert fills. `cert_begin` and `sig_index`
-- bound the signed part.
pub record Cert : Type 0 where
  pub key_oid : ℕ
  pub public_key : Option Bytes
  pub is_ca : Bool
  pub signature_oid : ℕ
  pub signature : Bytes
  pub cert_begin : ℕ
  pub sig_index : ℕ

-- wolfCrypt's certificate functions and the two OIDs. `ecc_public_key_decode` is wc_ecc_init with
-- wc_EccPublicKeyDecode; `is_p384` tests the curve of the key; `verify_hash` takes a DER signature.
pub record Asn : Type 0 where
  pub parse_cert : Bytes → Option Cert
  pub ecdsa_k : ℕ
  pub ctc_sha384w_ecdsa : ℕ
  pub ecc_public_key_decode : Bytes → Option ℕ
  pub is_p384 : ℕ → Bool
  pub verify_hash : ℕ → Bytes → Bytes → Option Bool

-- `len` after `n` bytes, most significant first.
unfoldable pub der_len : ℕ → Bytes → ℕ → ℕ
der_len zero bytes len = len
der_len (suc n) bytes len = der_len n (drop 1 bytes) (len * 256 + get_or bytes 0 0)

-- The end of wolfSPDM_DerSeqLen: header and contents, if they fit.
unfoldable pub der_total : Bytes → ℕ → ℕ → ℕ
der_total der hdr len = if ltb (length der - hdr) len then 0 else hdr + len

-- wolfSPDM_DerSeqLen: the whole length of the SEQUENCE in front of `der`, 0 if it is malformed.
unfoldable pub der_seq_len : Bytes → ℕ
der_seq_len der =
    let n = get_or der 1 0 % 0x80 in
    if ltb (length der) 2 || get_or der 0 0 != 0x30
    then 0
    else (if ltb (get_or der 1 0) 0x80
        then der_total der 2 (get_or der 1 0)
        else (if n == 0 || (ltb 3 n || ltb (length der) (2 + n))
            then 0
            else der_total der (2 + n) (der_len n (drop 2 der) 0)))

-- WOLFSPDM_CERT_KEY, with the CA flag of the certificate that it is from.
pub record CertKey : Type 0 where
  pub oid : ℕ
  pub der : Bytes
  pub is_ca : Bool

-- WOLFSPDM_CERT_KEY_SZ.
abbrev pub cert_key_size : ℕ
cert_key_size = 256

module _ (env : Env) (asn : Asn) where
  -- wolfSPDM_CertKey.
  unfoldable pub cert_key : Bytes → M CertKey
  cert_key der = do
    cert ← or_fail (asn.parse_cert der) cert_parse
    fail_if (cert.key_oid != asn.ecdsa_k) cert_parse
    public_key ← or_fail cert.public_key cert_parse
    fail_if (ltb cert_key_size (length public_key)) cert_parse
    pure (record { oid = cert.key_oid; der = public_key; is_ca = cert.is_ca })

  -- wolfSPDM_EccSpkiVerify.
  unfoldable pub ecc_spki_verify : Bytes → Bytes → Bytes → M (Unit {0})
  ecc_spki_verify spki sig hash = do
    key ← or_fail (asn.ecc_public_key_decode spki) cert_fail
    verified ← or_fail (asn.verify_hash key sig hash) cert_fail
    fail_if (not verified) cert_fail

  -- wolfSPDM_CertSignedBy, with ECDSA-SHA384.
  unfoldable pub cert_signed_by : Bytes → CertKey → M (Unit {0})
  cert_signed_by der issuer = do
    cert ← or_fail (asn.parse_cert der) cert_fail
    fail_if (leb cert.sig_index cert.cert_begin) cert_fail
    fail_if (issuer.oid != asn.ecdsa_k) cert_fail
    fail_if (cert.signature_oid != asn.ctc_sha384w_ecdsa) cert_fail
    hash ←
        or_fail (env.sha384 (take (cert.sig_index - cert.cert_begin) (drop cert.cert_begin der)))
          cert_fail
    ecc_spki_verify issuer.der cert.signature hash

  -- wolfSPDM_LeafKey: Algorithm Set B wants a P-384 key.
  unfoldable pub leaf_key : CertKey → ℕ → M Bytes
  leaf_key key size = do
    fail_if (key.oid != asn.ecdsa_k || ltb size ecc_point_size) cert_parse
    ecc_key ← or_fail (asn.ecc_public_key_decode key.der) cert_parse
    fail_if (not (asn.is_p384 ecc_key)) cert_parse
    point ← or_fail (env.ecc_export_public_raw ecc_key) cert_parse
    fail_if (length point.0 != ecc_key_size || length point.1 != ecc_key_size) cert_parse
    pure (point.0 ++ point.1)

  -- The trusted root of wolfSPDM_ValidateCertChain, if one is set; the chain header must name it.
  unfoldable pub root_key : M (Option CertKey)
  root_key = do
    certs ← gets λ c. c.certs
    (if length certs.trusted_ca == 0 then pure none else (do
      hash ← sha384_hash env certs.trusted_ca [] []
      fail_if (not (same_bytes hash (take hash_size (drop 4 certs.cert_chain)))) cert_fail
      key ← cert_key certs.trusted_ca
      pure (some key)))

  -- The issuer check of one certificate: none before the first without a root.
  unfoldable pub check_issuer : Option CertKey → Bytes → M (Unit {0})
  check_issuer none der = pure tt
  check_issuer (some issuer) der = do
    fail_if (not issuer.is_ca) cert_fail
    cert_signed_by der issuer

  -- One certificate of the chain: its subject key, and its length.
  unfoldable pub walk_step : Option CertKey → Bytes → M (CertKey × ℕ)
  walk_step issuer certs = do
    fail_if (der_seq_len certs == 0) cert_parse
    check_issuer issuer (take (der_seq_len certs) certs)
    key ← cert_key (take (der_seq_len certs) certs)
    pure (key, der_seq_len certs)

  -- The walk of wolfSPDM_ValidateCertChain over what is left of the chain; `none` is out of fuel.
  unfoldable pub walk_chain : ℕ → Option CertKey → Bytes → M (Option (Option CertKey))
  walk_chain f last [] = pure (some last)
  walk_chain zero last (b ∷ certs) = pure none
  walk_chain (suc f) last (b ∷ certs) = do
    got ← walk_step last (b ∷ certs)
    walk_chain f (some got.0) (drop got.1 (b ∷ certs))

  -- What wolfSPDM_ValidateCertChain makes of the leaf: it must match a pinned key, or becomes the
  -- responder key if the chain is anchored or untrusted chains are allowed.
  unfoldable pub accept_leaf : CertKey → M (Unit {0})
  accept_leaf key = do
    c ← gets λ c. c
    (if c.identity.has_rsp_pub_key && not c.identity.rsp_key_from_cert
        then (do
          leaf ← leaf_key key ecc_point_size
          fail_if
              (length c.identity.rsp_pub_key != length leaf
                || not (same_bytes leaf c.identity.rsp_pub_key))
              cert_fail)
        else (if length c.certs.trusted_ca == 0 && not c.certs.allow_untrusted
            then fail cert_fail
            else (do
              leaf ← leaf_key key rsp_pubkey_size
              modify λ c. record c {
                identity = record (c.identity) {
                  rsp_pub_key = leaf;
                  has_rsp_pub_key = true;
                  rsp_key_from_cert = true;
                };
              })))

  -- wolfSPDM_ValidateCertChain, with fuel for one certificate in each byte.
  unfoldable pub validate_cert_chain : M (Unit {0})
  validate_cert_chain = do
    modify forget_cert_key
    chain ← gets λ c. c.certs.cert_chain
    fail_if (leb (length chain) cert_chain_hdr_size) cert_fail
    root ← root_key
    walked ← walk_chain (length chain) root (drop cert_chain_hdr_size chain)
    last ← or_fail walked cert_parse
    key ← or_fail last cert_parse
    accept_leaf key
