-- ===== src/Tests/Certificates.antt =====
-- The certificate chain and its retrieval on the concrete environment.
use wolf_spdm.Base.{
  ◌≤◌, ◌≡◌, refl, ◌⊎◌, true, Option, some, [], ◌∷◌, ◌++◌, arith, length, drop, replicate, none,
}
use wolf_spdm.Tcg.{parse_vendor_defined, build_vendor_defined, has_nul}
use wolf_spdm.Context.{Bytes, Ctx, Env, ok, err}
use wolf_spdm.Standard.Chain.{
  Asn, Cert, validate_cert_chain, CertKey, root_key, cert_key, walk_chain, walk_step, der_seq_len,
  der_total, der_len, check_issuer, cert_signed_by, ecc_spki_verify, accept_leaf, leaf_key,
}
use wolf_spdm.Standard.Connect.{connect_standard}
use wolf_spdm.Tests.{toy_env, toy_ctx}
use wolf_spdm.Standard.{forget_cert_key}
use wolf_spdm.Standard.Certificate.{cert_loop}
use wolf_spdm.Types.{state_connected, max_cert_chain, Error, cert_chain_hdr_size, state_error}
use wolf_spdm.Bytes.{set16le, same_bytes}
use wolf_spdm.Tcg.RoundTrip.{parse_vendor_defined-build_vendor_defined}
use wolf_spdm.Transcript.{sha384_hash}
use wolf_spdm.Standard.Chain.Validate.{RootOf, LeafPoint, IsTrusted, validate_cert_chain-IsTrusted}
use wolf_spdm.Standard.Chain.Trust.{Linked}
use wolf_spdm.Standard.Certificate.Loop.{cert_loop_ends}
use wolf_spdm.Standard.Connect.Ends.{connect_standard-state}
use wolf_spdm.Standard.Chain.Fuel.{walk_chain_ends}

-- A parser that takes every certificate for that of a CA with an ECC key.
abbrev pub toy_cert : Cert
toy_cert = record {
  key_oid = 1;
  public_key = some (9 ∷ []);
  is_ca = true;
  signature_oid = 2;
  signature = [];
  cert_begin = 0;
  sig_index = 1;
}

abbrev pub toy_asn : Asn
toy_asn = record {
  parse_cert = λ der. some (toy_cert);
  ecdsa_k = 1;
  ctc_sha384w_ecdsa = 2;
  ecc_public_key_decode = λ der. some 0;
  is_p384 = λ key. true;
  verify_hash = λ key sig hash. some true;
}

-- Two certificates under a root of one byte.
abbrev toy_chain : Bytes
toy_chain = 58 ∷ 0 ∷ 0 ∷ 0 ∷ (replicate 48 1 ++ (0x30 ∷ 1 ∷ 0 ∷ 0x30 ∷ 1 ∷ 0 ∷ []))

abbrev toy_certs : Ctx
toy_certs = record (toy_ctx) {
  certs = record (toy_ctx.certs) { cert_chain = toy_chain; trusted_ca = 1 ∷ [] };
}

toy_validated :
    validate_cert_chain toy_env toy_asn toy_certs
    ≡ (ok tt, (validate_cert_chain toy_env toy_asn toy_certs).1)
unfolding validate_cert_chain forget_cert_key root_key sha384_hash same_bytes cert_key walk_chain
    walk_step der_seq_len der_total der_len check_issuer cert_signed_by ecc_spki_verify accept_leaf
    leaf_key
toy_validated = refl

validate_cert_chain-IsTrusted_example :
    let c' = (validate_cert_chain toy_env toy_asn toy_certs).1 in
    (root : Option CertKey) × (key : CertKey) × RootOf toy_env toy_asn toy_certs root
    × Linked toy_env toy_asn root (drop cert_chain_hdr_size toy_certs.certs.cert_chain) key
    × LeafPoint toy_env toy_asn key c'.identity.rsp_pub_key
    × (c'.identity.has_rsp_pub_key ≡ true)
    × IsTrusted toy_certs c'
validate_cert_chain-IsTrusted_example =
    validate_cert_chain-IsTrusted toy_env toy_asn toy_certs
      (validate_cert_chain toy_env toy_asn toy_certs).1 toy_validated

walk_chain_ends_example :
    ((last : Option CertKey) × (d : Ctx) × (walk_chain toy_env toy_asn 6 none
          (drop 52 toy_chain)
          toy_ctx
        ≡ (ok (some last), d)))
    ⊎ ((e : Error) × (d : Ctx) × (walk_chain toy_env toy_asn 6 none (drop 52 toy_chain) toy_ctx
          ≡ (err e, d)))
walk_chain_ends_example =
    walk_chain_ends toy_env toy_asn 6 none (drop 52 toy_chain) toy_ctx (omega arith)

-- A responder that answers GET_CERTIFICATE with one byte, and none left.
abbrev toy_responder : Env
toy_responder = record (toy_env) {
  io = λ history tx room. some (0x12 ∷ 2 ∷ 0 ∷ 0 ∷ 1 ∷ 0 ∷ 0 ∷ 0 ∷ 5 ∷ []);
}

cert_loop_ends_example :
    ((c' : Ctx) × (cert_loop toy_responder 4097 0 1024 0 toy_ctx ≡ (ok true, c'))
      × (length c'.certs.cert_chain ≤ max_cert_chain)
      × (c'.transcript ≡ toy_ctx.transcript))
    ⊎ ((e : Error) × (c' : Ctx) × (cert_loop toy_responder 4097 0 1024 0 toy_ctx ≡ (err e, c'))
        × (length c'.certs.cert_chain ≤ max_cert_chain))
cert_loop_ends_example =
    cert_loop_ends toy_responder 4097 0 1024 0 toy_ctx (omega arith) (omega arith)

connect_standard-state_example :
    let p = connect_standard toy_env toy_asn toy_certs in
    (p.0 ≡ ok tt → p.1.state ≡ state_connected)
    × ((e : Error) → p.0 ≡ err e → p.1.state ≡ state_error)
connect_standard-state_example = connect_standard-state toy_env toy_asn toy_certs

-- GET_PUBK with two bytes of payload.
abbrev toy_vendor : Bytes
toy_vendor = 0x12 ∷ 0xFE ∷ 0 ∷ 0 ∷ 1 ∷ 0 ∷ 0 ∷ 10 ∷ 0 ∷ (replicate 8 65 ++ (1 ∷ 2 ∷ []))

toy_vendor_built : build_vendor_defined 0x12 (replicate 8 65) (1 ∷ 2 ∷ []) 256 ≡ ok toy_vendor
unfolding build_vendor_defined has_nul set16le
toy_vendor_built = refl

parse_vendor_defined-build_vendor_defined_example :
    parse_vendor_defined toy_vendor 2 ≡ ok (replicate 8 65, 1 ∷ 2 ∷ [])
parse_vendor_defined-build_vendor_defined_example =
    parse_vendor_defined-build_vendor_defined 0x12 (replicate 8 65) (1 ∷ 2 ∷ []) toy_vendor 256 2
      refl (omega arith) toy_vendor_built
