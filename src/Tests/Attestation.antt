-- ===== src/Tests/Attestation.antt =====
-- Measurements and challenges on the concrete environment.
use wolf_spdm.Types.Code
use wolf_spdm.Base.{
  ◌≤◌, ◌≡◌, refl, true, false, some, [], ◌∷◌, ◌++◌, length, take, drop, replicate, ◌+◌,
}
use wolf_spdm.Attest.Measurements.{
  get_measurements, meas_caps, start_measurements, build_get_measurements, parse_measurements,
  record_len, signed_req, skip_blocks, close_measurements, store_measurements,
}
use wolf_spdm.Context.{Env, Ctx, Bytes, ok}
use wolf_spdm.Bytes.{get16le, set32le, set16le, build_iv, same_bytes, get32le}
use wolf_spdm.Running.{run_verify, run_add, run_update, run_start, m1_start}
use wolf_spdm.Attest.Challenge.{
  challenge_slot, no_challenge, build_challenge, parse_challenge_auth, chal_tail_offset,
}
use wolf_spdm.Tests.{toy_ctx, toy_env}
use wolf_spdm.Attest.Measurements.Blocks.{Tiles}
use wolf_spdm.Types.{hash_size, max_meas_record, state_cert, run_live, ecc_sig_size}
use wolf_spdm.Running.Verify.{RspSigned}
use wolf_spdm.Standard.Chain.{
  validate_cert_chain, root_key, cert_key, walk_chain, walk_step, der_seq_len, der_total, der_len,
  check_issuer, accept_leaf, leaf_key,
}
use wolf_spdm.Message.Signing.{
  verify_rsp_sig, build_signed_hash, build_signed_msg, signing_prefixes, signing_prefix,
}
use wolf_spdm.Attest.Measurements.Stored.{get_measurements_stored}
use wolf_spdm.Tests.Certificates.{toy_asn}
use wolf_spdm.Standard.{forget_cert_key}
use wolf_spdm.Kdf.{codes}
use wolf_spdm.Attest.Challenge.Authentic.{challenge_slot_authentic, Challenged}
use wolf_spdm.Attest.{req_context_size, parse_tail, nonce_size}
use wolf_spdm.Exchange.{secured_exchange, no_session, clear_exchange}
use wolf_spdm.Transcript.{sha384_hash}
use wolf_spdm.Crypto.{verify_signature, extract_ecc_point, get_random}
use wolf_spdm.Chunk.{chunk_on}
use wolf_spdm.Secured.{
  secured_xfer, encrypt_internal, encrypt_record, encrypt_mctp, seal_record, mctp_record_header,
  mctp_plaintext, decrypt_internal, decrypt_record, decrypt_mctp, open_record, mctp_payload,
}
use wolf_spdm.Transport.{send_receive, call_io}
use wolf_spdm.Message.{check_response, check_parse_or_error_args}

-- One block with one byte.
abbrev toy_meas : Ctx
toy_meas = record (toy_ctx) {
  attest = record (toy_ctx.attest) { meas_record = 1 ∷ 2 ∷ 1 ∷ 0 ∷ 7 ∷ []; meas_block_count = 1 };
}

-- A responder that answers every request with that record, unsigned, and the requester.
abbrev toy_measured : Env
toy_measured = record (toy_env) {
  io = λ history tx room. some (
      1
      ∷ 0
      ∷ 2
      ∷ 0
      ∷ 0
      ∷ 0
      ∷ 66
      ∷ 0
      ∷ 48
      ∷ 0
      ∷ 5
      ∷ 0x12
      ∷ 0x60
      ∷ 0
      ∷ 0
      ∷ 1
      ∷ 5
      ∷ 0
      ∷ 0
      ∷ 1
      ∷ 2
      ∷ 1
      ∷ 0
      ∷ 7
      ∷ (replicate 32 0 ++ (0 ∷ 0 ∷ replicate 16 9)));
}

abbrev toy_capable : Ctx
toy_capable = record (toy_ctx) { limits = record (toy_ctx.limits) { rsp_caps = 8 } }

toy_stored :
    get_measurements toy_measured 0xFF false toy_capable
    ≡ (ok tt, (get_measurements toy_measured 0xFF false toy_capable).1)
unfolding get_measurements meas_caps start_measurements run_start run_update build_get_measurements
    req_context_size secured_exchange no_session chunk_on secured_xfer encrypt_internal
    encrypt_record encrypt_mctp seal_record mctp_record_header mctp_plaintext set32le set16le
    build_iv send_receive call_io decrypt_internal decrypt_record decrypt_mctp open_record
    mctp_payload get32le get16le parse_measurements check_parse_or_error_args check_response
    record_len signed_req skip_blocks parse_tail same_bytes close_measurements run_add
    store_measurements
toy_stored = refl

get_measurements_stored_example :
    let c' = (get_measurements toy_measured 0xFF false toy_capable).1 in
    Tiles c'.attest.meas_block_count c'.attest.meas_record 0
    × (length c'.attest.meas_record ≤ max_meas_record)
get_measurements_stored_example =
    get_measurements_stored toy_measured 0xFF false toy_capable
      (get_measurements toy_measured 0xFF false toy_capable).1 toy_stored

-- A requester with a chain of one certificate, without an anchor, and M1 running.
abbrev toy_fetched : Ctx
toy_fetched = record (toy_ctx) {
  state = state_cert;
  cert_chain_hash = replicate 48 9;
  limits = record (toy_ctx.limits) { rsp_caps = 4 };
  certs = record (toy_ctx.certs) {
    cert_chain = 55 ∷ 0 ∷ 0 ∷ 0 ∷ (replicate 48 1 ++ (0x30 ∷ 1 ∷ 0 ∷ []));
    allow_untrusted = true;
  };
  attest = record (toy_ctx.attest) { m1_state = run_live };
}

abbrev toy_challenged : Env
toy_challenged = record (toy_env) {
  io = λ history tx room.
      some (0x12 ∷ 3 ∷ 0 ∷ 0 ∷ (replicate 48 9 ++ (replicate 32 0 ++ (0 ∷ 0 ∷ replicate 96 1))));
}

toy_passed :
    challenge_slot toy_challenged toy_asn 0 0 toy_fetched
    ≡ (ok tt, (challenge_slot toy_challenged toy_asn 0 0 toy_fetched).1)
unfolding challenge_slot no_challenge validate_cert_chain forget_cert_key root_key cert_key
    walk_chain walk_step der_seq_len der_total der_len check_issuer accept_leaf leaf_key
    build_challenge req_context_size get_random clear_exchange chunk_on send_receive call_io
    parse_challenge_auth check_response chal_tail_offset same_bytes parse_tail get16le run_verify
    run_add run_update verify_rsp_sig build_signed_hash build_signed_msg sha384_hash
    verify_signature extract_ecc_point m1_start run_start signing_prefixes signing_prefix
toy_passed = refl

challenge_slot_authentic_example :
    (s : Challenged toy_challenged toy_asn 0 0 toy_fetched) × (digest : Bytes) × (random : Bytes)
    × (s.req ≡ s.c1.spdm_version ∷ Code.challenge ∷ 0 ∷ 0 ∷ random)
    × (toy_challenged.random s.c1.draws (nonce_size + req_context_size s.c1.spdm_version)
        ≡ some random)
    × (take hash_size (drop 4 s.rsp) ≡ toy_fetched.cert_chain_hash)
    × (toy_challenged.sha384 ((toy_fetched.attest.m1_hash ++ s.req) ++ take s.off s.rsp)
        ≡ some digest)
    × RspSigned toy_challenged
        (challenge_slot toy_challenged toy_asn 0 0 toy_fetched).1
        (codes "responder-challenge_auth signing")
        digest
        (take ecc_sig_size (drop s.off s.rsp))
challenge_slot_authentic_example =
    challenge_slot_authentic toy_challenged toy_asn 0 0 toy_fetched
      (challenge_slot toy_challenged toy_asn 0 0 toy_fetched).1 toy_passed
