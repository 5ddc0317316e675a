-- ===== src/Tests/Agreements.antt =====
-- The requester and the responder on concrete contexts.
use wolf_spdm.Types.Code
use wolf_spdm.Base.{
  ℕ, ◌%◌, ◌≤◌, ◌≡◌, refl, true, false, some, [], ◌∷◌, ◌++◌, arith, ltb, if◌then◌else◌, length, drop,
  replicate, length-replicate,
}
use wolf_spdm.Bytes.{get16le, set32le, set16le, set64le}
use wolf_spdm.Responder.Handshake.{build_psk_exchange_rsp}
use wolf_spdm.Responder.Clear.{
  resp_decrypt, resp_encrypt, build_version, build_algorithms, build_capabilities, swap_data_dir,
  version_entries, resp_max_version, select_version,
}
use wolf_spdm.Secured.{
  decrypt_internal, encrypt_internal, encrypt_record, encrypt_tcg, tcg_pad_len, seal_record,
  tcg_record_header,
}
use wolf_spdm.Psk.{
  build_psk_finish, parse_psk_exchange_rsp, parse_psk_finish_rsp, derive_handshake_keys_psk,
  wipe_psk,
}
use wolf_spdm.Responder.Records.{SameSession, request_round_trip, response_round_trip}
use wolf_spdm.Secured.RoundTrip.{InRange}
use wolf_spdm.Responder.Agree.PskSession.{Together, Agreed, psk_exchange_agreement}
use wolf_spdm.Message.Version.{max_ver, parse_version}
use wolf_spdm.Responder.{Resp}
use wolf_spdm.Context.{Ctx, Bytes, ok}
use wolf_spdm.Kdf.{
  derive_from_handshake_secret, derive_handshake_chain, derive_key_iv_pair, hkdf_expand_label,
  bin_concat, bin_concat_prefix, compute_verify_data,
}
use wolf_spdm.Tcg.Handshake.{tcg_check_capabilities, tcg_caps_flags_default, tcg_check_algorithms}
use wolf_spdm.Types.{
  min_spdm_version, nations_psk, state_version, hash_size, state_connected, state_finish,
}
use wolf_spdm.Tests.Responders.{toy_resp, toy_key_ex}
use wolf_spdm.Transcript.{transcript_add, overflows, transcript_hash, sha384_hash}
use wolf_spdm.Tests.{toy_ctx, toy_env, toy_AeadOpens}
use wolf_spdm.Responder.Exchange.{
  finish_answer, reload_psk, take_session_id, psk_request_fits, psk_exchange_rsp_head,
  psk_exchange_proof, psk_exchange_keys, psk_exchange_verify,
}
use wolf_spdm.Responder.Answer.{version_rsp}
use wolf_spdm.Kdf.Schedule.{Schedule}
use wolf_spdm.Crypto.{get_random}
use wolf_spdm.Responder.Agree.Negotiation.{version_agreement, vca_agreement, offered_flags}
use wolf_spdm.Tests.Records.{toy_exact}
use wolf_spdm.Responder.Agree.PskFinish.{psk_finish_agreement}

toy_hmac48 : (k m out : Bytes) → toy_env.hmac k m ≡ some out → length out ≡ hash_size
toy_hmac48 k m out e = ground (arith, length-replicate {A = ℕ} 48 (length m % 256))

-- VERSION, CAPABILITIES and ALGORITHMS.
toy_version : build_version 64 toy_ctx ≡ (ok version_rsp, (build_version 64 toy_ctx).1)
unfolding build_version version_entries
toy_version = refl

toy_top : min_spdm_version ≤ max_ver toy_ctx
unfolding max_ver
toy_top = omega arith

version_agreement_example :
    let v =
      (if ltb (max_ver toy_ctx) resp_max_version then max_ver toy_ctx else resp_max_version) in
    (parse_version version_rsp toy_ctx
      ≡ (ok tt, record toy_ctx { spdm_version = v; state = state_version }))
    × (select_version v false (build_version 64 toy_ctx).1
        ≡ (ok tt, record ((build_version 64 toy_ctx).1) { spdm_version = v }))
version_agreement_example =
    version_agreement 64 toy_ctx (build_version 64 toy_ctx).1 toy_ctx version_rsp false toy_top
      toy_version

abbrev toy_caps : Bytes
toy_caps =
    0x12 ∷ 0x61 ∷ 0 ∷ 0 ∷ 0 ∷ 0x1F ∷ 0 ∷ 0 ∷ 0xC0 ∷ 0x97 ∷ 1 ∷ 0 ∷ 0xC0 ∷ 7 ∷ 0 ∷ 0 ∷ 0xC0 ∷ 7 ∷ 0
    ∷ 0 ∷ []

abbrev toy_algs : Bytes
toy_algs =
    0x12
    ∷ 0x63
    ∷ 4
    ∷ 0
    ∷ 0x34
    ∷ 0
    ∷ 0
    ∷ 2
    ∷ (replicate 4 0
        ++ (0x80
            ∷ 0
            ∷ 0
            ∷ 0
            ∷ 2
            ∷ 0
            ∷ 0
            ∷ 0
            ∷ (replicate 16 0
                ++ (2 ∷ 0x20 ∷ 0x10 ∷ 0 ∷ 3 ∷ 0x20 ∷ 2 ∷ 0 ∷ 4 ∷ 0x20 ∷ 0x80 ∷ 0 ∷ 5 ∷ 0x20 ∷ 1 ∷ 0
                    ∷ []))))

toy_caps_built : (build_capabilities true 64 toy_ctx).0 ≡ ok toy_caps
unfolding build_capabilities set32le
toy_caps_built = refl

toy_algs_built : (build_algorithms 64 toy_ctx).0 ≡ ok toy_algs
unfolding build_algorithms
toy_algs_built = refl

vca_agreement_example :
    (tcg_check_capabilities toy_caps tcg_caps_flags_default toy_ctx ≡ (ok tt, toy_ctx))
    × (tcg_check_capabilities toy_caps (offered_flags true) toy_ctx ≡ (ok tt, toy_ctx))
    × (tcg_check_algorithms toy_algs toy_ctx ≡ (ok tt, toy_ctx))
vca_agreement_example =
    vca_agreement true 64 toy_ctx toy_ctx toy_caps toy_algs refl toy_caps_built toy_algs_built

-- Records of a session over the TCG binding.
abbrev toy_end : Ctx
toy_end = record toy_ctx { mode = nations_psk }

toy_same : SameSession toy_end toy_end
toy_same = record {
  mode = refl;
  session = refl;
  req_seq = refl;
  rsp_seq = refl;
  req_key = refl;
  rsp_key = refl;
  req_iv = refl;
  rsp_iv = refl;
}

toy-InRange : InRange toy_end
toy-InRange = record { session = omega arith; seq = omega arith }

toy_swapped : InRange (swap_data_dir toy_end)
unfolding swap_data_dir
toy_swapped = record { session = omega arith; seq = omega arith }

abbrev toy_plain : Bytes
toy_plain = 0x12 ∷ 0xE7 ∷ 0 ∷ 0 ∷ []

abbrev toy_record : Bytes
toy_record =
    1
    ∷ 0
    ∷ 2
    ∷ 0
    ∷ (replicate 8 0 ++ (32 ∷ 0 ∷ 4 ∷ 0 ∷ (toy_plain ++ (replicate 10 7 ++ replicate 16 9))))

toy_request :
    encrypt_internal toy_env toy_plain 256 toy_end
    ≡ (ok toy_record, (encrypt_internal toy_env toy_plain 256 toy_end).1)
unfolding encrypt_internal encrypt_record encrypt_tcg tcg_pad_len get_random seal_record
    tcg_record_header set16le set32le set64le
toy_request = refl

toy_response :
    resp_encrypt toy_env toy_plain 256 toy_end
    ≡ (ok toy_record, (resp_encrypt toy_env toy_plain 256 toy_end).1)
unfolding resp_encrypt swap_data_dir encrypt_internal encrypt_record encrypt_tcg tcg_pad_len
    get_random seal_record tcg_record_header set16le set32le set64le
toy_response = refl

request_round_trip_example :
    ((resp_decrypt toy_env toy_record 64 toy_end).0 ≡ ok toy_plain)
    × SameSession
        (encrypt_internal toy_env toy_plain 256 toy_end).1
        (resp_decrypt toy_env toy_record 64 toy_end).1
request_round_trip_example =
    request_round_trip toy_env toy_AeadOpens toy_exact toy_plain 256 64 toy_end
      (encrypt_internal toy_env toy_plain 256 toy_end).1 toy_end toy_record toy_same toy-InRange
      (omega arith) toy_request

response_round_trip_example :
    ((decrypt_internal toy_env toy_record 64 toy_end).0 ≡ ok toy_plain)
    × SameSession
        (decrypt_internal toy_env toy_record 64 toy_end).1
        (resp_encrypt toy_env toy_plain 256 toy_end).1
response_round_trip_example =
    response_round_trip toy_env toy_AeadOpens toy_exact toy_plain 256 64 toy_end toy_end
      (resp_encrypt toy_env toy_plain 256 toy_end).1 toy_record toy_same toy_swapped (omega arith)
      toy_response

-- The exchange of a PSK session.
abbrev toy_requester : Ctx
toy_requester = record toy_ctx {
  state = state_version;
  mode = nations_psk;
  psk = record { psk = replicate 64 1; hint = [] };
}

abbrev toy_responder : Resp
toy_responder = record toy_resp {
  ctx = record toy_ctx { state = state_version; mode = nations_psk };
}

abbrev toy_psk_request : Bytes
toy_psk_request = 0x12 ∷ 0xE6 ∷ 0 ∷ 0 ∷ 1 ∷ 0 ∷ 0 ∷ 0 ∷ 32 ∷ 0 ∷ 0 ∷ 0 ∷ replicate 32 7

abbrev toy_psk_answer : Bytes
toy_psk_answer =
    0x12 ∷ 0x66 ∷ 0 ∷ 0 ∷ 0xFE ∷ 0xFF ∷ 0 ∷ 0 ∷ 32 ∷ 0 ∷ 0 ∷ 0 ∷ (replicate 32 7 ++ replicate 48 48)

toy-Together : Together toy_requester toy_responder
toy-Together = record {
  transcript = refl;
  version = refl;
  psk = refl;
  mode = refl;
  req_seq = refl;
  rsp_seq = refl;
}

toy_id : get16le (drop 4 toy_psk_request) ≡ toy_requester.req_session_id
unfolding get16le
toy_id = refl

toy_answered :
    build_psk_exchange_rsp toy_env toy_psk_request 256 toy_responder
    ≡ (ok toy_psk_answer, (build_psk_exchange_rsp toy_env toy_psk_request 256 toy_responder).1)
unfolding build_psk_exchange_rsp reload_psk take_session_id psk_request_fits psk_exchange_rsp_head
    psk_exchange_proof psk_exchange_keys psk_exchange_verify transcript_add overflows
    transcript_hash sha384_hash derive_handshake_keys_psk derive_from_handshake_secret
    derive_handshake_chain derive_key_iv_pair hkdf_expand_label bin_concat bin_concat_prefix
    compute_verify_data wipe_psk get_random set16le get16le
toy_answered = refl

psk_exchange_agreement_example :
    (c' : Ctx) × (parse_psk_exchange_rsp toy_env toy_psk_answer toy_requester ≡ (ok tt, c'))
    × Agreed c' (build_psk_exchange_rsp toy_env toy_psk_request 256 toy_responder).1.ctx
psk_exchange_agreement_example =
    psk_exchange_agreement toy_env toy_psk_request 256 toy_requester toy_responder
      (build_psk_exchange_rsp toy_env toy_psk_request 256 toy_responder).1 toy_psk_answer toy_exact
      toy_hmac48 toy-Together toy_id toy_answered

-- Its finish.
abbrev toy_psk_finish : Bytes
toy_psk_finish = 0x12 ∷ 0xE7 ∷ 0 ∷ 0 ∷ replicate 48 48

toy_finish_built :
    build_psk_finish toy_env 64 toy_end
    ≡ (ok toy_psk_finish, (build_psk_finish toy_env 64 toy_end).1)
unfolding build_psk_finish transcript_add overflows transcript_hash sha384_hash compute_verify_data
toy_finish_built = refl

psk_finish_agreement_example :
    (answer : Bytes) × (d' : Ctx) × (finish_answer toy_env Code.psk_finish_rsp toy_psk_finish 256
        toy_key_ex.ctx
      ≡ (ok answer, d'))
    × (d'.state ≡ state_connected)
    × (parse_psk_finish_rsp answer (build_psk_finish toy_env 64 toy_end).1 ≡ (
      ok tt,
      record ((build_psk_finish toy_env 64 toy_end).1) {
        transcript = d'.transcript;
        state = state_finish;
      },
    ))
psk_finish_agreement_example =
    psk_finish_agreement toy_env 64 256 toy_end (build_psk_finish toy_env 64 toy_end).1
      toy_key_ex.ctx toy_psk_finish toy_hmac48 refl refl refl (omega arith) (omega arith)
      toy_finish_built
