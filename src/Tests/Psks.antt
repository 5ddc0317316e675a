-- ===== src/Tests/Psks.antt =====
-- Pre-shared key sessions on the concrete environment.
use wolf_spdm.Base.{
  List, ◌+◌, ◌≤◌, ◌≡◌, refl, some, [], ◌∷◌, ◌++◌, length, take, drop, replicate, ◌≢◌, arith,
}
use wolf_spdm.Context.{Ctx, Bytes, Env, err, ok}
use wolf_spdm.Psk.{
  parse_psk_exchange_rsp, connect_psk, verify_offset, check_psk_responder,
  derive_handshake_keys_psk, psk_exchange, build_psk_exchange, wipe_psk, psk_finish,
  build_psk_finish, parse_psk_finish_rsp,
}
use wolf_spdm.Tests.{toy_env, toy_ctx}
use wolf_spdm.Types.{state_connected, state_key_ex, bad_state, hash_size}
use wolf_spdm.Transcript.{transcript_reset, transcript_add, overflows, transcript_hash, sha384_hash}
use wolf_spdm.Message.{check_parse_or_error_args, check_response, build_get_version}
use wolf_spdm.Session.{get_version}
use wolf_spdm.Exchange.{exchange_msg, clear_exchange}
use wolf_spdm.Psk.Once.{connect_psk_once}
use wolf_spdm.Bytes.{get16le, same_bytes, set32le, set16le, build_iv, get32le}
use wolf_spdm.Psk.Authentic.{parse_psk_exchange_rsp_authentic}
use wolf_spdm.Chunk.{chunk_on}
use wolf_spdm.Transport.{send_receive, call_io}
use wolf_spdm.Kdf.{
  derive_from_handshake_secret, derive_handshake_chain, derive_key_iv_pair, hkdf_expand_label,
  bin_concat, bin_concat_prefix, compute_verify_data, derive_app_data_keys,
}
use wolf_spdm.Message.Version.{parse_version, entry_count, max_ver, highest_version, improves}
use wolf_spdm.Crypto.{get_random}
use wolf_spdm.Secured.{
  encrypt_internal, encrypt_record, encrypt_mctp, seal_record, mctp_record_header, mctp_plaintext,
  decrypt_internal, decrypt_record, decrypt_mctp, open_record, mctp_payload,
}

abbrev pub toy_shared : Ctx
toy_shared = record (toy_ctx) { psk = record { psk = 1 ∷ []; hint = [] } }

-- PSK_EXCHANGE_RSP without context and opaque data.
abbrev toy_psk_rsp : Bytes
toy_psk_rsp = 0x12 ∷ 0x66 ∷ 0 ∷ 0 ∷ 2 ∷ 0 ∷ 0 ∷ 0 ∷ 0 ∷ 0 ∷ 0 ∷ 0 ∷ replicate 48 48

toy_psk_parsed : (parse_psk_exchange_rsp toy_env toy_psk_rsp toy_shared).1.state ≡ state_key_ex
unfolding parse_psk_exchange_rsp check_parse_or_error_args check_response verify_offset get16le
    check_psk_responder transcript_add overflows transcript_hash sha384_hash
    derive_handshake_keys_psk derive_from_handshake_secret derive_handshake_chain derive_key_iv_pair
    hkdf_expand_label bin_concat bin_concat_prefix compute_verify_data same_bytes wipe_psk
toy_psk_parsed = refl

toy_uncommitted : toy_shared.state ≢ state_key_ex
toy_uncommitted = omega arith

parse_psk_exchange_rsp_authentic_example :
    let c' = (parse_psk_exchange_rsp toy_env toy_psk_rsp toy_shared).1 in
    ((parse_psk_exchange_rsp toy_env toy_psk_rsp toy_shared).0 ≡ ok tt)
    × (verify_offset toy_psk_rsp + hash_size ≤ length toy_psk_rsp)
    × (c'.psk.psk ≡ [])
    × (toy_env.sha384 (toy_shared.transcript ++ take (verify_offset toy_psk_rsp) toy_psk_rsp)
        ≡ some c'.th1)
    × (toy_env.hmac c'.keys.rsp_finished_key c'.th1
        ≡ some (take hash_size (drop (verify_offset toy_psk_rsp) toy_psk_rsp)))
parse_psk_exchange_rsp_authentic_example =
    parse_psk_exchange_rsp_authentic toy_env toy_psk_rsp toy_shared toy_uncommitted toy_psk_parsed

-- A responder: VERSION, PSK_EXCHANGE_RSP, and PSK_FINISH_RSP in a record.
abbrev toy_answer : List Bytes → Bytes
toy_answer [] = 0x10 ∷ 0x04 ∷ 0 ∷ 0 ∷ 0 ∷ 1 ∷ 0 ∷ 0x12 ∷ []
toy_answer (tx ∷ []) = toy_psk_rsp
toy_answer (tx ∷ (ty ∷ history)) =
    1 ∷ 0 ∷ 2 ∷ 0 ∷ 0 ∷ 0 ∷ 23 ∷ 0 ∷ 5 ∷ 0 ∷ 5 ∷ 0x12 ∷ 0x67 ∷ 0 ∷ 0 ∷ replicate 16 9

abbrev toy_peer : Env
toy_peer = record (toy_env) { io = λ history tx room. some (toy_answer history) }

toy_connected : connect_psk toy_peer toy_shared ≡ (ok tt, (connect_psk toy_peer toy_shared).1)
unfolding connect_psk transcript_reset get_version exchange_msg build_get_version transcript_add
    overflows clear_exchange chunk_on send_receive call_io parse_version check_parse_or_error_args
    check_response entry_count max_ver highest_version improves psk_exchange build_psk_exchange
    get_random parse_psk_exchange_rsp verify_offset get16le check_psk_responder transcript_hash
    sha384_hash derive_handshake_keys_psk derive_from_handshake_secret derive_handshake_chain
    derive_key_iv_pair hkdf_expand_label bin_concat bin_concat_prefix compute_verify_data same_bytes
    wipe_psk psk_finish build_psk_finish encrypt_internal encrypt_record encrypt_mctp seal_record
    mctp_record_header mctp_plaintext set32le set16le build_iv decrypt_internal decrypt_record
    decrypt_mctp open_record mctp_payload get32le parse_psk_finish_rsp derive_app_data_keys
toy_connected = refl

connect_psk_once_example :
    let c' = (connect_psk toy_peer toy_shared).1 in
    (c'.state ≡ state_connected)
    × (c'.psk.psk ≡ [])
    × (connect_psk toy_peer c' ≡ (err bad_state, c'))
connect_psk_once_example =
    connect_psk_once toy_peer toy_shared (connect_psk toy_peer toy_shared).1 toy_connected
