-- ===== src/Tests/Conversation.antt =====
-- A PSK session between the requester and the responder on the concrete environment.
use wolf_spdm.Base.{◌≡◌, refl, Option, none, some, List, [], ◌∷◌, replicate}
use wolf_spdm.Context.{Bytes, Ctx, Env, Result, ok, err}
use wolf_spdm.Psk.{
  connect_psk, psk_exchange, build_psk_exchange, parse_psk_exchange_rsp, verify_offset,
  check_psk_responder, derive_handshake_keys_psk, wipe_psk, psk_finish, build_psk_finish,
  parse_psk_finish_rsp,
}
use wolf_spdm.Tests.Psks.{toy_shared}
use wolf_spdm.Responder.{Resp, resp_reset}
use wolf_spdm.Transcript.{transcript_reset, transcript_add, overflows, transcript_hash, sha384_hash}
use wolf_spdm.Tests.{toy_env}
use wolf_spdm.Tests.Responders.{toy_resp, toy_tpm}
use wolf_spdm.Session.{get_version}
use wolf_spdm.Responder.Dispatch.{
  handle_message, check_frame, take_frame, frame_payload, dispatch_clear, dispatch_secured,
  clear_version, clear_selected, clear_answer, mode_off, handshake_live, no_keys, guarded_finish,
  secured_answer, secured_close,
}
use wolf_spdm.Types.{nations_psk, state_connected}
use wolf_spdm.Exchange.{exchange_msg, clear_exchange}
use wolf_spdm.Transport.{
  tcg_buf_size, send_receive, call_io, tcg_send_receive, tcg_frame, is_clear,
  build_tcg_clear_message, tcg_unframe, write_tcg_header,
}
use wolf_spdm.Message.{build_get_version, check_parse_or_error_args, check_response}
use wolf_spdm.Chunk.{chunk_on}
use wolf_spdm.Message.Version.{parse_version, entry_count, max_ver, highest_version, improves}
use wolf_spdm.Crypto.{get_random, free_ephemeral_key}
use wolf_spdm.Bytes.{
  get16le, same_bytes, set32le, set16le, build_iv, get32le, set16be, set32be, get16be, get32be,
  set64le, get64le,
}
use wolf_spdm.Kdf.{
  derive_from_handshake_secret, derive_handshake_chain, derive_key_iv_pair, hkdf_expand_label,
  bin_concat, bin_concat_prefix, compute_verify_data, derive_app_data_keys,
}
use wolf_spdm.Secured.{
  encrypt_internal, encrypt_record, encrypt_mctp, seal_record, mctp_record_header, mctp_plaintext,
  decrypt_internal, decrypt_record, decrypt_mctp, open_record, mctp_payload, encrypt_tcg,
  decrypt_tcg, tcg_record_header, tcg_pad_len, tcg_payload,
}
use wolf_spdm.Responder.Clear.{
  select_version, build_version, version_entries, resp_encrypt, resp_decrypt, swap_data_dir,
}
use wolf_spdm.Responder.Handshake.{build_psk_exchange_rsp, handle_psk_finish}
use wolf_spdm.Responder.Exchange.{
  finish_answer, psk_request_fits, reload_psk, take_session_id, psk_exchange_rsp_head,
  psk_exchange_keys, psk_exchange_verify, psk_exchange_proof,
}

-- The responder after the frames of `history`, the last one first.
abbrev peer_after : List Bytes → Resp
peer_after [] = toy_resp
peer_after (tx ∷ history) = (handle_message toy_env toy_tpm tx tcg_buf_size (peer_after history)).1

abbrev reply : Result Bytes → Option Bytes
reply (ok out) = some out
reply (err e) = none

-- A transport that hands each frame to the responder.
abbrev toy_link : Env
toy_link = record (toy_env) {
  io = λ history tx room.
      reply (handle_message toy_env toy_tpm tx tcg_buf_size (peer_after history)).0;
}

abbrev toy_requester : Ctx
toy_requester = record (toy_shared) {
  mode = nations_psk;
  psk = record { psk = replicate 64 1; hint = [] };
}

-- wolfSPDM_ConnectPsk against that responder: the state at the end, and the success.
abbrev ended : Ctx
ended = (connect_psk toy_link toy_requester).1

conversation : (connect_psk toy_link toy_requester).0 ≡ ok tt
unfolding connect_psk transcript_reset get_version exchange_msg build_get_version transcript_add
    overflows clear_exchange chunk_on send_receive call_io parse_version check_parse_or_error_args
    check_response entry_count max_ver highest_version improves psk_exchange build_psk_exchange
    get_random parse_psk_exchange_rsp verify_offset get16le check_psk_responder transcript_hash
    sha384_hash derive_handshake_keys_psk derive_from_handshake_secret derive_handshake_chain
    derive_key_iv_pair hkdf_expand_label bin_concat bin_concat_prefix compute_verify_data same_bytes
    wipe_psk psk_finish build_psk_finish encrypt_internal encrypt_record encrypt_mctp seal_record
    mctp_record_header mctp_plaintext set32le set16le build_iv decrypt_internal decrypt_record
    decrypt_mctp open_record mctp_payload get32le parse_psk_finish_rsp derive_app_data_keys
    tcg_send_receive tcg_frame is_clear build_tcg_clear_message tcg_unframe write_tcg_header set16be
    set32be get16be get32be handle_message check_frame take_frame frame_payload dispatch_clear
    dispatch_secured clear_version clear_selected clear_answer mode_off handshake_live no_keys
    guarded_finish secured_answer secured_close select_version build_version version_entries
    build_psk_exchange_rsp handle_psk_finish finish_answer psk_request_fits reload_psk
    take_session_id psk_exchange_rsp_head psk_exchange_keys psk_exchange_verify psk_exchange_proof
    resp_encrypt resp_decrypt swap_data_dir resp_reset free_ephemeral_key encrypt_tcg decrypt_tcg
    tcg_record_header tcg_pad_len tcg_payload set64le get64le
conversation = refl

-- The responder is in the session as well.
responder_connected : (peer_after ended.wire.history).ctx.state ≡ state_connected
unfolding connect_psk transcript_reset get_version exchange_msg build_get_version transcript_add
    overflows clear_exchange chunk_on send_receive call_io parse_version check_parse_or_error_args
    check_response entry_count max_ver highest_version improves psk_exchange build_psk_exchange
    get_random parse_psk_exchange_rsp verify_offset get16le check_psk_responder transcript_hash
    sha384_hash derive_handshake_keys_psk derive_from_handshake_secret derive_handshake_chain
    derive_key_iv_pair hkdf_expand_label bin_concat bin_concat_prefix compute_verify_data same_bytes
    wipe_psk psk_finish build_psk_finish encrypt_internal encrypt_record encrypt_mctp seal_record
    mctp_record_header mctp_plaintext set32le set16le build_iv decrypt_internal decrypt_record
    decrypt_mctp open_record mctp_payload get32le parse_psk_finish_rsp derive_app_data_keys
    tcg_send_receive tcg_frame is_clear build_tcg_clear_message tcg_unframe write_tcg_header set16be
    set32be get16be get32be handle_message check_frame take_frame frame_payload dispatch_clear
    dispatch_secured clear_version clear_selected clear_answer mode_off handshake_live no_keys
    guarded_finish secured_answer secured_close select_version build_version version_entries
    build_psk_exchange_rsp handle_psk_finish finish_answer psk_request_fits reload_psk
    take_session_id psk_exchange_rsp_head psk_exchange_keys psk_exchange_verify psk_exchange_proof
    resp_encrypt resp_decrypt swap_data_dir resp_reset free_ephemeral_key encrypt_tcg decrypt_tcg
    tcg_record_header tcg_pad_len tcg_payload set64le get64le
responder_connected = refl
