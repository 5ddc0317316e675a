-- ===== src/Responder/Dispatch.antt =====
-- The dispatchers of the responder and its entry point (src/spdm_responder.c).
use wolf_spdm.Types.Code
use wolf_spdm.Base.{
  ℕ, ◌+◌, ◌-◌, Bool, true, false, not, ◌&&◌, ◌||◌, [], ◌++◌, ltb, ◌==◌, ◌!=◌, if◌then◌else◌, length,
  get_or, take, drop,
}
use wolf_spdm.Context.{Bytes, Env, Result, ok, fail_if, pure, modify, err, Ctx}
use wolf_spdm.Responder.{Resp, R, Tpm, modify_resp, resp_reset, on_ctx, gets_resp, ◌>>=◌, ◌>>◌}
use wolf_spdm.Types.{
  Error, state_key_ex, state_connected, max_msg_size, tcg_header_size, bad_state, framing,
  tcg_tag_clear, buffer_small, tcg_tag_secured,
}
use wolf_spdm.Responder.Clear.{
  error_unexpected_request, error_major_version_mismatch, resp_encrypt, build_version,
  build_error_clear, select_version, resp_decrypt, error_unsupported_request, build_capabilities,
  build_algorithms,
}
use wolf_spdm.Responder.Handshake.{
  handle_psk_finish, handle_finish, build_psk_exchange_rsp, build_key_exchange_rsp,
}
use wolf_spdm.Responder.Command.{handle_vendor_defined, is_code}
use wolf_spdm.Bytes.{get32be, get16be}
use wolf_spdm.Transcript.{transcript_reset, transcript_add, sha384_hash}
use wolf_spdm.Kdf.{derive_app_data_keys}
use wolf_spdm.Responder.Exchange.{build_end_session_ack}
use wolf_spdm.Transport.{write_tcg_header}

-- The error code for a request that wolfSPDM's RespSelectVersion refused.
abbrev pub select_error : Error → ℕ
select_error bad_state = error_unexpected_request
select_error _ = error_major_version_mismatch

-- `m` with its status as a value.
abbrev pub attempt : {A : Type 0} → R A → R (Result A)
attempt m r = let (x, r') = m r in (ok x, r')

-- The version of a clear request; GET_VERSION starts anew.
unfoldable pub clear_version : Bytes → R (Unit {0})
clear_version buf =
    if get_or buf 1 0 == Code.get_version
    then modify_resp (λ r. resp_reset (record r { ctx = transcript_reset r.ctx }))
    else on_ctx (select_version (get_or buf 0 0) (get_or buf 1 0 == Code.vendor_defined_request))

-- A handshake request in a mode that is off, and one over a live handshake or session.
unfoldable pub mode_off : ℕ → Resp → Bool
mode_off code r =
    (code == Code.key_exchange && not r.use_tcg) || (code == Code.psk_exchange && not r.use_psk)

unfoldable pub handshake_live : ℕ → Resp → Bool
handshake_live code r =
    (code == Code.key_exchange || code == Code.psk_exchange)
    && (r.ctx.state == state_key_ex || r.ctx.state == state_connected)

-- An answer that goes into the transcript.
abbrev pub recorded : R Bytes → R Bytes
recorded m = do out ← m; on_ctx (transcript_add out); on_ctx (pure out)

-- Secured messages need the keys of a handshake or of a session.
unfoldable pub no_keys : Resp → Bool
no_keys r = (r.ctx.state != state_key_ex && r.ctx.state != state_connected) || r.ctx.session_id == 0

-- A finish must match the exchange that opened KEY_EX, and runs once.
unfoldable pub guarded_finish : Bool → R Bytes → R Bytes
guarded_finish asym m = do
  r ← gets_resp λ r. r
  on_ctx (
      fail_if (r.ctx.state != state_key_ex || (if asym then not r.pending_asym else r.pending_asym))
        bad_state)
  m

-- The guards of wolfSPDM_RespHandleMessage on the frame.
unfoldable pub check_frame : Bytes → R (Unit {0})
check_frame buf = do
  r ← gets_resp λ r. r
  on_ctx (fail_if (not r.initialized) bad_state)
  on_ctx (fail_if (not r.use_tcg && not r.use_psk) bad_state)
  on_ctx (fail_if (ltb (length buf) tcg_header_size) framing)
  on_ctx (fail_if (get16be buf != tcg_tag_clear && get16be buf != tcg_tag_secured) framing)
  on_ctx (
      fail_if
        (ltb (get32be (drop 2 buf)) tcg_header_size || ltb (length buf) (get32be (drop 2 buf)))
        framing)

-- The connection handle and the FIPS indicator of a frame are taken over.
unfoldable pub take_frame : Bytes → Ctx → Ctx
take_frame buf c = record c {
  wire = record (c.wire) {
    connection_handle = get32be (drop 6 buf);
    fips_indicator = get16be (drop 10 buf);
  };
}

-- The payload of a frame.
unfoldable pub frame_payload : Bytes → Bytes
frame_payload buf = take (get32be (drop 2 buf) - tcg_header_size) (drop tcg_header_size buf)

module _ (env : Env) (tpm : Tpm) where
  -- GET_PUBK in the clear adds the digest of the identity key to the transcript.
  unfoldable pub add_pubk : Bytes → R (Unit {0})
  add_pubk vd_code =
      if is_code vd_code "GET_PUBK"
      then (do
        pub_key ← gets_resp λ r. r.id_pub_key
        ct ← on_ctx (sha384_hash env pub_key [] [])
        on_ctx (transcript_add ct))
      else on_ctx (pure tt)

  unfoldable pub clear_vendor : Bytes → ℕ → R Bytes
  clear_vendor buf room = do
    answer ← handle_vendor_defined env tpm false buf room
    add_pubk answer.0
    on_ctx (pure answer.1)

  -- The switch of RespDispatchClear.
  unfoldable pub clear_answer : ℕ → Bytes → ℕ → R Bytes
  clear_answer code buf room =
      if code == Code.get_version
      then recorded (on_ctx (build_version room))
      else (if code == Code.get_capabilities
          then recorded (do
            psk_enabled ← gets_resp λ r. r.use_psk
            on_ctx (build_capabilities psk_enabled room))
          else (if code == Code.negotiate_algorithms
              then recorded (on_ctx (build_algorithms room))
              else (if code == Code.psk_exchange
                  then build_psk_exchange_rsp env buf room
                  else (if code == Code.key_exchange
                      then build_key_exchange_rsp env buf room
                      else (if code == Code.vendor_defined_request
                          then clear_vendor buf room
                          else on_ctx (build_error_clear error_unsupported_request code room))))))

  -- RespDispatchClear after the version is selected.
  unfoldable pub clear_selected : ℕ → Bytes → ℕ → R Bytes
  clear_selected code buf room = do
    r ← gets_resp λ r. r
    (if mode_off code r
        then on_ctx (build_error_clear error_unsupported_request code room)
        else (if handshake_live code r
            then on_ctx (build_error_clear error_unexpected_request 0 room)
            else (do
              (if code == Code.vendor_defined_request
                  then on_ctx (pure tt)
                  else on_ctx (transcript_add buf))
              clear_answer code buf room)))

  -- RespDispatchClear.
  unfoldable pub dispatch_clear : Bytes → ℕ → R Bytes
  dispatch_clear buf room = do
    on_ctx (fail_if (ltb (length buf) 2) framing)
    selected ← attempt (clear_version buf)
    elim selected [
      | err e ↦ on_ctx (build_error_clear (select_error e) 0 room)
      | ok _ ↦ clear_selected (get_or buf 1 0) buf room
    ]

  unfoldable pub secured_vendor : Bytes → R Bytes
  secured_vendor plain = do
    answer ← handle_vendor_defined env tpm true plain max_msg_size
    on_ctx (pure answer.1)

  -- The switch of RespDispatchSecuredInner.
  unfoldable pub secured_answer : ℕ → Bytes → R Bytes
  secured_answer code plain =
      if code == Code.psk_finish
      then guarded_finish false (handle_psk_finish env plain max_msg_size)
      else (if code == Code.finish
          then guarded_finish true (handle_finish env plain max_msg_size)
          else (if code == Code.end_session
              then on_ctx (build_end_session_ack max_msg_size)
              else (if code == Code.vendor_defined_request
                  then secured_vendor plain
                  else on_ctx (build_error_clear error_unsupported_request code max_msg_size))))

  -- The end of RespDispatchSecuredInner: the answer is sealed before the keys change.
  unfoldable pub secured_close : ℕ → Bytes → ℕ → R Bytes
  secured_close code answer room = do
    out ← on_ctx (resp_encrypt env answer room)
    (if code == Code.psk_finish || code == Code.finish
        then on_ctx (derive_app_data_keys env)
        else on_ctx (pure tt))
    (if code == Code.end_session then modify_resp resp_reset else on_ctx (pure tt))
    on_ctx (pure out)

  -- RespDispatchSecured.
  unfoldable pub dispatch_secured : Bytes → ℕ → R Bytes
  dispatch_secured buf room = do
    unkeyed ← gets_resp no_keys
    on_ctx (fail_if unkeyed bad_state)
    plain ← on_ctx (resp_decrypt env buf max_msg_size)
    on_ctx (fail_if (ltb (length plain) 2) framing)
    answer ← secured_answer (get_or plain 1 0) plain
    secured_close (get_or plain 1 0) answer room

  -- wolfSPDM_RespHandleMessage.
  unfoldable pub handle_message : Bytes → ℕ → R Bytes
  handle_message buf room = do
    check_frame buf
    on_ctx (modify (take_frame buf))
    on_ctx (fail_if (ltb room tcg_header_size) buffer_small)
    out ←
        (if get16be buf == tcg_tag_clear
          then dispatch_clear (frame_payload buf) (room - tcg_header_size)
          else dispatch_secured (frame_payload buf) (room - tcg_header_size))
    wire ← gets_resp λ r. r.ctx.wire
    on_ctx (
        pure (
          write_tcg_header (get16be buf) (tcg_header_size + length out) wire.connection_handle
            wire.fips_indicator
          ++ out))
