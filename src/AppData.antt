-- ===== src/AppData.antt =====
-- The application-data API of src/spdm_secured.c.
use wolf_spdm.Base.{
  ℕ, [], ◌∷◌, ◌&&◌, not, true, false, leb, ◌==◌, ◌!=◌, length, get_or, none, some, if◌then◌else◌,
}
use wolf_spdm.Types.Code
use wolf_spdm.Types.{
  state_connected, mctp_message_type_spdm, invalid_arg, not_connected, not_available, io_fail,
  peer_error,
}
use wolf_spdm.Context.{Bytes, Env, Ctx, ok, err, M, fail_if, gets, is_tcg_mode, ◌>>=◌, ◌>>◌}
use wolf_spdm.Transport.{call_io}
use wolf_spdm.Secured.{encrypt_record, decrypt_record, record_buf_size}

-- wolfSPDM_AppDataReady: the TCG binding only carries SPDM request/response pairs.
unfoldable pub app_data_ready : M (Unit {0})
app_data_ready c =
    (do
      fail_if (c.state != state_connected) not_connected
      fail_if (is_tcg_mode c.mode) not_available
      fail_if (not c.wire.has_io) io_fail)
      c

-- The responder answers undeliverable application data in SPDM.
unfoldable pub check_app_data : Bytes → M Bytes
check_app_data msg c =
    if get_or msg 0 0 == mctp_message_type_spdm
    then (
      err peer_error,
      if leb 4 (length msg) && get_or msg 2 0 == Code.error
          then record c { last_peer_error_code = get_or msg 3 0 }
          else c,
    )
    else (ok msg, c)

module _ (env : Env) where
  -- wolfSPDM_EncryptMessage and wolfSPDM_DecryptMessage.
  unfoldable pub encrypt_message : Bytes → ℕ → M Bytes
  encrypt_message plain out_size = do
    state ← gets λ c. c.state
    fail_if (state != state_connected) not_connected
    encrypt_record env false plain out_size

  unfoldable pub decrypt_message : Bytes → ℕ → M Bytes
  decrypt_message enc out_size = do
    state ← gets λ c. c.state
    fail_if (state != state_connected) not_connected
    decrypt_record env false enc out_size

  -- A call of the callback that wants no answer.
  unfoldable pub send_only : Bytes → M (Unit {0})
  send_only tx c =
      let c' : Ctx = record c { wire = record (c.wire) { history = tx ∷ c.wire.history } } in
      elim (env.io c.wire.history tx 0) [ none ↦ (err io_fail, c') | some rx ↦ (ok tt, c') ]

  -- wolfSPDM_SendData. Type 0x05 would reach the peer as an SPDM request.
  unfoldable pub send_data : Bytes → M (Unit {0})
  send_data msg = do
    fail_if (length msg == 0) invalid_arg
    fail_if (get_or msg 0 0 == mctp_message_type_spdm) invalid_arg
    app_data_ready
    enc ← encrypt_record env true msg record_buf_size
    send_only enc

  -- wolfSPDM_ReceiveData: a call of the callback that sends nothing.
  unfoldable pub receive_data : ℕ → M Bytes
  receive_data size = do
    app_data_ready
    rx ← call_io env [] record_buf_size
    msg ← decrypt_record env true rx size
    check_app_data msg
