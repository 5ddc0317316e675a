-- ===== src/Session.antt =====
-- src/spdm_session.c: the handshake steps and the session's keep-alive and key rotation.
use wolf_spdm.Base.{
  ℕ, ◌+◌, Bool, ◌&&◌, not, true, false, leb, ◌==◌, ◌!=◌, length, get_or, bit_and, if◌then◌else◌,
}
use wolf_spdm.Types.Code
use wolf_spdm.Types.{
  state_key_ex, state_connected, run_none, run_live, run_open, key_ex_tx_size, key_ex_rx_size,
  vendor_buf_size, finish_rsp_max, finish_buf_size, cap_hbeat, cap_key_upd,
  key_update_op_update_key, key_update_op_update_all_keys, key_update_op_verify_new_key, bad_state,
  peer_error, not_connected, caps_mismatch, key_update,
}
use wolf_spdm.Context.{
  Bytes, Env, Ctx, ok, err, M, ◌>>=◌, fail_if, gets, pure, is_tcg_mode, ◌>>◌, always,
}
use wolf_spdm.Transcript.{transcript_add}
use wolf_spdm.Transport.{send_receive, is_clear}
use wolf_spdm.Secured.{encrypt_internal, decrypt_internal}
use wolf_spdm.Chunk.{chunk_on, chunk_exchange}
use wolf_spdm.Exchange.{clear_exchange, secured_exchange, exchange_msg}
use wolf_spdm.Kdf.{derive_app_data_keys, derive_updated_keys}
use wolf_spdm.Message.{
  build_get_version, build_heartbeat, parse_heartbeat_ack, build_key_update, parse_key_update_ack,
}
use wolf_spdm.Message.Version.{parse_version}
use wolf_spdm.Message.KeyExchange.{build_key_exchange, parse_key_exchange_rsp}
use wolf_spdm.Message.Finish.{build_finish, parse_finish_rsp}
use wolf_spdm.Running.{m1_start}

-- What wolfSPDM_SaveTrafficKeys copies back.
unfoldable pub restore_traffic_keys : Ctx → Ctx → Ctx
restore_traffic_keys saved c = record c {
  keys = record (c.keys) {
    req_data_key = saved.keys.req_data_key;
    rsp_data_key = saved.keys.rsp_data_key;
    req_data_iv = saved.keys.req_data_iv;
    rsp_data_iv = saved.keys.rsp_data_iv;
    req_app_secret = saved.keys.req_app_secret;
    rsp_app_secret = saved.keys.rsp_app_secret;
  };
  req_seq_num = saved.req_seq_num;
  rsp_seq_num = saved.rsp_seq_num;
}

-- wolfSPDM_CheckSessionCap: standard mode checks the responder's CAPABILITIES.
unfoldable pub check_session_cap : ℕ → M (Unit {0})
check_session_cap bit c =
    (do
      fail_if (c.state != state_connected) not_connected
      fail_if (not (is_tcg_mode c.mode) && bit_and c.limits.rsp_caps bit == 0) caps_mismatch)
      c

module _ (env : Env) where
  -- wolfSPDM_GetVersion.
  unfoldable pub get_version : M (Unit {0})
  get_version = exchange_msg env build_get_version parse_version 8 32

  -- KEY_EXCHANGE drops DIGESTS and CERTIFICATE from M1.
  unfoldable pub restart_m1 : M (Unit {0})
  restart_m1 c = elim c.attest.m1_state [
    | run_none ↦ (ok tt, c)
    | run_live ↦ m1_start env c
    | run_open ↦ m1_start env c
  ]

  -- wolfSPDM_KeyExchange. `validate_cert_chain` is that of src/spdm_standard.c.
  unfoldable pub key_exchange : M (Unit {0}) → M (Unit {0})
  key_exchange validate_cert_chain c =
      (do
        fail_if (not c.identity.has_rsp_pub_key) bad_state
        (if not (is_tcg_mode c.mode) && c.identity.rsp_key_from_cert
            then validate_cert_chain
            else pure tt)
        tx ← build_key_exchange env key_ex_tx_size
        restart_m1
        transcript_add tx
        rx ← clear_exchange env tx key_ex_rx_size
        parse_key_exchange_rsp env rx)
        c

  -- What wolfSPDM_FinishXfer makes of a clear answer: the peer's error code, if it is an ERROR.
  unfoldable pub finish_clear_error : Bytes → M (Unit {0})
  finish_clear_error rx c =
      if leb 2 (length rx) && is_clear rx
      then (
        err peer_error,
        if leb 4 (length rx) && get_or rx 1 0 == Code.error
            then record c { last_peer_error_code = get_or rx 2 0 }
            else c,
      )
      else (ok tt, c)

  -- wolfSPDM_FinishXfer.
  unfoldable pub finish_xfer : Bytes → ℕ → M Bytes
  finish_xfer msg dec_size = do
    chunked ← gets chunk_on
    (if chunked then chunk_exchange env true msg dec_size else (do
      enc ← encrypt_internal env msg vendor_buf_size
      rx ← send_receive env enc (finish_rsp_max + 128)
      finish_clear_error rx
      decrypt_internal env rx dec_size))

  -- wolfSPDM_Finish.
  unfoldable pub finish : M (Unit {0})
  finish = do
    state ← gets λ c. c.state
    fail_if (state != state_key_ex) bad_state
    msg ← build_finish env finish_buf_size
    rsp ← finish_xfer msg finish_rsp_max
    parse_finish_rsp rsp
    derive_app_data_keys env

  -- wolfSPDM_Heartbeat.
  unfoldable pub heartbeat : M (Unit {0})
  heartbeat = do
    check_session_cap cap_hbeat
    tx ← build_heartbeat 4
    rx ← secured_exchange env tx 32
    parse_heartbeat_ack rx

  -- The rotation in wolfSPDM_KeyUpdate: an UpdateAllKeys ACK that does not open under the current
  -- keys is tried under the new ones, and the old ones come back if that fails too.
  unfoldable pub rotate_keys : Bytes → M Bytes
  rotate_keys raw c =
      let (r, c') =
        (do
          always (derive_updated_keys env true) (λ c. record c { req_seq_num = 0; rsp_seq_num = 0 })
          decrypt_internal env raw 32)
          c in
      elim r [ ok rx ↦ (ok rx, c') | err e ↦ (err e, restore_traffic_keys c c') ]

  -- The response to the first KEY_UPDATE, and whether it took new keys to open it.
  unfoldable pub open_key_update_ack : Bool → Bytes → M (Bytes × Bool)
  open_key_update_ack update_all raw c =
      let (r, c') = decrypt_internal env raw 32 c in
      elim r [
        | ok rx ↦ (ok (rx, false), c')
        | err e ↦
            if update_all then (rotate_keys raw >>= (λ rx. pure (rx, true))) c' else (err e, c')
      ]

  -- The last exchange of wolfSPDM_KeyUpdate: VerifyNewKey under the new keys.
  unfoldable pub verify_new_key : M (Unit {0})
  verify_new_key = do
    msg ← build_key_update env 4 key_update_op_verify_new_key
    rx ← secured_exchange env msg.0 32
    parse_key_update_ack rx key_update_op_verify_new_key msg.1

  abbrev pub key_update_op : Bool → ℕ
  key_update_op update_all =
      if update_all then key_update_op_update_all_keys else key_update_op_update_key

  -- wolfSPDM_KeyUpdate.
  unfoldable pub key_update_run : Bool → M (Unit {0})
  key_update_run update_all = do
    check_session_cap cap_key_upd
    msg ← build_key_update env 4 (key_update_op update_all)
    enc ← encrypt_internal env msg.0 64
    raw ← send_receive env enc 64
    got ← open_key_update_ack update_all raw
    parse_key_update_ack got.0 (key_update_op update_all) msg.1
    fail_if (update_all && not got.1) key_update
    (if update_all
        then pure tt
        else always (derive_updated_keys env false) (λ c. record c { req_seq_num = 0 }))
    verify_new_key
