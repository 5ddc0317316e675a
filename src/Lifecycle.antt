-- ===== src/Lifecycle.antt =====
-- src/spdm_context.c: creation, configuration, status, connection and teardown of a context.
pub mod Status
pub mod Teardown
use wolf_spdm.Base.{
  ℕ, ◌%◌, [], Bool, ◌||◌, ◌&&◌, not, true, false, ltb, leb, ◌==◌, ◌!=◌, length, get_or, none,
  if◌then◌else◌,
}
use wolf_spdm.Types.Code
use wolf_spdm.Types.{
  state_init, state_version, state_key_ex, state_connected, state_error, run_none, Mode, auto,
  nations_psk, min_spdm_version, max_spdm_version, ecc_key_size, ecc_point_size, hash_size,
  aead_key_size, aead_iv_size, fips_non_fips, invalid_arg, bad_state, crypto_fail, io_fail,
  not_connected, buffer_small, peer_error,
}
use wolf_spdm.Context.{Bytes, Env, Keys, Ctx, ok, err, M, fail_if, gets, modify, ◌>>=◌, ◌>>◌}
use wolf_spdm.Crypto.{free_ephemeral_key}
use wolf_spdm.Kdf.{zeros}
use wolf_spdm.Message.{build_end_session, check_error}
use wolf_spdm.Exchange.{secured_exchange}

-- The key material after a wipe; the shared secret is counted by its length.
unfoldable pub wiped_keys : Keys
wiped_keys = record {
  shared_secret = [];
  handshake_secret = zeros hash_size;
  req_hs_secret = zeros hash_size;
  rsp_hs_secret = zeros hash_size;
  req_finished_key = zeros hash_size;
  rsp_finished_key = zeros hash_size;
  req_data_key = zeros aead_key_size;
  rsp_data_key = zeros aead_key_size;
  req_data_iv = zeros aead_iv_size;
  rsp_data_iv = zeros aead_iv_size;
  req_app_secret = zeros hash_size;
  rsp_app_secret = zeros hash_size;
}

-- `XMEMSET(ctx, 0, sizeof(WOLFSPDM_CTX))`; what a length counts is empty.
unfoldable pub zero_ctx : Ctx
zero_ctx = record {
  state = state_init;
  mode = auto;
  wire = record { has_io = false; history = []; connection_handle = 0; fips_indicator = 0 };
  rng_initialized = false;
  draws = 0;
  max_version = 0;
  spdm_version = 0;
  last_peer_error_code = 0;
  ephemeral = none;
  transcript = [];
  cert_chain_hash = zeros hash_size;
  th1 = zeros hash_size;
  th2 = zeros hash_size;
  keys = wiped_keys;
  req_seq_num = 0;
  rsp_seq_num = 0;
  req_session_id = 0;
  rsp_session_id = 0;
  session_id = 0;
  mut_auth_requested = 0;
  req_slot_id_param = 0;
  identity = record {
    rsp_pub_key = [];
    has_rsp_pub_key = false;
    rsp_key_from_cert = false;
    req_priv_key = [];
    req_pub_key = [];
    has_req_key_pair = false;
    req_pub_key_tpmt = [];
  };
  limits = record {
    rsp_caps = 0;
    data_transfer_size = 0;
    max_spdm_msg_size = 0;
    vca_len = 0;
    current_slot_id = 0;
  };
  psk = record { psk = []; hint = [] };
  certs = record { slot_mask = 0; cert_chain = []; trusted_ca = []; allow_untrusted = false };
  chunk_handle = 0;
  attest = record {
    l1l2_state = run_none;
    l1l2_hash = [];
    m1_state = run_none;
    m1_hash = [];
    meas_record = [];
    meas_block_count = 0;
  };
  initialized = false;
}

-- wolfSPDM_Init. Nothing of the old context is read.
unfoldable pub init : Env → M (Unit {0})
init env c =
    if env.init_rng
    then (
      ok tt,
      record (zero_ctx) { rng_initialized = true; req_session_id = 1; initialized = true },
    )
    else (err crypto_fail, zero_ctx)

-- wolfSPDM_SetIO.
unfoldable pub set_io : M (Unit {0})
set_io = modify λ c. record c { wire = record (c.wire) { has_io = true } }

-- wolfSPDM_SetResponderPubKey.
unfoldable pub set_responder_pub_key : Bytes → M (Unit {0})
set_responder_pub_key pub_key = do
  fail_if (length pub_key != ecc_point_size) invalid_arg
  modify λ c. record c {
    identity = record (c.identity) {
      rsp_pub_key = pub_key;
      has_rsp_pub_key = true;
      rsp_key_from_cert = false;
    };
  }

-- wolfSPDM_SetRequesterKeyPair.
unfoldable pub set_requester_key_pair : Bytes → Bytes → M (Unit {0})
set_requester_key_pair priv_key pub_key = do
  fail_if (length priv_key != ecc_key_size || length pub_key != ecc_point_size) invalid_arg
  modify λ c. record c {
    identity = record (c.identity) {
      req_priv_key = priv_key;
      req_pub_key = pub_key;
      has_req_key_pair = true;
    };
  }

-- wolfSPDM_SetRequesterKeyTPMT, into a buffer of half of WOLFSPDM_PUBKEY_BUF_SZ.
unfoldable pub set_requester_key_tpmt : Bytes → M (Unit {0})
set_requester_key_tpmt tpmt_pub = do
  fail_if (ltb 128 (length tpmt_pub)) invalid_arg
  modify λ c. record c { identity = record (c.identity) { req_pub_key_tpmt = tpmt_pub } }

-- wolfSPDM_SetMaxVersion.
unfoldable pub set_max_version : ℕ → M (Unit {0})
set_max_version max_version = do
  fail_if
      (max_version != 0 && (ltb max_version min_spdm_version || ltb max_spdm_version max_version))
      invalid_arg
  modify λ c. record c { max_version = max_version }

-- The guard of wolfSPDM_SetRequesterSessionId: reserved values, and those whose first byte on the
-- wire would pass for an SPDM version.
unfoldable pub bad_session_id : ℕ → Bool
bad_session_id id = id == 0x0000 || (id == 0xFFFF || (leb 0x10 (id % 256) && leb (id % 256) 0x1F))

-- wolfSPDM_SetRequesterSessionId.
unfoldable pub set_requester_session_id : ℕ → M (Unit {0})
set_requester_session_id id = do
  fail_if (bad_session_id id) invalid_arg
  modify λ c. record c { req_session_id = id }

-- wolfSPDM_SetMode. The default connection handle of the Nuvoton adapter is 0 too.
unfoldable pub set_mode : Mode → M (Unit {0})
set_mode auto = modify λ c. record c { mode = auto }
set_mode m = modify λ c. record c {
  mode = m;
  wire = record (c.wire) { connection_handle = 0; fips_indicator = fips_non_fips };
}

-- wolfSPDM_IsConnected, wolfSPDM_GetSessionId and wolfSPDM_GetNegotiatedVersion.
unfoldable pub is_connected : Ctx → Bool
is_connected c = c.state == state_connected

unfoldable pub get_session_id : Ctx → ℕ
get_session_id c = if ltb c.state state_key_ex || c.state == state_error then 0 else c.session_id

unfoldable pub get_negotiated_version : Ctx → ℕ
get_negotiated_version c = if ltb c.state state_version then 0 else c.spdm_version

-- wolfSPDM_AttestFree.
unfoldable pub attest_free : Ctx → Ctx
attest_free c = record c {
  attest = record (c.attest) { l1l2_state = run_none; m1_state = run_none };
}

-- wolfSPDM_ResetSession. Configured identity keys stay for a later connection.
unfoldable pub reset_session : Ctx → Ctx
reset_session c =
    let c' = free_ephemeral_key c in
    attest_free (record c' {
      state = state_init;
      session_id = 0;
      rsp_session_id = 0;
      req_seq_num = 0;
      rsp_seq_num = 0;
      mut_auth_requested = 0;
      req_slot_id_param = 0;
      keys = wiped_keys;
      th1 = zeros hash_size;
      th2 = zeros hash_size;
      limits = record (c'.limits) { rsp_caps = 0; data_transfer_size = 0; max_spdm_msg_size = 0 };
      attest = record (c'.attest) { meas_block_count = 0; meas_record = [] };
    })

module _ (env : Env) where
  -- The END_SESSION exchange of wolfSPDM_Disconnect.
  unfoldable pub end_session : M (Unit {0})
  end_session = do
    tx ← build_end_session 8
    rx ← secured_exchange env tx 16
    fail_if (ltb (length rx) 4) buffer_small
    fail_if (check_error rx) peer_error
    version ← gets λ c. c.spdm_version
    fail_if
        (length rx != 4
          || (get_or rx 0 0 != version
              || (get_or rx 1 0 != Code.end_session_ack
                  || (get_or rx 2 0 != 0 || get_or rx 3 0 != 0))))
        peer_error

  -- wolfSPDM_Disconnect: END_SESSION only for a live session; the wipe always runs.
  unfoldable pub disconnect : M (Unit {0})
  disconnect c =
      let (r, c') =
        (if c.state == state_connected then end_session c else (err not_connected, c)) in
      (r, reset_session c')

-- wolfSPDM_Connect over the handshakes of the modes (src/spdm_tcg.c, src/spdm_psk.c and
-- src/spdm_standard.c), each of them run on the reset context.
module _ (connect_tcg connect_psk connect_standard : M (Unit {0})) where
  unfoldable pub connect_mode : Mode → M (Unit {0})
  connect_mode auto = connect_standard
  connect_mode nations_psk = connect_psk
  connect_mode _ = connect_tcg

  unfoldable pub connect : M (Unit {0})
  connect c =
      (do
        fail_if (not c.initialized) bad_state
        fail_if (not c.wire.has_io) io_fail
        modify reset_session
        connect_mode c.mode)
        c
