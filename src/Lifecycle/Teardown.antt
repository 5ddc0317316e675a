-- ===== src/Lifecycle/Teardown.antt =====
-- Teardown of a session (src/spdm_context.c).
use wolf_spdm.Context.{Bytes, Ctx, ok, Env}
use wolf_spdm.Base.{ℕ, ◌+◌, ◌*◌, ◌^◌, ◌<◌, ◌≡◌, false, none, ◌++◌, arith}
use wolf_spdm.Lifecycle.{
  wiped_keys, set_requester_session_id, disconnect, reset_session, bad_session_id, attest_free,
  get_session_id, is_connected,
}
use wolf_spdm.Transport.{is_clear}
use wolf_spdm.Crypto.{free_ephemeral_key}
use wolf_spdm.Bytes.{set32le}
use wolf_spdm.Types.{state_init, hash_size}
use wolf_spdm.Kdf.{zeros}

-- Whatever END_SESSION comes to, disconnect leaves no session and no key material: the context
-- is in state INIT with no session ID, its sequence numbers are 0 and its keys are the wiped ones,
-- the ephemeral key is gone, and the transcript hashes are zero.
pub disconnect_wipes :
    (env : Env) (c : Ctx)
    → let d = (disconnect env c).1 in
      (d.state ≡ state_init)
      × (d.session_id ≡ 0)
      × (d.req_seq_num ≡ 0)
      × (d.rsp_seq_num ≡ 0)
      × (d.keys ≡ wiped_keys)
      × (d.ephemeral ≡ none)
      × (d.th1 ≡ zeros hash_size)
      × (d.th2 ≡ zeros hash_size)
      × (get_session_id d ≡ 0)
      × (is_connected d ≡ false)
unfolding disconnect reset_session attest_free free_ephemeral_key get_session_id is_connected
disconnect_wipes env c = ground arith

-- A 16-bit requester session ID that set_requester_session_id takes makes session IDs whose first
-- byte on the wire no receiver takes for the version of a clear SPDM message, whatever the
-- responder's half is.
pub session_id-is_clear :
    (c c' d : Ctx) (id rsp_id : ℕ) (rest : Bytes)
    → set_requester_session_id id c ≡ (ok tt, c')
    → d.session_id ≡ id + rsp_id * 2 ^ 16
    → id < 2 ^ 16
    → is_clear (set32le d.session_id ++ rest) ≡ false
unfolding set_requester_session_id bad_session_id is_clear set32le
session_id-is_clear c c' d id rsp_id rest e s b = ground arith
