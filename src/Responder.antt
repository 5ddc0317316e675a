-- ===== src/Responder.antt =====
-- src/spdm_responder.c: the responder's context, its configuration, its status and its reset.
pub mod Clear
pub mod Exchange
pub mod Handshake
pub mod Command
pub mod Dispatch
pub mod Follows
pub mod Calm
pub mod Steady
pub mod Gate
pub mod PskStore
pub mod Finish
pub mod Promotion
pub mod Records
pub mod Answer
pub mod Agree
use wolf_spdm.Base.{
  ℕ, Bool, true, false, not, ◌&&◌, ◌||◌, Option, List, [], ltb, leb, ◌==◌, ◌!=◌, if◌then◌else◌,
  length,
}
use wolf_spdm.Context.{Result, fail_if, Env, Ctx, Bytes, ok, M, err}
use wolf_spdm.Transcript.{transcript_reset}
use wolf_spdm.Lifecycle.{zero_ctx, init, wiped_keys}
use wolf_spdm.Types.{
  state_connected, invalid_arg, nations_psk, hash_size, ecc_key_size, psk_max_size, nuvoton,
  state_init, ecc_point_size, bad_state, psk_hint_max,
}
use wolf_spdm.Kdf.{zeros}
use wolf_spdm.Crypto.{free_ephemeral_key}
use wolf_spdm.Psk.{set_psk}

-- WOLFSPDM_RESP_TPM_CB: the commands given to it before (newest first), the command and the room for
-- the answer; `none` is a nonzero return code. It may claim more bytes than it has room for.
abbrev pub Tpm : Type 0
Tpm = List Bytes → Bytes → ℕ → Option Bytes

-- struct WOLFSPDM_RESP_CTX. `tpm_log` is the state behind `tpmCbUserCtx`: the commands so far, newest
-- first. The scratch buffers, which are wiped after each message, are left out.
pub record Resp : Type 0 where
  pub ctx : Ctx
  pub use_tcg : Bool
  pub use_psk : Bool
  pub has_id_key : Bool
  pub initialized : Bool
  pub spdm_only_lock : Bool
  pub psk_provisioned : Bool
  pub clear_auth_set : Bool
  pub session_asym : Bool
  pub pending_asym : Bool
  pub clear_auth_digest : Bytes
  pub id_priv_key : Bytes
  pub id_pub_key : Bytes
  pub psk_store : Bytes
  pub psk_hint_store : Bytes
  pub has_tpm_cb : Bool
  pub tpm_log : List Bytes

-- A function of the responder: it takes the responder's context, and returns a status with it.
abbrev pub R : Type 0 → Type 0
R A = Resp → Result A × Resp

infixl 5 ◌>>=◌ ◌>>◌
abbrev pub ◌>>=◌ : {A B : Type 0} → R A → (A → R B) → R B
◌>>=◌ m f r = let (x, r') = m r in elim x [ ok a ↦ f a r' | err e ↦ (err e, r') ]

abbrev pub ◌>>◌ : {B : Type 0} → R (Unit {0}) → R B → R B
m >> k = m >>= λ _. k

-- A function of the inner context.
abbrev pub on_ctx : {A : Type 0} → M A → R A
on_ctx m r = let (x, c) = m r.ctx in (x, record r { ctx = c })

abbrev pub gets_resp : {A : Type 0} → (Resp → A) → R A
gets_resp f r = (ok (f r), r)

abbrev pub modify_resp : (Resp → Resp) → R (Unit {0})
modify_resp f r = (ok tt, f r)

-- `XMEMSET(ctx, 0, sizeof(*ctx))`.
unfoldable pub zero_resp : Ctx → Resp
zero_resp c = record {
  ctx = c;
  use_tcg = false;
  use_psk = false;
  has_id_key = false;
  initialized = false;
  spdm_only_lock = false;
  psk_provisioned = false;
  clear_auth_set = false;
  session_asym = false;
  pending_asym = false;
  clear_auth_digest = zeros hash_size;
  id_priv_key = zeros ecc_key_size;
  id_pub_key = [];
  psk_store = [];
  psk_hint_store = [];
  has_tpm_cb = false;
  tpm_log = [];
}

-- wolfSPDM_RespInit. Nothing of the old context is read.
unfoldable pub resp_init : Env → R (Unit {0})
resp_init env r =
    (do on_ctx (init env); modify_resp λ r. record r { initialized = true }) (zero_resp zero_ctx)

-- wolfSPDM_RespFree.
unfoldable pub resp_free : Resp → Resp
resp_free r = zero_resp zero_ctx

-- wolfSPDM_RespSetMode.
unfoldable pub resp_set_mode : Bool → Bool → R (Unit {0})
resp_set_mode tcg psk = do
  ready ← gets_resp λ r. r.initialized
  on_ctx (fail_if (not ready) invalid_arg)
  on_ctx (fail_if (not tcg && not psk) invalid_arg)
  modify_resp λ r. record r {
    use_tcg = tcg;
    use_psk = psk;
    ctx = record (r.ctx) { mode = if psk then nations_psk else nuvoton };
  }

-- wolfSPDM_RespSetPSK: the inner context refuses a bad key or hint before anything is stored.
unfoldable pub resp_set_psk : Bytes → Bytes → R (Unit {0})
resp_set_psk psk hint = do
  ready ← gets_resp λ r. r.initialized
  on_ctx (fail_if (not ready) invalid_arg)
  on_ctx (fail_if (length psk == 0 || ltb psk_max_size (length psk)) invalid_arg)
  on_ctx (set_psk psk hint)
  modify_resp λ r. record r {
    psk_store = psk;
    psk_hint_store = if leb (length hint) psk_hint_max then hint else [];
    psk_provisioned = true;
    clear_auth_set = false;
    clear_auth_digest = zeros hash_size;
  }

-- wolfSPDM_RespSetIdentityKey.
unfoldable pub resp_set_identity_key : Bytes → Bytes → R (Unit {0})
resp_set_identity_key priv_key pub_key = do
  ready ← gets_resp λ r. r.initialized
  on_ctx (fail_if (not ready) invalid_arg)
  on_ctx (fail_if (length priv_key != ecc_key_size || length pub_key != ecc_point_size) invalid_arg)
  state ← gets_resp λ r. r.ctx.state
  on_ctx (fail_if (state != state_init) bad_state)
  modify_resp λ r. record r { id_priv_key = priv_key; id_pub_key = pub_key; has_id_key = true }

-- wolfSPDM_RespSetTpmCallback, with a callback or with none.
unfoldable pub resp_set_tpm_callback : Bool → R (Unit {0})
resp_set_tpm_callback has_cb = do
  ready ← gets_resp λ r. r.initialized
  on_ctx (fail_if (not ready) invalid_arg)
  modify_resp λ r. record r { has_tpm_cb = has_cb }

-- wolfSPDM_RespIsLocked.
unfoldable pub resp_is_locked : Resp → Bool
resp_is_locked r = r.spdm_only_lock

-- wolfSPDM_RespIsSessionActive.
unfoldable pub resp_is_session_active : Resp → Bool
resp_is_session_active r = r.ctx.state == state_connected && r.ctx.session_id != 0

-- wolfSPDM_RespGetIdentityKey; no key is the empty one.
unfoldable pub resp_get_identity_key : Resp → Bytes
resp_get_identity_key r = if not r.has_id_key || not r.session_asym then [] else r.id_pub_key

-- wolfSPDM_RespReset: the session's material goes; keys, PSK and mode stay.
unfoldable pub resp_reset : Resp → Resp
resp_reset r =
    let c = transcript_reset (free_ephemeral_key (record (r.ctx) { keys = wiped_keys })) in
    record r {
      ctx = record c { req_seq_num = 0; rsp_seq_num = 0; session_id = 0; state = state_init };
      session_asym = false;
      pending_asym = false;
    }
