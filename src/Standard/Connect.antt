-- ===== src/Standard/Connect.antt =====
-- wolfSPDM_ConnectStandard (src/spdm_standard.c) and SPDM_CONNECT_STEP (src/spdm_internal.h).
pub mod Ends
use wolf_spdm.Base.{ℕ, ◌&&◌, zero, suc, ◌+◌, ◌/◌, ◌%◌, ◌^◌, ◌==◌, ◌!=◌, if◌then◌else◌}
use wolf_spdm.Context.{Ctx, M, Env, ◌>>=◌, ◌>>◌, modify, gets}
use wolf_spdm.Standard.Chain.{Asn, validate_cert_chain}
use wolf_spdm.Standard.{forget_cert_key}
use wolf_spdm.Kdf.{on_error}
use wolf_spdm.Types.{state_error, state_init, state_connected}
use wolf_spdm.Lifecycle.{attest_free}
use wolf_spdm.Transcript.{transcript_reset}
use wolf_spdm.Session.{get_version, key_exchange, finish}
use wolf_spdm.Standard.Vca.{get_capabilities, negotiate_algorithms}
use wolf_spdm.Standard.Certificate.{get_digests, get_certificate}

-- SPDM_CONNECT_STEP: a step that fails leaves the state ERROR.
unfoldable pub connect_step : M (Unit {0}) → M (Unit {0})
connect_step m = on_error m (λ c. record c { state = state_error })

-- The lowest populated slot of the mask, at most `n` above `slot`, or the last one; slot 0 of an
-- empty mask.
unfoldable pub lowest_slot : ℕ → ℕ → ℕ → ℕ
lowest_slot zero mask slot = slot
lowest_slot (suc n) mask slot =
    let next = lowest_slot n mask (slot + 1) in
    if mask != 0 && mask / 2 ^ slot % 2 == 0 then next else slot

-- What wolfSPDM_ConnectStandard clears first.
unfoldable pub start_standard : Ctx → Ctx
start_standard c =
    let d = forget_cert_key c in
    attest_free (
      transcript_reset (record d {
        state = state_init;
        last_peer_error_code = 0;
        limits = record (d.limits) { rsp_caps = 0 };
      }))

module _ (env : Env) (asn : Asn) where
  -- wolfSPDM_ConnectStandard.
  unfoldable pub connect_standard : M (Unit {0})
  connect_standard = do
    modify start_standard
    connect_step (get_version env)
    connect_step (get_capabilities env)
    connect_step (negotiate_algorithms env)
    connect_step (get_digests env)
    mask ← gets λ c. c.certs.slot_mask
    connect_step (get_certificate env (lowest_slot 7 mask 0))
    connect_step (validate_cert_chain env asn)
    connect_step (key_exchange env (validate_cert_chain env asn))
    connect_step (finish env)
    modify λ c. record c { state = state_connected }
