-- ===== src/Vendor.antt =====
-- The TPM vendor adapters of src/vendor: spdm_nuvoton.c, spdm_nations.c and spdm_infineon.c.
use wolf_spdm.Base.{
  ℕ, Bool, true, false, [], ◌∷◌, ltb, leb, ◌==◌, ◌!=◌, if◌then◌else◌, length, get_or,
}
use wolf_spdm.Context.{Env, Bytes, Result, M, ◌>>◌, ok, err, ◌>>=◌, gets, fail_if, lift, pure}
use wolf_spdm.Types.{framing, state_connected, invalid_arg, not_connected}
use wolf_spdm.Tcg.{vendor_cmd_clear, vendor_cmd_clear_raw, vendor_cmd_secured}
use wolf_spdm.Kdf.{codes}
use wolf_spdm.Session.{get_version}
use wolf_spdm.Tcg.Handshake.{tcg_get_capabilities, tcg_negotiate_algorithms}

-- WOLFSPDM_SPDMONLY_LOCK and WOLFSPDM_SPDMONLY_UNLOCK.
abbrev pub spdmonly_lock : ℕ
spdmonly_lock = 1

abbrev pub spdmonly_unlock : ℕ
spdmonly_unlock = 0

-- WOLFSPDM_TCG_CAPS_FLAGS_PSK.
abbrev pub vca_caps_flags_psk : ℕ
vca_caps_flags_psk = 0x197C0

-- WOLFSPDM_NUVOTON_STATUS.
pub record NuvotonStatus : Type 0 where
  pub spdm_enabled : Bool
  pub session_active : Bool
  pub spdm_only_locked : Bool
  pub spec_version_major : ℕ
  pub spec_version_minor : ℕ

-- WOLFSPDM_NATIONS_STATUS.
pub record NationsStatus : Type 0 where
  pub spdm_enabled : Bool
  pub session_active : Bool
  pub spdm_only_locked : Bool
  pub spdm_only_pending : Bool
  pub psk_provisioned : Bool
  pub identity_key_provisioned : Bool

-- WOLFSPDM_INFINEON_STATUS.
pub record InfineonStatus : Type 0 where
  pub spdm_enabled : Bool
  pub session_active : Bool
  pub spdm_only_locked : Bool
  pub spdm_only_pending : Bool
  pub psk_provisioned : Bool

-- What wolfSPDM_Nuvoton_GetStatus reads from the payload, of at least four bytes or in the
-- minimal form of one to three.
unfoldable pub nuvoton_status : Bytes → Result NuvotonStatus
nuvoton_status payload =
    if leb 4 (length payload)
    then ok record {
      spdm_enabled = true;
      session_active = false;
      spdm_only_locked = get_or payload 3 0 != 0;
      spec_version_major = get_or payload 0 0;
      spec_version_minor = get_or payload 1 0;
    }
    else (if leb 1 (length payload)
        then ok record {
          spdm_enabled = true;
          session_active = false;
          spdm_only_locked = get_or payload 0 0 != 0;
          spec_version_major = 0;
          spec_version_minor = 0;
        }
        else err framing)

-- What wolfSPDM_Nations_GetStatus reads from the payload.
unfoldable pub nations_status : Bytes → Result NationsStatus
nations_status payload =
    if leb 4 (length payload)
    then ok record {
      spdm_enabled = true;
      session_active = false;
      spdm_only_locked = get_or payload 3 0 != 0;
      spdm_only_pending = false;
      psk_provisioned = get_or payload 2 0 != 0;
      identity_key_provisioned = false;
    }
    else err framing

-- What wolfSPDM_Infineon_GetStatus reads from the payload.
unfoldable pub infineon_status : Bytes → Result InfineonStatus
infineon_status payload =
    if ltb (length payload) 4
    then err framing
    else ok record {
      spdm_enabled = true;
      session_active = false;
      spdm_only_locked = get_or payload 3 0 != 0;
      spdm_only_pending = get_or payload 3 0 == 0x81;
      psk_provisioned = get_or payload 2 0 != 0;
    }

module _ (env : Env) where
  -- wolfSPDM_Nuvoton_GetStatus; the status stays zero where there is an error.
  unfoldable pub nuvoton_get_status : M NuvotonStatus
  nuvoton_get_status = do
    payload ← vendor_cmd_clear env (codes "GET_STS_") (0 ∷ 0 ∷ 0 ∷ 0 ∷ [])
    lift (nuvoton_status payload)

  -- wolfSPDM_Nations_GetStatus; the status stays zero where there is an error.
  unfoldable pub nations_get_status : M NationsStatus
  nations_get_status = do
    payload ← vendor_cmd_clear env (codes "GET_STS_") []
    lift (nations_status payload)

  -- wolfSPDM_Infineon_GetStatus; the status stays zero where there is an error.
  unfoldable pub infineon_get_status : M InfineonStatus
  infineon_get_status = do
    payload ← vendor_cmd_clear env (codes "GET_STS_") []
    lift (infineon_status payload)

  -- wolfSPDM_Nuvoton_SetOnlyMode, wolfSPDM_Nations_SetOnlyMode and wolfSPDM_Infineon_SetOnlyMode,
  -- which are the same function but for the debug output.
  unfoldable pub set_only_mode : Bool → M (Unit {0})
  set_only_mode lock = do
    state ← gets λ c. c.state
    fail_if (state != state_connected) not_connected
    vendor_cmd_secured env (codes "SPDMONLY")
        ((if lock then spdmonly_lock else spdmonly_unlock) ∷ [])

  -- wolfSPDM_Nations_PskSet and wolfSPDM_Infineon_PskSet: the answer's content is not looked at.
  unfoldable pub psk_set : Bytes → M (Unit {0})
  psk_set psk = do
    fail_if (length psk == 0) invalid_arg
    rx ← vendor_cmd_clear_raw env (codes "PSK_SET_") psk
    pure tt

  -- wolfSPDM_Nations_PskClear and wolfSPDM_Infineon_PskClear.
  unfoldable pub psk_clear : Bytes → M (Unit {0})
  psk_clear clear_auth = do
    fail_if (length clear_auth == 0) invalid_arg
    rx ← vendor_cmd_clear_raw env (codes "PSK_CLR_") clear_auth
    pure tt

  -- wolfSPDM_Nations_PskClearWithVCA and wolfSPDM_Infineon_PskClearWithVCA.
  unfoldable pub psk_clear_with_vca : Bytes → M (Unit {0})
  psk_clear_with_vca clear_auth = do
    fail_if (length clear_auth == 0) invalid_arg
    get_version env
    tcg_get_capabilities env vca_caps_flags_psk
    tcg_negotiate_algorithms env
    psk_clear clear_auth
