-- ===== src/Tests/Vendors.antt =====
-- The vendor adapters on concrete payloads and contexts.
use wolf_spdm.Base.{◌≡◌, refl, true, false, [], ◌∷◌}
use wolf_spdm.Context.{Bytes, ok, err}
use wolf_spdm.Vendor.{
  psk_set, psk_clear_with_vca, infineon_status, set_only_mode, nations_status, psk_clear,
  nuvoton_status,
}
use wolf_spdm.Tests.{toy_env, toy_ctx}
use wolf_spdm.Types.{framing, state_init, invalid_arg, not_connected}

-- A lock state that is still to be disabled counts as locked; only Infineon's status tells the two
-- apart.
abbrev toy_pending : Bytes
toy_pending = 1 ∷ 3 ∷ 1 ∷ 0x81 ∷ []

toy_nations_pending :
    nations_status toy_pending
    ≡ ok record {
      spdm_enabled = true;
      session_active = false;
      spdm_only_locked = true;
      spdm_only_pending = false;
      psk_provisioned = true;
      identity_key_provisioned = false;
    }
unfolding nations_status
toy_nations_pending = refl

toy_infineon_pending :
    infineon_status toy_pending
    ≡ ok record {
      spdm_enabled = true;
      session_active = false;
      spdm_only_locked = true;
      spdm_only_pending = true;
      psk_provisioned = true;
    }
unfolding infineon_status
toy_infineon_pending = refl

-- Nuvoton's minimal answer is one byte, the lock state; an empty one is an error.
toy_nuvoton_minimal :
    nuvoton_status (1 ∷ [])
    ≡ ok record {
      spdm_enabled = true;
      session_active = false;
      spdm_only_locked = true;
      spec_version_major = 0;
      spec_version_minor = 0;
    }
unfolding nuvoton_status
toy_nuvoton_minimal = refl

toy_nuvoton_empty : nuvoton_status [] ≡ err framing
unfolding nuvoton_status
toy_nuvoton_empty = refl

-- Without a key there is nothing to provision or clear, and the context is as before.
toy_psk_set_empty : psk_set toy_env [] toy_ctx ≡ (err invalid_arg, toy_ctx)
unfolding psk_set
toy_psk_set_empty = refl

toy_psk_clear_empty : psk_clear toy_env [] toy_ctx ≡ (err invalid_arg, toy_ctx)
unfolding psk_clear
toy_psk_clear_empty = refl

toy_psk_clear_with_vca_empty : psk_clear_with_vca toy_env [] toy_ctx ≡ (err invalid_arg, toy_ctx)
unfolding psk_clear_with_vca
toy_psk_clear_with_vca_empty = refl

-- The lock is set over a session only.
toy_set_only_mode :
    set_only_mode toy_env true record toy_ctx { state = state_init }
    ≡ (err not_connected, record toy_ctx { state = state_init })
unfolding set_only_mode
toy_set_only_mode = refl
