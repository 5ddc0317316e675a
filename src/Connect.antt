-- ===== src/Connect.antt =====
-- wolfSPDM_Connect (src/spdm_context.c) over the handshakes of its modes.
pub mod Phases
use wolf_spdm.Context.{Env, M}
use wolf_spdm.Standard.Chain.{Asn, validate_cert_chain}
use wolf_spdm.Lifecycle.{connect}
use wolf_spdm.Tcg.Handshake.{connect_tcg}
use wolf_spdm.Psk.{connect_psk}
use wolf_spdm.Standard.Connect.{connect_standard}

-- wolfSPDM_Connect with the handshakes that it dispatches to.
unfoldable pub connect_any : Env → Asn → M (Unit {0})
connect_any env asn =
    connect (connect_tcg env (validate_cert_chain env asn)) (connect_psk env)
      (connect_standard env asn)
