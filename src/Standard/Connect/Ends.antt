-- ===== src/Standard/Connect/Ends.antt =====
-- How wolfSPDM_ConnectStandard ends (src/spdm_standard.c).
use wolf_spdm.Base.{◌≡◌, arith}
use wolf_spdm.Standard.Connect.{connect_standard, connect_step}
use wolf_spdm.Context.{Env, Ctx, ok, err}
use wolf_spdm.Standard.Chain.{Asn}
use wolf_spdm.Types.{state_connected, Error, state_error}

-- connect_standard ends in the state CONNECTED if it succeeds and in the state ERROR if it fails,
-- whichever of its steps failed.
pub connect_standard-state :
    (env : Env) (asn : Asn) (c : Ctx)
    → let p = connect_standard env asn c in
      (p.0 ≡ ok tt → p.1.state ≡ state_connected)
      × ((e : Error) → p.0 ≡ err e → p.1.state ≡ state_error)
unfolding connect_standard connect_step
connect_standard-state env asn c = (ground arith, ground arith)
