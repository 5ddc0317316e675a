-- ===== src/Tcg/Ends.antt =====
-- How wolfSPDM_ConnectTCG ends (src/spdm_tcg.c).
use wolf_spdm.Base.{◌≡◌, ◌⊎◌, inl, inr, arith}
use wolf_spdm.Types.{
  nuvoton, nations, tcg, auto, nations_psk, Mode, Error, state_connected, state_error, state_init,
}
use wolf_spdm.Tcg.Handshake.{connect_tcg, tcg_negotiate}
use wolf_spdm.Standard.Connect.{connect_step}
use wolf_spdm.Context.{Env, M, Ctx, ok, err, Outcome-cases}
use wolf_spdm.Session.{get_version}
use wolf_spdm.Transcript.{transcript_reset}

tcg_negotiate-error :
    (env : Env) (mode : Mode) (c d : Ctx) (e : Error)
    → tcg_negotiate env mode c ≡ (err e, d)
    → d.state ≡ state_error
unfolding tcg_negotiate connect_step
tcg_negotiate-error env auto c d e run = ground arith
tcg_negotiate-error env nuvoton c d e run = absurd (ground arith)
tcg_negotiate-error env nations c d e run = ground arith
tcg_negotiate-error env nations_psk c d e run = ground arith
tcg_negotiate-error env tcg c d e run = ground arith

-- connect_tcg that has started ends in the state CONNECTED if it succeeds and in the state ERROR if
-- it fails, whichever of its steps failed; a guard that refuses it leaves the context unchanged.
pub connect_tcg-state :
    (env : Env) (validate : M (Unit {0})) (c : Ctx)
    → let p = connect_tcg env validate c in
      (p.0 ≡ ok tt → p.1.state ≡ state_connected)
      × ((e : Error) → p.0 ≡ err e → (p.1.state ≡ state_error) ⊎ (p.1 ≡ c))
unfolding connect_tcg connect_step
connect_tcg-state env validate c =
    let d =
      (connect_step (get_version env) (transcript_reset (record c { state = state_init }))).1 in
    elim (Outcome-cases (tcg_negotiate env c.mode d)) [
      | inl (_, d1, run) ↦ (ground arith, ground arith)
      | inr (x, d1, run) ↦
          let bad = tcg_negotiate-error env c.mode d d1 x run in (ground arith, ground arith)
    ]
