-- ===== src/Connect/Phases.antt =====
-- What a caller sees of wolfSPDM_Connect and wolfSPDM_Disconnect (src/spdm_context.c): an automaton
-- of three phases that the context refines.
use wolf_spdm.Base.{
  Bool, List, ◌≡◌, ◌⊎◌, inl, inr, true, false, [], ◌∷◌, ◌==◌, if◌then◌else◌, refl, sym, subst,
  arith, ap, ◌&&◌,
}
use wolf_spdm.Context.{Ctx, Result, Env, M, ok, err, Result-cases, Outcome-cases}
use wolf_spdm.Types.{
  state_connected, Error, state_error, Mode, auto, nuvoton, nations, nations_psk, tcg, state_init,
}
use wolf_spdm.Standard.Chain.{Asn, validate_cert_chain}
use wolf_spdm.Connect.{connect_any}
use wolf_spdm.Tcg.Handshake.{connect_tcg}
use wolf_spdm.Lifecycle.{connect_mode, connect, disconnect, reset_session, attest_free}
use wolf_spdm.Psk.{connect_psk}
use wolf_spdm.Standard.Connect.{connect_standard}
use wolf_spdm.Standard.Connect.Ends.{connect_standard-state}
use wolf_spdm.Psk.Once.{connect_psk-state}
use wolf_spdm.Tcg.Ends.{connect_tcg-state}
use wolf_spdm.Lifecycle.Teardown.{disconnect_wipes}
use wolf_spdm.Crypto.{free_ephemeral_key}

pub data Phase : Type 0 where
  idle live broken : Phase

abbrev pub phase : Ctx → Phase
phase c =
    if c.state == state_connected then live else (if c.state == state_error then broken else idle)

pub data Op : Type 0 where
  connecting disconnecting : Op

-- A context on which a connection can start.
abbrev pub ready : Ctx → Bool
ready c = c.initialized && c.wire.has_io

-- A call, whether the context was ready and whether it reports success, and the phases before and after
-- it.
pub data Move : Op → Bool → Bool → Phase → Phase → Type 0 where
  opens : (p : Phase) → Move connecting true true p live
  fails : (p : Phase) → Move connecting true false p broken
  drops : (p : Phase) → Move connecting true false p idle
  refuses : (p : Phase) → Move connecting false false p p
  closes : (w b : Bool) (p : Phase) → Move disconnecting w b p idle

-- What a caller notes of a call: which it was, whether the context was ready for a connection, whether
-- it reported success, and the phase after it.
pub record Note : Type 0 where
  pub op : Op
  pub was_ready : Bool
  pub reported : Bool
  pub phase : Phase

-- From the phase `p` on, the notes are moves of the automaton.
abbrev pub Moves : Phase → List Note → Type 0
Moves p [] = Unit {0}
Moves p (note ∷ notes) =
    Move note.op note.was_ready note.reported p note.phase × Moves note.phase notes

abbrev pub is_ok : Result (Unit {0}) → Bool
is_ok (ok a) = true
is_ok (err e) = false

abbrev pub call : Env → Asn → Op → M (Unit {0})
call env asn connecting = connect_any env asn
call env asn disconnecting = disconnect env

-- The notes of a sequence of calls.
abbrev pub calls : Env → Asn → List Op → Ctx → List Note
calls env asn [] c = []
calls env asn (op ∷ ops) c =
    let p = call env asn op c in
    record { op = op; was_ready = ready c; reported = is_ok p.0; phase = phase p.1 }
    ∷ calls env asn ops p.1

-- How a handshake that wolfSPDM_Connect dispatches to ends.
record Ends (m : M (Unit {0})) : Type 0 where
  connected : (c : Ctx) → (m c).0 ≡ ok tt → (m c).1.state ≡ state_connected
  stopped : (c : Ctx) (e : Error) → (m c).0 ≡ err e → ((m c).1.state ≡ state_error) ⊎ ((m c).1 ≡ c)

module _ (env : Env) (asn : Asn) where
  standard-Ends : Ends (connect_standard env asn)
  standard-Ends = record {
    connected = λ c. (connect_standard-state env asn c).0;
    stopped = λ c e failed. inl ((connect_standard-state env asn c).1 e failed);
  }

  psk-Ends : Ends (connect_psk env)
  psk-Ends = record {
    connected = λ c. (connect_psk-state env c).0;
    stopped = λ c e failed. elim ((connect_psk-state env c).1 e failed) [
      | inl bad ↦ inl bad
      | inr (same, why) ↦ inr same
    ];
  }

  tcg-Ends : Ends (connect_tcg env (validate_cert_chain env asn))
  tcg-Ends = record {
    connected = λ c. (connect_tcg-state env (validate_cert_chain env asn) c).0;
    stopped = λ c. (connect_tcg-state env (validate_cert_chain env asn) c).1;
  }

  mode-Ends :
      (mode : Mode)
      → Ends (
          connect_mode
            (connect_tcg env (validate_cert_chain env asn))
            (connect_psk env)
            (connect_standard env asn)
            mode)
  unfolding connect_mode
  mode-Ends auto = standard-Ends
  mode-Ends nuvoton = tcg-Ends
  mode-Ends nations = tcg-Ends
  mode-Ends nations_psk = psk-Ends
  mode-Ends tcg = tcg-Ends

  reset_session-state : (c : Ctx) → (reset_session c).state ≡ state_init
  unfolding reset_session attest_free free_ephemeral_key
  reset_session-state c = refl

  connect_any-ends :
      (c : Ctx)
      → let p = connect_any env asn c in
        (p.0 ≡ ok tt → (ready c ≡ true) × (p.1.state ≡ state_connected))
        × ((e : Error)
            → p.0 ≡ err e
            → ((ready c ≡ true) × ((p.1.state ≡ state_error) ⊎ (p.1.state ≡ state_init)))
              ⊎ ((ready c ≡ false) × (p.1.state ≡ c.state)))
  unfolding connect_any connect
  connect_any-ends c =
      let mode_ends = mode-Ends c.mode in
      let done = mode_ends.connected (reset_session c) in
      let stopped = mode_ends.stopped (reset_session c) in
      let reset = reset_session-state c in
      let run =
        connect_mode (connect_tcg env (validate_cert_chain env asn)) (connect_psk env)
          (connect_standard env asn) c.mode (reset_session c) in
      elim (Outcome-cases run) [
        | inl (_, d, ran) ↦ (λ good. (ground arith, ground arith), λ e bad. ground arith)
        | inr (x, d, ran) ↦
            let ending = stopped x (ap (λ o. o.0) ran) in
            (λ good. (ground arith, ground arith), λ e bad. ground arith)
      ]

  -- A connection from this phase that ended like that.
  abbrev Connecting : Phase → Bool → Result (Unit {0}) → Phase → Type 0
  Connecting p w r q = Move connecting w (is_ok r) p q

  connect_any-Move :
      (c : Ctx)
      → Connecting (phase c) (ready c) (connect_any env asn c).0 (phase (connect_any env asn c).1)
  connect_any-Move c =
      let (done, stopped) = connect_any-ends c in
      let p = connect_any env asn c in
      let before = phase c in
      elim (Result-cases p.0) [
        | inl (_, is_done) ↦
            let (w, state) = done is_done in
            let after : phase p.1 ≡ live = ground arith in rw (w, is_done, after) (opens before)
        | inr (e, is_err) ↦ elim (stopped e is_err) [
          | inl (w, inl state) ↦
              let after : phase p.1 ≡ broken = ground arith in rw (w, is_err, after) (fails before)
          | inl (w, inr state) ↦
              let after : phase p.1 ≡ idle = ground arith in rw (w, is_err, after) (drops before)
          | inr (w, state) ↦
              let after : phase p.1 ≡ before = ground arith in
              rw (w, is_err, after) (refuses before)
        ]
      ]

  call-Move :
      (op : Op) (c : Ctx)
      → Move op (ready c) (is_ok (call env asn op c).0) (phase c) (phase (call env asn op c).1)
  call-Move connecting c = connect_any-Move c
  call-Move disconnecting c =
      let state = (disconnect_wipes env c).0 in
      let after : phase (disconnect env c).1 ≡ idle = ground arith in
      subst (Move disconnecting (ready c) (is_ok (disconnect env c).0) (phase c)) (sym after)
        (closes _ _ (phase c))

  -- Any sequence of calls of connect_any and disconnect, with what each reports and the phase that it
  -- leaves, is a run of the automaton: a call of connect_any on a context that is initialized and has
  -- an I/O callback leaves the phase live if it reports success, and broken or idle, whatever it was
  -- before, if it reports a failure; on any other context it reports a failure and leaves the phase;
  -- a call of disconnect leaves it idle, whatever it reports.
  pub calls-Moves : (ops : List Op) (c : Ctx) → Moves (phase c) (calls env asn ops c)
  calls-Moves [] c = tt
  calls-Moves (op ∷ ops) c = (call-Move op c, calls-Moves ops (call env asn op c).1)
