-- ===== src/Responder/Follows/Message.antt =====
-- A relation that the dispatchers keep is kept by wolfSPDM_RespHandleMessage
-- (src/spdm_responder.c).
use wolf_spdm.Responder
use wolf_spdm.Base.{
  ℕ, ◌+◌, ◌-◌, ◌++◌, arith, ltb, ◌==◌, if◌then◌else◌, length, ◌≡◌, Bool, true, false,
}
use wolf_spdm.Responder.Dispatch.{
  check_frame, handle_message, dispatch_clear, frame_payload, dispatch_secured, take_frame,
}
use wolf_spdm.Responder.{Resp, on_ctx, Tpm, R, gets_resp}
use wolf_spdm.Context.{Bytes, Env, modify, Result, pure, ok, fail_if, err}
use wolf_spdm.Responder.Follows.Absorbs.{Absorbs, before_at}
use wolf_spdm.Responder.Follows.{
  Steady, Follows, Steady-still, Steady-on_ctx, Calm-modify, Steady->>=, Steady-gets, Calm-pure,
  bind, Steady-IsPreorder,
}
use wolf_spdm.Bytes.{get16be}
use wolf_spdm.Types.{tcg_tag_clear, tcg_header_size, buffer_small}
use wolf_spdm.Transport.{write_tcg_header}

check_frame-Steady : (buf : Bytes) → Follows Steady (check_frame buf)
unfolding check_frame
check_frame-Steady buf = Steady-still λ r. ground arith

take_frame-Steady : (buf : Bytes) → Follows Steady (on_ctx (modify (take_frame buf)))
unfolding take_frame
take_frame-Steady buf = Steady-on_ctx (Calm-modify λ c. ground arith)

check_frame-still : (buf : Bytes) (r : Resp) → (check_frame buf r).1 ≡ r
unfolding check_frame
check_frame-still buf r = ground arith

-- The state in which a frame is dispatched.
abbrev pub framed : Bytes → Resp → Resp
framed buf r = record r { ctx = take_frame buf r.ctx }

module _ (Q : Resp → Resp → Type 0) (absorbs : Absorbs Steady Q) (env : Env) (tpm : Tpm)
    (buf : Bytes) (room : ℕ) where
  abbrev pub dispatched : R Bytes
  dispatched =
      if get16be buf == tcg_tag_clear
      then dispatch_clear env tpm (frame_payload buf) (room - tcg_header_size)
      else dispatch_secured env tpm (frame_payload buf) (room - tcg_header_size)

  with_room :
      (b : Bool) (w : Resp) (f : Bytes → R Bytes)
      → Q w (dispatched w).1
      → ((out : Bytes) → Follows Steady (f out))
      → Q w (bind (on_ctx (fail_if b buffer_small)) (λ _. bind dispatched f) w).1
  with_room true w f body after = absorbs.embed w w (Steady-IsPreorder.reflexive w)
  with_room false w f body after = before_at Steady Q absorbs w dispatched f body after

  framed_run :
      (p : Result (Unit {0}) × Resp) (r : Resp) (f : Resp → Result Bytes × Resp)
      → p.1 ≡ r
      → Q (framed buf r) (f (framed buf r)).1
      → Q r (bind (λ _. p) (λ _ s. f (framed buf s)) r).1
  framed_run (ok a, s) r f still body =
      absorbs.left r (framed buf r) (f (framed buf s)).1 ((take_frame-Steady buf).follows r)
        (rw still body)
  framed_run (err e, s) r f still body =
      rw still (absorbs.embed r r (Steady-IsPreorder.reflexive r))

  pub handle_message-Follows :
      (r : Resp)
      → Q (framed buf r) (dispatched (framed buf r)).1
      → Q r (handle_message env tpm buf room r).1
  unfolding handle_message
  handle_message-Follows r body =
      let close = λ (out : Bytes). Responder.◌>>=◌ (gets_resp λ r. r.ctx.wire) λ wire. on_ctx (
        pure (
          write_tcg_header (get16be buf) (tcg_header_size + length out) wire.connection_handle
            wire.fips_indicator
          ++ out)) in
      framed_run (check_frame buf r) r
        (bind (on_ctx (fail_if (ltb room tcg_header_size) buffer_small))
          (λ _. bind dispatched close))
        (check_frame-still buf r)
        (with_room (ltb room tcg_header_size) (framed buf r) close body λ out.
          Steady->>= (Steady-gets {f = λ r. r.ctx.wire}) λ wire. Steady-on_ctx (
            Calm-pure
              {a = write_tcg_header (get16be buf) (tcg_header_size + length out)
                  wire.connection_handle wire.fips_indicator
                ++ out}))
