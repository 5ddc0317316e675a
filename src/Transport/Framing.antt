-- ===== src/Transport/Framing.antt =====
-- The TCG binding's framing (src/spdm_tcg.c).
use wolf_spdm.Context.{Bytes, Ctx, ok, Env}
use wolf_spdm.Base.{
  ℕ, ◌^◌, ◌≤◌, ◌<◌, ◌≡◌, arith, length, length-take, ◌+◌, ◌-◌, refl, ap, ◌∙◌, ◌⊎◌, inl, inr, ◌++◌,
  Bool-cases, drop, length-append, take_all,
}
use wolf_spdm.Transport.{
  tcg_frame, send_receive, tcg_unframe, tcg_send_receive, build_tcg_clear_message, call_io,
  write_tcg_header, tcg_buf_size, is_clear,
}
use wolf_spdm.Bytes.{set16be, set32be, get16be, get32be}
use wolf_spdm.Types.{tcg_header_size, tcg_tag_clear, tcg_tag_secured}

tcg_frame-ok :
    (c : Ctx) (tx framed : Bytes)
    → tcg_frame c tx ≡ ok framed
    → (tag : ℕ) × ((tag ≡ tcg_tag_clear) ⊎ (tag ≡ tcg_tag_secured))
      × (length tx ≤ tcg_buf_size - tcg_header_size)
      × (framed
          ≡ write_tcg_header tag
              (tcg_header_size + length tx)
              c.wire.connection_handle
              c.wire.fips_indicator
            ++ tx)
unfolding tcg_frame build_tcg_clear_message
tcg_frame-ok c tx framed e = elim (Bool-cases (is_clear tx)) [
  | inl clear ↦ (tcg_tag_clear, inl refl, ground arith, ground arith)
  | inr secured ↦ (tcg_tag_secured, inr refl, ground arith, ground arith)
]

length-write_tcg_header :
    (tag total handle fips : ℕ) → length (write_tcg_header tag total handle fips) ≡ 16
unfolding write_tcg_header set16be set32be
length-write_tcg_header tag total handle fips = refl

header_fields :
    (tag total handle fips : ℕ) (tx : Bytes)
    → tag < 2 ^ 16
    → total < 2 ^ 32
    → (get16be (write_tcg_header tag total handle fips ++ tx) ≡ tag)
      × (get32be (drop 2 (write_tcg_header tag total handle fips ++ tx)) ≡ total)
      × (drop 16 (write_tcg_header tag total handle fips ++ tx) ≡ tx)
unfolding write_tcg_header set16be set32be get16be get32be
header_fields tag total handle fips tx small fits = (omega arith, omega arith, refl)

unframe_step :
    (rx tx : Bytes) (room tag : ℕ) (d : Ctx)
    → length rx ≡ 16 + length tx
    → get16be rx ≡ tag
    → (tag ≡ tcg_tag_clear) ⊎ (tag ≡ tcg_tag_secured)
    → get32be (drop 2 rx) ≡ 16 + length tx
    → drop 16 rx ≡ tx
    → length tx ≤ room
    → (tcg_unframe rx room d).0 ≡ ok tx
unfolding tcg_unframe
unframe_step rx tx room tag d len t known total rest enough =
    let n : 16 + length tx - 16 ≡ length tx = omega arith in
    rw (len, t, total, rest, n, take_all (length tx) tx (omega arith)) (ground arith)

-- A message that tcg_frame frames, clear or secured, is the one that tcg_unframe takes out into a
-- buffer with room for it.
pub tcg_unframe-tcg_frame :
    (c d : Ctx) (tx framed : Bytes) (room : ℕ)
    → length tx ≤ room
    → tcg_frame c tx ≡ ok framed
    → (tcg_unframe framed room d).0 ≡ ok tx
tcg_unframe-tcg_frame c d tx framed room enough e =
    let (tag, known, small, shape) = tcg_frame-ok c tx framed e in
    let h =
      write_tcg_header tag (tcg_header_size + length tx) c.wire.connection_handle
        c.wire.fips_indicator in
    let low : tag < 2 ^ 16 = ground arith in
    let (t, total, rest) =
      header_fields tag (tcg_header_size + length tx) c.wire.connection_handle c.wire.fips_indicator
        tx low (omega arith) in
    rw shape (
      unframe_step (h ++ tx) tx room tag d
        (length-append h tx ∙ ap (λ k. k + length tx) (length-write_tcg_header tag _ _ _)) t known
        total rest enough)

-- A response that send_receive returns is within the caller's buffer, framed or not.
pub send_receive_room :
    (env : Env) (tx rx : Bytes) (room : ℕ) (c c' : Ctx)
    → send_receive env tx room c ≡ (ok rx, c')
    → length rx ≤ room
unfolding send_receive tcg_send_receive call_io tcg_unframe
send_receive_room env tx rx room c c' e = grind (arith, length-take)
