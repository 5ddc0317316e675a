-- ===== src/Transport.antt =====
-- wolfSPDM_SendReceive and the TCG framing below it (src/spdm_context.c, src/spdm_tcg.c).
pub mod Framing
use wolf_spdm.Base.{
  ℕ, ◌+◌, ◌-◌, ◌∷◌, ◌++◌, Bool, ◌||◌, ◌&&◌, not, ltb, leb, ◌!=◌, length, take, drop, get_or,
  replicate, none, some, if◌then◌else◌,
}
use wolf_spdm.Types.{
  max_msg_size, aead_overhead, tcg_header_size, tcg_tag_clear, tcg_tag_secured, io_fail,
  buffer_small, peer_error,
}
use wolf_spdm.Context.{
  Bytes, Env, Ctx, Result, ok, err, M, fail_if, modify, lift, pure, is_tcg_mode, ◌>>=◌, ◌>>◌,
}
use wolf_spdm.Bytes.{set16be, set32be, get16be, get32be}

-- wolfSPDM_WriteTcgHeader.
unfoldable pub write_tcg_header : ℕ → ℕ → ℕ → ℕ → Bytes
write_tcg_header tag total_size conn_handle fips =
    set16be tag ++ (set32be total_size ++ (set32be conn_handle ++ (set16be fips ++ replicate 4 0)))

-- wolfSPDM_BuildTcgClearMessage into a buffer of `out_size` bytes.
unfoldable pub build_tcg_clear_message : Ctx → Bytes → ℕ → Result Bytes
build_tcg_clear_message c payload out_size =
    let total_size = tcg_header_size + length payload in
    if ltb out_size total_size
    then err buffer_small
    else ok (
        write_tcg_header tcg_tag_clear total_size c.wire.connection_handle c.wire.fips_indicator
        ++ payload)

-- The buffers `tcgTx` and `tcgRx`.
abbrev pub tcg_buf_size : ℕ
tcg_buf_size = max_msg_size + aead_overhead + tcg_header_size

-- A clear SPDM message starts with a version byte, 0x10 to 0x1F.
unfoldable pub is_clear : Bytes → Bool
is_clear msg = ltb 0 (length msg) && (leb 0x10 (get_or msg 0 0) && leb (get_or msg 0 0) 0x1F)

-- The request side of wolfSPDM_TcgSendReceive: a clear (0x8101) or a secured (0x8201) header.
unfoldable pub tcg_frame : Ctx → Bytes → Result Bytes
tcg_frame c tx =
    if is_clear tx
    then build_tcg_clear_message c tx tcg_buf_size
    else (if ltb (tcg_buf_size - tcg_header_size) (length tx)
        then err buffer_small
        else ok (
            write_tcg_header tcg_tag_secured (tcg_header_size + length tx) c.wire.connection_handle
              c.wire.fips_indicator
            ++ tx))

-- The payload of a framed response, for a buffer of `room` bytes, with the FIPS indicator taken.
unfoldable pub tcg_unframe : Bytes → ℕ → M Bytes
tcg_unframe rx room = do
  fail_if (ltb (length rx) tcg_header_size) buffer_small
  fail_if (get16be rx != tcg_tag_clear && get16be rx != tcg_tag_secured) peer_error
  modify λ c. record c {
    wire = record (c.wire) {
      fips_indicator =
          if get16be (drop 10 rx) != 0 then get16be (drop 10 rx) else c.wire.fips_indicator;
    };
  }
  fail_if (ltb (get32be (drop 2 rx)) tcg_header_size || ltb (length rx) (get32be (drop 2 rx)))
      buffer_small
  fail_if (ltb room (get32be (drop 2 rx) - tcg_header_size)) buffer_small
  pure (take (get32be (drop 2 rx) - tcg_header_size) (drop tcg_header_size rx))

module _ (env : Env) where
  -- One call of `ctx->ioCb`, which may not report more than the buffer of `room` bytes holds.
  unfoldable pub call_io : Bytes → ℕ → M Bytes
  call_io tx room c =
      let c' : Ctx = record c { wire = record (c.wire) { history = tx ∷ c.wire.history } } in
      elim (env.io c.wire.history tx room) [
        | none ↦ (err io_fail, c')
        | some rx ↦ (if ltb room (length rx) then err io_fail else ok rx, c')
      ]

  -- wolfSPDM_TcgSendReceive.
  unfoldable pub tcg_send_receive : Bytes → ℕ → M Bytes
  tcg_send_receive tx room c =
      (do framed ← lift (tcg_frame c tx); rx ← call_io framed tcg_buf_size; tcg_unframe rx room) c

  -- wolfSPDM_SendReceive.
  unfoldable pub send_receive : Bytes → ℕ → M Bytes
  send_receive tx room c =
      if not c.wire.has_io
      then (err io_fail, c)
      else (if is_tcg_mode c.mode then tcg_send_receive tx room c else call_io tx room c)
