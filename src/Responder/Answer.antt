-- ===== src/Responder/Answer.antt =====
-- GET_VERSION at the responder (wolfSPDM_RespHandleMessage of src/spdm_responder.c).
use wolf_spdm.Types.Code
use wolf_spdm.Base.{ℕ, ◌+◌, ◌≤◌, ◌≡◌, [], ◌∷◌, ◌++◌, arith, length, get_or, ◌-◌, drop, refl}
use wolf_spdm.Context.{Bytes, Env, ok}
use wolf_spdm.Responder.Dispatch.{
  dispatch_clear, clear_version, clear_selected, mode_off, handshake_live, clear_answer,
  handle_message, check_frame, frame_payload, take_frame,
}
use wolf_spdm.Responder.{Resp, resp_reset, Tpm}
use wolf_spdm.Transcript.{transcript_reset, transcript_add, overflows}
use wolf_spdm.Types.{state_version, max_transcript, tcg_tag_clear, tcg_header_size}
use wolf_spdm.Responder.Clear.{build_version, version_entries}
use wolf_spdm.Crypto.{free_ephemeral_key}
use wolf_spdm.Bytes.{get16be, set16be, set32be}
use wolf_spdm.Responder.Promotion.Message.{check_frame-still}
use wolf_spdm.Transport.{write_tcg_header}

-- The responder after GET_VERSION `buf` and its answer `out`.
abbrev restarted : Bytes → Bytes → Resp → Resp
restarted buf out r =
    let s = resp_reset (record r { ctx = transcript_reset r.ctx }) in
    record s {
      ctx = record (s.ctx) { transcript = buf ++ out; spdm_version = 0; state = state_version };
    }

-- VERSION with the versions 1.2 and 1.3.
abbrev pub version_rsp : Bytes
version_rsp = 0x10 ∷ 0x04 ∷ 0 ∷ 0 ∷ 0 ∷ 2 ∷ 0 ∷ 0x12 ∷ 0 ∷ 0x13 ∷ []

get_version_restarts :
    (env : Env) (tpm : Tpm) (buf : Bytes) (room : ℕ) (r : Resp)
    → 2 ≤ length buf
    → length buf + 10 ≤ max_transcript
    → get_or buf 1 0 ≡ Code.get_version
    → 10 ≤ room
    → dispatch_clear env tpm buf room r ≡ (ok version_rsp, restarted buf version_rsp r)
unfolding dispatch_clear clear_version clear_selected mode_off handshake_live clear_answer
    build_version version_entries transcript_add overflows resp_reset transcript_reset
    free_ephemeral_key
get_version_restarts env tpm buf room r whole space code enough = ground arith

restarted_session : (buf out : Bytes) (r : Resp) → (restarted buf out r).ctx.session_id ≡ 0
unfolding resp_reset transcript_reset free_ephemeral_key
restarted_session buf out r = refl

drop_header :
    (tag total handle fips : ℕ) (out : Bytes)
    → drop tcg_header_size (write_tcg_header tag total handle fips ++ out) ≡ out
unfolding write_tcg_header set16be set32be
drop_header tag total handle fips out = refl

-- Whatever state the responder is in, a clear frame with GET_VERSION that passes the guards on frames,
-- holds at least two bytes and leaves room in the transcript is answered, if the buffer has room for
-- the answer: with VERSION 1.2 and 1.3, and a responder in the state VERSION, with no version and no
-- session, and a transcript of the request and the answer.
pub get_version_answered :
    (env : Env) (tpm : Tpm) (buf : Bytes) (room : ℕ) (r : Resp)
    → (check_frame buf r).0 ≡ ok tt
    → get16be buf ≡ tcg_tag_clear
    → 2 ≤ length (frame_payload buf)
    → length (frame_payload buf) + 10 ≤ max_transcript
    → get_or (frame_payload buf) 1 0 ≡ Code.get_version
    → tcg_header_size + 10 ≤ room
    → (out : Bytes) × (s : Resp) × (handle_message env tpm buf room r ≡ (ok out, s))
      × (drop tcg_header_size out ≡ version_rsp)
      × (s.ctx.state ≡ state_version)
      × (s.ctx.spdm_version ≡ 0)
      × (s.ctx.session_id ≡ 0)
      × (s.ctx.transcript ≡ frame_payload buf ++ version_rsp)
unfolding handle_message
get_version_answered env tpm buf room r passes tag whole space code enough =
    let w : Resp = record r { ctx = take_frame buf r.ctx } in
    let p = frame_payload buf in
    let still = check_frame-still buf r in
    let run =
      get_version_restarts env tpm p (room - tcg_header_size) w whole space code (omega arith) in
    let s = restarted p version_rsp w in
    let header =
      write_tcg_header (get16be buf) (tcg_header_size + length version_rsp)
        s.ctx.wire.connection_handle s.ctx.wire.fips_indicator in
    (
      header ++ version_rsp,
      s,
      ground arith,
      drop_header (get16be buf) (tcg_header_size + length version_rsp) s.ctx.wire.connection_handle
          s.ctx.wire.fips_indicator version_rsp,
      refl,
      refl,
      restarted_session p version_rsp w,
      refl,
    )
