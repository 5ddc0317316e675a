-- ===== src/Responder/Promotion/Message.antt =====
-- A session begins with a finish, and with nothing else: wolfSPDM_RespHandleMessage
-- (src/spdm_responder.c).
use wolf_spdm.Base.{
  ℕ, ◌-◌, ◌≡◌, refl, ap, ◌∙◌, subst, ◌≢◌, inl, inr, false, arith, ltb, ◌==◌, if◌then◌else◌,
  Bool-cases,
}
use wolf_spdm.Responder.Dispatch.{
  check_frame, handle_message, dispatch_clear, frame_payload, dispatch_secured, take_frame,
}
use wolf_spdm.Context.{Env, Bytes, ok}
use wolf_spdm.Responder.{Tpm, Resp, R}
use wolf_spdm.Bytes.{get16be}
use wolf_spdm.Types.{tcg_tag_clear, tcg_tag_secured, tcg_header_size, state_connected, max_msg_size}
use wolf_spdm.Responder.Follows.{run_cases}
use wolf_spdm.Responder.Clear.{resp_decrypt}
use wolf_spdm.Responder.Promotion.{Promotes}
use wolf_spdm.Responder.Gate.{handle_message-Gated}
use wolf_spdm.Responder.Promotion.Dispatch.{dispatch_secured-Promotes}

pub check_frame-still : (buf : Bytes) (r : Resp) → (check_frame buf r).1 ≡ r
unfolding check_frame
check_frame-still buf r = ground arith

-- The dispatcher of a frame.
abbrev dispatch : Env → Tpm → Bytes → ℕ → R Bytes
dispatch env tpm buf room =
    if get16be buf == tcg_tag_clear
    then dispatch_clear env tpm (frame_payload buf) (room - tcg_header_size)
    else dispatch_secured env tpm (frame_payload buf) (room - tcg_header_size)

-- A frame that began a session passed the guards, and what it left is what its dispatcher left.
handle_message-dispatch :
    (env : Env) (tpm : Tpm) (buf : Bytes) (room : ℕ) (r : Resp)
    → r.ctx.state ≢ state_connected
    → (handle_message env tpm buf room r).1.ctx.state ≡ state_connected
    → (check_frame buf r ≡ (ok tt, r))
      × ((handle_message env tpm buf room r).1
          ≡ (dispatch env tpm buf room (record r { ctx = take_frame buf r.ctx })).1)
unfolding handle_message take_frame
handle_message-dispatch env tpm buf room r before after =
    let w : Resp = record r { ctx = take_frame buf r.ctx } in
    let still = check_frame-still buf r in
    elim (run_cases (check_frame buf r)) [
      | inr (e, run) ↦ absurd (before (ground arith))
      | inl (u, run) ↦ elim (Bool-cases (ltb room tcg_header_size)) [
        | inl small ↦ absurd (before (ground arith))
        | inr fits ↦ elim (run_cases (dispatch env tpm buf room w)) [
          | inl (out, ran) ↦ (ground arith, ground arith)
          | inr (e, ran) ↦ (ground arith, ground arith)
        ]
      ]
    ]

check_frame-tag :
    (buf : Bytes) (r : Resp)
    → check_frame buf r ≡ (ok tt, r)
    → (get16be buf == tcg_tag_clear) ≡ false
    → get16be buf ≡ tcg_tag_secured
unfolding check_frame
check_frame-tag buf r run other = ground arith

-- If a frame takes the responder into a session, then the frame is a secured one, came in the state
-- KEY_EX, and is a record that decrypted, under the requester's keys, to a message with the code
-- FINISH if KEY_EXCHANGE opened that state and PSK_FINISH if PSK_EXCHANGE did, and with the HMAC,
-- under the requester's finished key, of the SHA-384 of the transcript with the message's first four
-- bytes; and the session counts as authenticated by the identity key exactly if KEY_EXCHANGE opened
-- it.
pub handle_message-Promotes :
    (env : Env) (tpm : Tpm) (buf : Bytes) (room : ℕ) (r : Resp)
    → r.ctx.state ≢ state_connected
    → (handle_message env tpm buf room r).1.ctx.state ≡ state_connected
    → (get16be buf ≡ tcg_tag_secured)
      × (plain : Bytes) × ((resp_decrypt env
            (frame_payload buf)
            max_msg_size
            (take_frame buf r.ctx)).0
          ≡ ok plain)
      × Promotes env r (handle_message env tpm buf room r).1 plain
unfolding take_frame
handle_message-Promotes env tpm buf room r before after =
    let w : Resp = record r { ctx = take_frame buf r.ctx } in
    let (guarded, left_) = handle_message-dispatch env tpm buf room r before after in
    let began = subst (λ s. s.ctx.state ≡ state_connected) left_ after in
    elim (Bool-cases (get16be buf == tcg_tag_clear)) [
      | inl clear ↦
          let x = (handle_message-Gated env tpm buf room r (ground arith)).calm after in
          absurd (before x)
      | inr other ↦
          let secured = rw other at began in
          let (plain, run, p) =
            dispatch_secured-Promotes env tpm (frame_payload buf) (room - tcg_header_size) w before
              secured in
          (
            check_frame-tag buf r guarded other,
            plain,
            run,
            record {
              from_key_ex = p.from_key_ex;
              code = p.code;
              finished = record {
                th2 = p.finished.th2;
                whole = p.finished.whole;
                hashed = p.finished.hashed;
                proved = p.finished.proved;
              };
              session_asym = ap (λ s. s.session_asym) left_ ∙ ((rw other refl) ∙ p.session_asym);
            },
          )
    ]
