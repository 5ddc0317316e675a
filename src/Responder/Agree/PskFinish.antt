-- ===== src/Responder/Agree/PskFinish.antt =====
-- The requester's PSK_FINISH and the responder's answer to it (src/spdm_psk.c,
-- src/spdm_responder.c).
use wolf_spdm.Types.Code
use wolf_spdm.Base.{
  ℕ, ◌+◌, ◌≤◌, ◌≡◌, refl, inl, inr, true, some, [], ◌∷◌, ◌++◌, arith, Option-cases, length, take,
  length-append, take_all,
}
use wolf_spdm.Context.{Bytes, Env, Ctx, ok}
use wolf_spdm.Responder.Exchange.{finish_answer}
use wolf_spdm.Bytes.{same_bytes}
use wolf_spdm.Psk.{parse_psk_finish_rsp, build_psk_finish}
use wolf_spdm.Transcript.{transcript_add, transcript_hash, overflows, sha384_hash}
use wolf_spdm.Types.{hash_size, max_transcript, state_connected, state_finish}
use wolf_spdm.Kdf.{compute_verify_data}

pub same_bytes_refl : (a : Bytes) → same_bytes a a ≡ true
unfolding same_bytes
same_bytes_refl [] = refl
same_bytes_refl (x ∷ a) = let rest = same_bytes_refl a in ground arith

-- The header of PSK_FINISH, and the responder's answer.
abbrev finish_header : ℕ → Bytes
finish_header v = v ∷ Code.psk_finish ∷ 0 ∷ 0 ∷ []

abbrev finish_rsp_bytes : ℕ → Bytes
finish_rsp_bytes v = v ∷ Code.psk_finish_rsp ∷ 0 ∷ 0 ∷ []

-- What build_psk_finish made.
record Built (env : Env) (c c' : Ctx) (msg : Bytes) : Type 0 where
  th2 : Bytes
  verify_data : Bytes
  hashed : env.sha384 ((c.transcript ++ finish_header c.spdm_version) ++ []) ≡ some th2
  proved : env.hmac c.keys.req_finished_key th2 ≡ some verify_data
  sent : msg ≡ finish_header c.spdm_version ++ verify_data
  left_ : c' ≡ record c {
    transcript = (c.transcript ++ finish_header c.spdm_version) ++ verify_data;
    th2 = th2;
  }

build_psk_finish-Built :
    (env : Env) (size : ℕ) (c c' : Ctx) (msg : Bytes)
    → build_psk_finish env size c ≡ (ok msg, c')
    → Built env c c' msg
unfolding build_psk_finish transcript_add transcript_hash sha384_hash compute_verify_data
build_psk_finish-Built env size c c' msg e =
    elim (Option-cases (env.sha384 ((c.transcript ++ finish_header c.spdm_version) ++ []))) [
      | inl q ↦ absurd (ground arith)
      | inr (th2, q) ↦ elim (Option-cases (env.hmac c.keys.req_finished_key th2)) [
        | inl w ↦ absurd (ground arith)
        | inr (verify_data, w) ↦ record {
          th2 = th2;
          verify_data = verify_data;
          hashed = q;
          proved = w;
          sent = ground arith;
          left_ = ground arith;
        }
      ]
    ]

-- The answer to such a message.
finish_answered :
    (env : Env) (v : ℕ) (th2 verify_data : Bytes) (room : ℕ) (d : Ctx)
    → d.spdm_version ≡ v
    → length verify_data ≡ hash_size
    → length d.transcript + 56 ≤ max_transcript
    → 4 ≤ room
    → env.sha384 ((d.transcript ++ finish_header v) ++ []) ≡ some th2
    → env.hmac d.keys.req_finished_key th2 ≡ some verify_data
    → finish_answer env Code.psk_finish_rsp (finish_header v ++ verify_data) room d ≡ (
      ok (finish_rsp_bytes v),
      record d {
        transcript = ((d.transcript ++ finish_header v) ++ verify_data) ++ finish_rsp_bytes v;
        th2 = th2;
        state = state_connected;
      },
    )
unfolding finish_answer transcript_add overflows transcript_hash sha384_hash compute_verify_data
finish_answered env v th2 verify_data room d same full space enough hashed proved =
    let whole : take hash_size verify_data ≡ verify_data =
      take_all hash_size verify_data (omega arith) in
    let eq = same_bytes_refl verify_data in
    let l1 = length-append d.transcript (finish_header v) in
    let l2 = length-append (d.transcript ++ finish_header v) verify_data in ground arith

-- Where the responder has the requester's transcript, finished key and version, the transcript has
-- room for both messages, and HMACs have 48 bytes, the responder takes the PSK_FINISH that the
-- requester built and is connected; the requester takes its answer; and the transcripts, which the
-- application keys are derived from, are the same again.
pub psk_finish_agreement :
    (env : Env) (size room : ℕ) (c c' d : Ctx) (msg : Bytes)
    → ((k m out : Bytes) → env.hmac k m ≡ some out → length out ≡ hash_size)
    → d.transcript ≡ c.transcript
    → d.keys.req_finished_key ≡ c.keys.req_finished_key
    → d.spdm_version ≡ c.spdm_version
    → length c.transcript + 56 ≤ max_transcript
    → 4 ≤ room
    → build_psk_finish env size c ≡ (ok msg, c')
    → (rsp : Bytes) × (d' : Ctx) × (finish_answer env Code.psk_finish_rsp msg room d ≡ (ok rsp, d'))
      × (d'.state ≡ state_connected)
      × (parse_psk_finish_rsp rsp c'
          ≡ (ok tt, record c' { transcript = d'.transcript; state = state_finish }))
unfolding parse_psk_finish_rsp transcript_add overflows
psk_finish_agreement env size room c c' d msg exact transcript key version space enough e =
    let b = build_psk_finish-Built env size c c' msg e in
    let v = c.spdm_version in
    let full = exact c.keys.req_finished_key b.th2 b.verify_data b.proved in
    let answered =
      finish_answered env v b.th2 b.verify_data room d version full (rw transcript space) enough
        (rw transcript b.hashed) (rw key b.proved) in
    let l1 = length-append c.transcript (finish_header v) in
    let l2 = length-append (c.transcript ++ finish_header v) b.verify_data in
    (
      finish_rsp_bytes v,
      record d {
        transcript = ((d.transcript ++ finish_header v) ++ b.verify_data) ++ finish_rsp_bytes v;
        th2 = b.th2;
        state = state_connected;
      },
      rw b.sent answered,
      refl,
      rw (b.left_, transcript) (ground arith),
    )
