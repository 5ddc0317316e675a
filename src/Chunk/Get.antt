-- ===== src/Chunk/Get.antt =====
-- The loop of wolfSPDM_ChunkGet (src/spdm_chunk.c).
use wolf_spdm.Context.{Bytes, Ctx, ok, Env, Outcome-cases, bind_err, bind_ok}
use wolf_spdm.Base.{
  ℕ, zero, suc, ◌+◌, ◌≤◌, ◌<◌, ◌≡◌, ◌≢◌, inl, inr, Bool, true, false, none, some, arith, length,
  min, [],
}
use wolf_spdm.Chunk.{
  chunk_get_round, chunk_get_loop, chunk_peer_error, chunk_accept, chunk_xfer, chunk_get_msg,
  chunk_get,
}
use wolf_spdm.Types.{data_transfer_size_max, max_msg_size}
use wolf_spdm.Chunk.Ends.{chunk_accept-progress}

-- The loop's invariant: nothing is taken before the first chunk, and later more is to come of a
-- total that the buffer holds.
abbrev Pending : ℕ → ℕ → ℕ → Bytes → Type 0
Pending room seq total acc =
    (seq ≡ 0 → length acc ≡ 0) × (0 < seq → (length acc < total) × (total ≤ room))

chunk_get_round-accept :
    (env : Env) (secured : Bool) (handle room total : ℕ) (acc : Bytes) (seq : ℕ) (c : Ctx)
    {got : ℕ × Bytes × Bool} {c' : Ctx}
    → chunk_get_round env secured handle room total acc seq c ≡ (ok got, c')
    → (msg : Bytes) × (chunk_accept c.spdm_version handle room seq total acc msg ≡ ok got)
unfolding chunk_get_round chunk_peer_error
chunk_get_round-accept env secured handle room total acc seq c e =
    elim (Outcome-cases
      (chunk_xfer env secured (chunk_get_msg c.spdm_version handle seq) data_transfer_size_max c)) [
        | inl (msg, d, run) ↦ (msg, ground arith)
        | inr (e', d, run) ↦ absurd (ground arith)
      ]

chunk_get_loop-ends :
    (env : Env) (f : ℕ) (secured : Bool) (handle room total : ℕ) (acc : Bytes) (seq : ℕ) (c : Ctx)
    → Pending room seq total acc
    → room < f + length acc
    → ((chunk_get_loop env f secured handle room total acc seq c).0 ≢ ok none)
      × ((out : Bytes)
          → (chunk_get_loop env f secured handle room total acc seq c).0 ≡ ok (some out)
          → length out ≤ room)
unfolding chunk_get_loop
chunk_get_loop-ends env zero secured handle room total acc seq c pending fuel =
    absurd (ground arith)
chunk_get_loop-ends env (suc f) secured handle room total acc seq c pending fuel =
    let round = chunk_get_round env secured handle room total acc seq in
    elim (Outcome-cases (round c)) [
      | inr (e, d, run) ↦ rw (bind_err round _ c d e run) (ground arith)
      | inl ((total', acc', true), d, run) ↦
          let (msg, took) = chunk_get_round-accept env secured handle room total acc seq c run in
          let step =
            chunk_accept-progress c.spdm_version handle room seq total acc msg total' acc' true
              took in
          rw (bind_ok round _ c d (total', acc', true) run) (ground (arith, step))
      | inl ((total', acc', false), d, run) ↦
          let (msg, took) = chunk_get_round-accept env secured handle room total acc seq c run in
          let step =
            chunk_accept-progress c.spdm_version handle room seq total acc msg total' acc' false
              took in
          rw (bind_ok round _ c d (total', acc', false) run) (
            chunk_get_loop-ends env f secured handle room total' acc' (seq + 1) d
              (ground (arith, step)) (ground (arith, step)))
    ]

-- chunk_get comes to an answer or to an error on its fuel, whatever the peer sends, and a message
-- that it reassembles is within the caller's buffer and within the MaxSPDMmsgSize advertised.
pub chunk_get_bounded :
    (env : Env) (secured : Bool) (handle room : ℕ) (c : Ctx)
    → ((chunk_get_loop env
          (suc (min room max_msg_size))
          secured
          handle
          (min room max_msg_size)
          0
          []
          0
          c).0
        ≢ ok none)
      × ((msg : Bytes)
          → (chunk_get env secured handle room c).0 ≡ ok msg
          → (length msg ≤ room) × (length msg ≤ max_msg_size))
unfolding chunk_get
chunk_get_bounded env secured handle room c =
    let loop =
      chunk_get_loop env (suc (min room max_msg_size)) secured handle (min room max_msg_size) 0 []
        0 in
    let (ends, fits) =
      chunk_get_loop-ends env (suc (min room max_msg_size)) secured handle (min room max_msg_size) 0
        [] 0 c (ground arith) (omega arith) in
    (
      ends,
      λ msg got. elim (Outcome-cases (loop c)) [
        | inr (e, d, run) ↦ absurd (ground arith)
        | inl (none, d, run) ↦ absurd (ground (arith, ends))
        | inl (some out, d, run) ↦ ground (arith, fits out)
      ],
    )
