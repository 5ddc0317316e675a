-- ===== src/Chunk/Send.antt =====
-- The messages and the loop of wolfSPDM_ChunkSend (src/spdm_chunk.c).
use wolf_spdm.Context.{Bytes, Ctx, ok, Env, Outcome-cases, bind_err, bind_ok}
use wolf_spdm.Base.{
  ℕ, zero, suc, ◌+◌, ◌-◌, ◌^◌, ◌≤◌, ◌<◌, ◌≡◌, Bool, false, none, arith, length, length-take,
  length-drop, ◌≢◌, inl, inr, some, ◌==◌, drop,
}
use wolf_spdm.Chunk.{
  chunk_send_ack, chunk_take, chunk_send_msg, chunk_set_seq, chunk_peer_error, chunk_copy_out,
  chunk_hdr_size, chunk_send_loop, chunk_send_round, chunk_xfer,
}
use wolf_spdm.Bytes.{set32le, set16le}
use wolf_spdm.Types.{data_transfer_size_max}

length-chunk_send_msg :
    (version handle : ℕ) (req : Bytes) (sent seq n : ℕ)
    → n ≤ length req - sent
    → length (chunk_send_msg version handle req sent seq n) ≡ chunk_hdr_size seq + n
unfolding chunk_send_msg chunk_set_seq set32le set16le
length-chunk_send_msg version handle req sent seq n fits =
    let part = length-take n (drop sent req) in
    let rest = length-drop sent req in ground (arith, part, rest)

-- Each CHUNK_SEND message fits the limit, and while bytes are left it carries at least one of them
-- and no more than are left, on a limit that holds the largest header and is a word32.
pub chunk_take_fits :
    (version handle limit : ℕ) (req : Bytes) (sent seq : ℕ)
    → 16 < limit
    → limit < 2 ^ 32
    → sent < length req
    → let n = chunk_take limit (length req) sent seq in
      (length (chunk_send_msg version handle req sent seq n) ≤ limit)
      × (0 < n)
      × (sent + n ≤ length req)
unfolding chunk_take
chunk_take_fits version handle limit req sent seq low high left =
    let n = chunk_take limit (length req) sent seq in
    let small : n ≤ length req - sent = ground arith in
    let size = length-chunk_send_msg version handle req sent seq n small in rw size (ground arith)

chunk_send_ack-more :
    (version handle seq : ℕ) (all_sent : Bool) (room : ℕ) (ack : Bytes) (c c' : Ctx)
    → chunk_send_ack version handle seq all_sent room ack c ≡ (ok none, c')
    → all_sent ≡ false
unfolding chunk_send_ack chunk_peer_error chunk_copy_out
chunk_send_ack-more version handle seq all_sent room ack c c' e = ground arith

chunk_send_round-more :
    (env : Env) (secured : Bool) (limit handle : ℕ) (req : Bytes) (room sent seq : ℕ) (c c' : Ctx)
    → chunk_send_round env secured limit handle req room sent seq c ≡ (ok none, c')
    → sent + chunk_take limit (length req) sent seq == length req ≡ false
unfolding chunk_send_round
chunk_send_round-more env secured limit handle req room sent seq c c' e =
    let n = chunk_take limit (length req) sent seq in
    elim (Outcome-cases (
      chunk_xfer env secured (chunk_send_msg c.spdm_version handle req sent seq n)
        data_transfer_size_max c)) [
          | inl (ack, d, run) ↦
              chunk_send_ack-more c.spdm_version handle seq (sent + n == length req) room ack d c'
                (ground arith)
          | inr (e', d, run) ↦ absurd (ground arith)
        ]

-- The loop of chunk_send comes to a response or to an error, whatever the peer answers: fuel for as
-- many rounds as there are bytes left is enough, on a limit above the largest header that is a
-- word32, while bytes are left.
pub chunk_send_loop_ends :
    (env : Env) (f : ℕ) (secured : Bool) (limit handle : ℕ) (req : Bytes) (room sent seq : ℕ)
    (c : Ctx)
    → 16 < limit
    → limit < 2 ^ 32
    → sent < length req
    → length req ≤ sent + f
    → (chunk_send_loop env f secured limit handle req room sent seq c).0 ≢ ok none
unfolding chunk_send_loop
chunk_send_loop_ends env zero secured limit handle req room sent seq c low high left fuel =
    absurd (omega arith)
chunk_send_loop_ends env (suc f) secured limit handle req room sent seq c low high left fuel =
    let round = chunk_send_round env secured limit handle req room sent seq in
    let n = chunk_take limit (length req) sent seq in
    elim (Outcome-cases (round c)) [
      | inr (e, d, run) ↦ rw (bind_err round _ c d e run) (ground arith)
      | inl (some rsp, d, run) ↦ rw (bind_ok round _ c d (some rsp) run) (ground arith)
      | inl (none, d, run) ↦
          let more = chunk_send_round-more env secured limit handle req room sent seq c d run in
          let (fits, some_, within) = chunk_take_fits 0 handle limit req sent seq low high left in
          rw (bind_ok round _ c d none run) (
            chunk_send_loop_ends env f secured limit handle req room (sent + n) (seq + 1) d low high
              (ground arith) (omega arith))
    ]
