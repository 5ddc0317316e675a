-- ===== src/Chunk.antt =====
-- src/spdm_chunk.c: CHUNK_SEND and CHUNK_GET transfers of messages that do not fit one record.
-- The two loops run on fuel, and give `none` when it runs out; `chunk_send` and `chunk_get` give
-- them one round more than the bytes that there are to move.
pub mod Ends
pub mod Get
pub mod Send
use wolf_spdm.Base.{
  ℕ, zero, suc, ◌+◌, ◌-◌, ◌%◌, ◌^◌, [], ◌∷◌, ◌++◌, Bool, true, false, ◌||◌, ◌&&◌, not, ltb, leb,
  ◌==◌, ◌!=◌, length, take, drop, get_or, Option, none, some, if◌then◌else◌, min, bit_and,
}
use wolf_spdm.Types.Code
use wolf_spdm.Types.{
  version_14, error_large_response, data_transfer_size_max, max_msg_size, cap_chunk, chunk,
  buffer_small, peer_error,
}
use wolf_spdm.Context.{
  Bytes, Env, Ctx, Result, ok, err, M, ◌>>=◌, ◌>>◌, fail, fail_if, modify, gets, or_fail, lift,
  pure, is_tcg_mode,
}
use wolf_spdm.Bytes.{set16le, get16le, set32le, get32le}
use wolf_spdm.Transport.{send_receive}
use wolf_spdm.Secured.{u16, secured_xfer}

-- wolfSPDM_ChunkOn: both sides set CHUNK_CAP; TCG profiles never chunk.
unfoldable pub chunk_on : Ctx → Bool
chunk_on c = not (is_tcg_mode c.mode) && bit_and c.limits.rsp_caps cap_chunk != 0

-- SPDM_CHUNK_HDR_SZ and SPDM_CHUNK_FIRST_HDR_SZ.
abbrev pub chunk_hdr_size : ℕ → ℕ
chunk_hdr_size seq = if seq == 0 then 16 else 12

-- wolfSPDM_ChunkSeqSz, wolfSPDM_ChunkSetSeq, wolfSPDM_ChunkGetSeq and wolfSPDM_ChunkSeqOk, by the
-- negotiated version.
unfoldable pub chunk_seq_size : ℕ → ℕ
chunk_seq_size version = if leb version_14 version then 4 else 2

unfoldable pub chunk_set_seq : ℕ → ℕ → Bytes
chunk_set_seq version seq = if leb version_14 version then set32le seq else set16le (u16 seq)

unfoldable pub chunk_get_seq : ℕ → Bytes → ℕ
chunk_get_seq version p = if leb version_14 version then get32le p else get16le p

unfoldable pub chunk_seq_ok : ℕ → ℕ → Bool
chunk_seq_ok version seq = leb version_14 version || leb seq 0xFFFF

-- wolfSPDM_ChunkPeerError.
unfoldable pub chunk_peer_error : Bytes → M Bool
chunk_peer_error msg c =
    if leb 4 (length msg) && get_or msg 1 0 == Code.error
    then (ok true, record c { last_peer_error_code = get_or msg 2 0 })
    else (ok false, c)

-- wolfSPDM_ChunkCopyOut.
unfoldable pub chunk_copy_out : Bytes → ℕ → Result Bytes
chunk_copy_out src room = if ltb room (length src) then err buffer_small else ok src

-- An ERROR(LargeResponse): ExtendedErrorData is the chunk handle.
unfoldable pub is_large_response : ℕ → Bytes → Bool
is_large_response version msg =
    leb 5 (length msg)
    && (get_or msg 0 0 == version
        && (get_or msg 1 0 == Code.error && get_or msg 2 0 == error_large_response))

-- word32 subtraction.
abbrev pub sub32 : ℕ → ℕ → ℕ
sub32 a b = (a + 2 ^ 32 - b) % 2 ^ 32

-- How much of the request goes into the chunk with number `seq` after `sent` bytes.
unfoldable pub chunk_take : ℕ → ℕ → ℕ → ℕ → ℕ
chunk_take limit req_size sent seq = min (sub32 limit (chunk_hdr_size seq)) (req_size - sent)

-- One CHUNK_SEND message.
unfoldable pub chunk_send_msg : ℕ → ℕ → Bytes → ℕ → ℕ → ℕ → Bytes
chunk_send_msg version handle req sent seq n =
    version
    ∷ Code.chunk_send
    ∷ (if sent + n == length req then 1 else 0)
    ∷ handle
    ∷ (take 4 (chunk_set_seq version seq ++ (0 ∷ 0 ∷ []))
        ++ (set32le n
            ++ ((if seq == 0 then set32le (length req) else []) ++ take n (drop sent req))))

-- What wolfSPDM_ChunkSend does with an acknowledgement: `some` is the response, `none` goes on.
unfoldable pub chunk_send_ack : ℕ → ℕ → ℕ → Bool → ℕ → Bytes → M (Option Bytes)
chunk_send_ack version handle seq all_sent room ack =
    let ack_hdr = 4 + chunk_seq_size version in
    if is_large_response version ack && all_sent
    then lift (chunk_copy_out ack room) >>= (λ r. pure (some r))
    else (do
      peer ← chunk_peer_error ack
      fail_if peer peer_error
      fail_if
          (ltb (length ack) ack_hdr
            || (get_or ack 0 0 != version
                || (get_or ack 1 0 != Code.chunk_send_ack
                    || (get_or ack 3 0 != handle || chunk_get_seq version (drop 4 ack) != seq))))
          chunk
      (if get_or ack 2 0 % 2 == 1
          then (do
            early ← chunk_peer_error (drop ack_hdr ack)
            fail (if early then peer_error else chunk))
          else (if all_sent
              then lift (chunk_copy_out (drop ack_hdr ack) room) >>= (λ r. pure (some r))
              else fail_if (length ack != ack_hdr) chunk >> pure none)))

-- The CHUNK_GET request.
unfoldable pub chunk_get_msg : ℕ → ℕ → ℕ → Bytes
chunk_get_msg version handle seq = version ∷ Code.chunk_get ∷ 0 ∷ handle ∷ chunk_set_seq version seq

-- What wolfSPDM_ChunkGet takes from one CHUNK_RESPONSE after `acc`: the total, the bytes with the
-- new chunk, and whether it was the last.
unfoldable pub chunk_accept : ℕ → ℕ → ℕ → ℕ → ℕ → Bytes → Bytes → Result (ℕ × Bytes × Bool)
chunk_accept version handle room seq total acc msg =
    let hdr = chunk_hdr_size seq in
    let total' = if seq == 0 then get32le (drop 12 msg) else total in
    let size = get32le (drop 8 msg) in
    let acc' = acc ++ take size (drop hdr msg) in
    let last = get_or msg 2 0 % 2 == 1 in
    if ltb (length msg) hdr
      || (get_or msg 0 0 != version
          || (get_or msg 1 0 != Code.chunk_response
              || (get_or msg 3 0 != handle || chunk_get_seq version (drop 4 msg) != seq)))
    then err chunk
    else (if seq == 0 && total' == 0
        then err chunk
        else (if seq == 0 && ltb room total'
            then err buffer_small
            else (if size == 0 || (size != length msg - hdr || ltb (total' - length acc) size)
                then err chunk
                else (if last
                    then (if length acc + size == total'
                        then ok (total', acc', true)
                        else err chunk)
                    else (if length acc + size == total'
                        then err chunk
                        else ok (total', acc', false))))))

-- Each message fits both the responder's DataTransferSize and ours.
unfoldable pub chunk_limit : Ctx → ℕ
chunk_limit c =
    let limit = c.limits.data_transfer_size in
    if limit == 0 || ltb data_transfer_size_max limit then data_transfer_size_max else limit

module _ (env : Env) where
  -- wolfSPDM_ChunkXfer.
  unfoldable pub chunk_xfer : Bool → Bytes → ℕ → M Bytes
  chunk_xfer secured req rsp_size =
      if secured then secured_xfer env req rsp_size else send_receive env req rsp_size

  -- One round of the loop of wolfSPDM_ChunkSend.
  unfoldable pub chunk_send_round : Bool → ℕ → ℕ → Bytes → ℕ → ℕ → ℕ → M (Option Bytes)
  chunk_send_round secured limit handle req room sent seq = do
    version ← gets λ c. c.spdm_version
    fail_if (not (chunk_seq_ok version seq)) chunk
    let n = chunk_take limit (length req) sent seq
    ack ← chunk_xfer secured (chunk_send_msg version handle req sent seq n) data_transfer_size_max
    chunk_send_ack version handle seq (sent + n == length req) room ack

  -- The loop of wolfSPDM_ChunkSend.
  unfoldable pub chunk_send_loop : ℕ → Bool → ℕ → ℕ → Bytes → ℕ → ℕ → ℕ → M (Option Bytes)
  chunk_send_loop zero secured limit handle req room sent seq = pure none
  chunk_send_loop (suc f) secured limit handle req room sent seq = do
    done ← chunk_send_round secured limit handle req room sent seq
    elim done [
      | some rsp ↦ pure (some rsp)
      | none ↦
          chunk_send_loop f secured limit handle req room
            (sent + chunk_take limit (length req) sent seq) (seq + 1)
    ]

  -- wolfSPDM_ChunkSend. The handle is taken, and moves on, before the first chunk.
  unfoldable pub chunk_send : Bool → ℕ → Bytes → ℕ → M Bytes
  chunk_send secured limit req room = do
    handle ← gets λ c. c.chunk_handle
    modify λ c. record c { chunk_handle = (c.chunk_handle + 1) % 256 }
    done ← chunk_send_loop (suc (length req)) secured limit handle req room 0 0
    or_fail done chunk

  -- One round of the loop of wolfSPDM_ChunkGet.
  unfoldable pub chunk_get_round : Bool → ℕ → ℕ → ℕ → Bytes → ℕ → M (ℕ × Bytes × Bool)
  chunk_get_round secured handle room total acc seq = do
    version ← gets λ c. c.spdm_version
    fail_if (not (chunk_seq_ok version seq)) chunk
    msg ← chunk_xfer secured (chunk_get_msg version handle seq) data_transfer_size_max
    peer ← chunk_peer_error msg
    fail_if peer peer_error
    lift (chunk_accept version handle room seq total acc msg)

  -- The loop of wolfSPDM_ChunkGet.
  unfoldable pub chunk_get_loop : ℕ → Bool → ℕ → ℕ → ℕ → Bytes → ℕ → M (Option Bytes)
  chunk_get_loop zero secured handle room total acc seq = pure none
  chunk_get_loop (suc f) secured handle room total acc seq = do
    got ← chunk_get_round secured handle room total acc seq
    elim got.2 [
      | true ↦ pure (some got.1)
      | false ↦ chunk_get_loop f secured handle room got.0 got.1 (seq + 1)
    ]

  -- wolfSPDM_ChunkGet, no larger than the MaxSPDMmsgSize advertised.
  unfoldable pub chunk_get : Bool → ℕ → ℕ → M Bytes
  chunk_get secured handle room = do
    done ←
        chunk_get_loop (suc (min room max_msg_size)) secured handle (min room max_msg_size) 0 [] 0
    or_fail done chunk

  -- The request side of wolfSPDM_ChunkExchange.
  unfoldable pub chunk_request : Bool → Bytes → ℕ → M Bytes
  chunk_request secured req room c =
      if leb (length req) (chunk_limit c)
      then chunk_xfer secured req room c
      else (if c.limits.max_spdm_msg_size != 0 && ltb c.limits.max_spdm_msg_size (length req)
          then (err buffer_small, c)
          else chunk_send secured (chunk_limit c) req room c)

  -- wolfSPDM_ChunkExchange.
  unfoldable pub chunk_exchange : Bool → Bytes → ℕ → M Bytes
  chunk_exchange secured req room = do
    rsp ← chunk_request secured req room
    version ← gets λ c. c.spdm_version
    (if is_large_response version rsp then chunk_get secured (get_or rsp 4 0) room else pure rsp)
