-- ===== src/Chunk/Ends.antt =====
-- What wolfSPDM_ChunkGet takes of a CHUNK_RESPONSE (src/spdm_chunk.c).
use wolf_spdm.Types.Code
use wolf_spdm.Context.{Bytes, ok, err}
use wolf_spdm.Base.{
  ℕ, ◌+◌, ◌≤◌, ◌<◌, ◌≡◌, Bool, true, false, ◌++◌, length, take, length-append, length-take,
  length-drop, ◌-◌, min, refl, drop, if◌then◌else◌, ◌%◌, ◌&&◌, ◌||◌, arith, ltb, ◌==◌, ◌!=◌, get_or,
  ap,
}
use wolf_spdm.Chunk.{chunk_accept, chunk_hdr_size, chunk_get_seq}
use wolf_spdm.Bytes.{get32le}
use wolf_spdm.Types.{chunk, buffer_small}

chunk_size :
    (n h : ℕ) (acc msg : Bytes)
    → length (acc ++ take n (drop h msg)) ≡ length acc + min n (length msg - h)
chunk_size n h acc msg = rw (length-append, length-take, length-drop) refl

-- The checks of `chunk_accept`, in its order, for a chunk that it takes.
checks_passed :
    (shape empty large wrong last whole : Bool) (t : ℕ) (xs : Bytes) (got : ℕ × Bytes × Bool)
    → (if shape
        then err chunk
        else (if empty
            then err chunk
            else (if large
                then err buffer_small
                else (if wrong
                    then err chunk
                    else (if last
                        then (if whole then ok (t, xs, true) else err chunk)
                        else (if whole then err chunk else ok (t, xs, false)))))))
      ≡ ok got
    → (large ≡ false) × (wrong ≡ false) × (got ≡ (t, xs, last)) × (whole ≡ last)
checks_passed shape empty large wrong last whole t xs got p = ground arith

first_total :
    (seq a b : ℕ)
    → (if seq == 0 then a else b) ≡ (if seq == 0 then (if seq == 0 then a else b) else b)
first_total seq a b = ground arith

progress :
    (seq room total t size before rest after : ℕ) (last : Bool)
    → t ≡ (if seq == 0 then t else total)
    → after ≡ before + min size rest
    → seq == 0 && ltb room t ≡ false
    → size == 0 || (size != rest || ltb (t - before) size) ≡ false
    → before + size == t ≡ last
    → (seq ≡ 0 → t ≤ room)
      × (0 < seq → t ≡ total)
      × (before < after)
      × (after ≤ t)
      × (last ≡ false → after < t)
      × (last ≡ true → after ≡ t)
progress seq room total t size before rest after last s len large wrong whole = ground arith

-- A chunk that chunk_accept takes makes progress: the first one sets a total within the buffer and
-- the later ones keep it, at least one byte is added, the total is never passed, and the chunk is
-- flagged last exactly when it completes the total.
pub chunk_accept-progress :
    (version handle room seq total : ℕ) (acc msg : Bytes) (total' : ℕ) (acc' : Bytes) (last : Bool)
    → chunk_accept version handle room seq total acc msg ≡ ok (total', acc', last)
    → (seq ≡ 0 → total' ≤ room)
      × (0 < seq → total' ≡ total)
      × (length acc < length acc')
      × (length acc' ≤ total')
      × (last ≡ false → length acc' < total')
      × (last ≡ true → length acc' ≡ total')
unfolding chunk_accept
chunk_accept-progress version handle room seq total acc msg total' acc' last e =
    let hdr = chunk_hdr_size seq in
    let t = if seq == 0 then get32le (drop 12 msg) else total in
    let size = get32le (drop 8 msg) in
    let len = chunk_size size hdr acc msg in
    let (large, wrong, got, whole) =
      checks_passed
        (ltb (length msg) hdr
          || (get_or msg 0 0 != version
              || (get_or msg 1 0 != Code.chunk_response
                  || (get_or msg 3 0 != handle || chunk_get_seq version (drop 4 msg) != seq))))
        (seq == 0 && t == 0) (seq == 0 && ltb room t)
        (size == 0 || (size != length msg - hdr || ltb (t - length acc) size))
        (get_or msg 2 0 % 2 == 1) (length acc + size == t) t (acc ++ take size (drop hdr msg))
        (total', acc', last) e in
    rw (ap (λ p. p.0) got, ap (λ p. p.1) got, ap (λ p. p.2) got)
      (progress seq room total t size (length acc) (length msg - hdr) _ _ (first_total seq _ total)
        len large wrong whole)
