-- ===== src/Attest/Measurements/Blocks.antt =====
-- The blocks of a measurement record, as wolfSPDM_ParseMeasurements checks them and
-- wolfSPDM_GetMeasurementBlock reads them (src/spdm_attest.c).
use wolf_spdm.Base.{
  ℕ, zero, suc, ◌+◌, ◌≤◌, ◌<◌, ◌≡◌, refl, [], ◌∷◌, arith, length, get_or, take, drop, length-take,
  length-drop, sym, ap, ◌∙◌, subst, drop-add,
}
use wolf_spdm.Attest.Measurements.{
  block_offset, skip_blocks, block_value, block_value_size, is_dmtf,
}
use wolf_spdm.Bytes.{get16le}
use wolf_spdm.Context.{Bytes}
use wolf_spdm.Types.{meas_block_hdr_size}

-- From `off` on the record is exactly `n` blocks.
abbrev pub Tiles : ℕ → Bytes → ℕ → Type 0
Tiles zero meas off = off ≡ length meas
Tiles (suc n) meas off =
    (off + meas_block_hdr_size ≤ length meas)
    × Tiles n meas (off + (meas_block_hdr_size + get16le (drop (off + 2) meas)))

get_or-drop : (m i : ℕ) (xs : Bytes) → get_or (drop m xs) i 0 ≡ get_or xs (m + i) 0
get_or-drop zero i xs = let e : zero + i ≡ i = omega arith in rw e refl
get_or-drop (suc m) i [] = refl
get_or-drop (suc m) i (x ∷ xs) =
    let e : suc m + i ≡ suc (m + i) = omega arith in rw e (get_or-drop m i xs)

get_or-take : (n i : ℕ) (xs : Bytes) → i < n → get_or (take n xs) i 0 ≡ get_or xs i 0
get_or-take zero i xs h = absurd (omega arith)
get_or-take (suc n) i [] h = refl
get_or-take (suc n) zero (x ∷ xs) h = refl
get_or-take (suc n) (suc i) (x ∷ xs) h = get_or-take n i xs (omega arith)

byte-take :
    (n m off i : ℕ) (xs : Bytes)
    → off + i < n
    → get_or (drop off (take n (drop m xs))) i 0 ≡ get_or (drop (m + off) xs) i 0
byte-take n m off i xs h =
    let e : m + (off + i) ≡ m + off + i = omega arith in
    get_or-drop off i (take n (drop m xs))
    ∙ get_or-take n (off + i) (drop m xs) h
    ∙ get_or-drop m (off + i) xs
    ∙ ap (λ k. get_or xs k 0) e
    ∙ sym (get_or-drop (m + off) i xs)

get16le-take :
    (n m off : ℕ) (xs : Bytes)
    → off + 4 ≤ n
    → get16le (drop (off + 2) (take n (drop m xs))) ≡ get16le (drop (m + off + 2) xs)
unfolding get16le
get16le-take n m off xs h =
    let e : m + off + 2 ≡ m + (off + 2) = omega arith in
    let low = byte-take n m (off + 2) 0 xs (omega arith) in
    let high = byte-take n m (off + 2) 1 xs (omega arith) in rw (e, low, high) refl

pub skip_blocks-Tiles :
    (n len off : ℕ) (buf : Bytes)
    → skip_blocks n buf (8 + len) (8 + off) ≡ (0, 8 + len)
    → 8 + len ≤ length buf
    → Tiles n (take len (drop 8 buf)) off
unfolding skip_blocks
skip_blocks-Tiles zero len off buf e h =
    let size = length-take len (drop 8 buf) in let rest = length-drop 8 buf in ground arith
skip_blocks-Tiles (suc n) len off buf e h =
    let size = length-take len (drop 8 buf) in
    let rest = length-drop 8 buf in
    let fits : off + 4 ≤ len = ground arith in
    let field = get16le-take len 8 off buf fits in
    let next = 8 + off + (4 + get16le (drop (8 + off + 2) buf)) in
    let later : skip_blocks n buf (8 + len) next ≡ (0, 8 + len) = ground arith in
    let moved : next ≡ 8 + (off + (4 + get16le (drop (8 + off + 2) buf))) = omega arith in
    let tiles =
      skip_blocks-Tiles n len (off + (4 + get16le (drop (8 + off + 2) buf))) buf
        (ap (λ o. skip_blocks n buf (8 + len) o) (sym moved) ∙ later) h in
    (ground arith, subst (λ k. Tiles n (take len (drop 8 buf)) (off + (4 + k))) (sym field) tiles)

Tiles-le : (n : ℕ) (meas : Bytes) (off : ℕ) → Tiles n meas off → off ≤ length meas
Tiles-le zero meas off t = omega (arith, t)
Tiles-le (suc n) meas off t = omega (arith, t.0)

pub block_offset-fits :
    (n i : ℕ) (meas : Bytes) (off : ℕ)
    → Tiles n meas off
    → i < n
    → block_offset i meas off
        + (meas_block_hdr_size + get16le (drop (block_offset i meas off + 2) meas))
      ≤ length meas
unfolding block_offset
block_offset-fits zero i meas off t h = absurd (omega arith)
block_offset-fits (suc n) zero meas off t h = Tiles-le n meas _ t.1
block_offset-fits (suc n) (suc i) meas off t h = block_offset-fits n i meas _ t.1 (omega arith)

pub block_value-size :
    (blk : Bytes)
    → meas_block_hdr_size + get16le (drop 2 blk) ≤ length blk
    → length (block_value blk).1 ≡ block_value_size blk
unfolding block_value block_value_size is_dmtf
block_value-size blk h =
    let whole = length-take (get16le (drop 2 blk)) (drop 4 blk) in
    let rest = length-drop 4 blk in
    let dmtf = length-take (get16le (drop 5 blk)) (drop 7 blk) in
    let dmtf_rest = length-drop 7 blk in ground arith

pub block_value-le :
    (blk : Bytes)
    → meas_block_hdr_size + get16le (drop 2 blk) ≤ length blk
    → block_value_size blk ≤ length blk
unfolding block_value_size is_dmtf
block_value-le blk h = ground arith

-- The `n`-th block of a record and what comes after it: past the first `n` blocks, each with the header
-- of four bytes and the value whose size the header states.
pub data Block : ℕ → Bytes → Bytes → Type 0 where
  first : (meas : Bytes) → Block zero meas meas
  next :
      (n : ℕ) (meas blk : Bytes)
      → Block n (drop (meas_block_hdr_size + get16le (drop 2 meas)) meas) blk
      → Block (suc n) meas blk

pub block_offset-Block :
    (n : ℕ) (meas : Bytes) (off : ℕ) → Block n (drop off meas) (drop (block_offset n meas off) meas)
unfolding block_offset
block_offset-Block zero meas off = first (drop off meas)
block_offset-Block (suc n) meas off =
    let field = meas_block_hdr_size + get16le (drop (off + 2) meas) in
    let moved : field ≡ meas_block_hdr_size + get16le (drop 2 (drop off meas)) =
      ap (λ xs. meas_block_hdr_size + get16le xs) (drop-add off 2 meas) in
    let blk = drop (block_offset n meas (off + field)) meas in
    next n (drop off meas) blk (
      subst (λ k. Block n (drop k (drop off meas)) blk) moved
        (subst (λ xs. Block n xs blk) (drop-add off field meas)
          (block_offset-Block n meas (off + field))))
