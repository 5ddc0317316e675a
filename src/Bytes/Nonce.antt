-- ===== src/Bytes/Nonce.antt =====
-- The IVs of wolfSPDM_BuildIV (src/spdm_internal.h).
use wolf_spdm.Context.{Bytes}
use wolf_spdm.Bytes.{build_iv, xor_bytes, IsByte, set64le, get64le}
use wolf_spdm.Base.{
  ℕ, bit_xor, ◌==◌, All, ◌<◌, Bool, ◌≡◌, true, length, suc, arith, sym, ==_iff, ◌≤◌, ◌^◌, ◌&&◌, ◌∙◌,
  ap, zero, refl, [], ◌∷◌, append-nil,
}
use wolf_spdm.Bytes.Order.{IsByte-set64le, get64le-set64le}

-- A test on two bytes, run on the square of side `n` row by row.
row : (ℕ → Bool) → ℕ → Bool
row test zero = true
row test (suc b) = row test b && test b

square : (ℕ → ℕ → Bool) → ℕ → ℕ → Bool
square test side zero = true
square test side (suc a) = row (test a) side && square test side a

row_holds : (test : ℕ → Bool) (side b : ℕ) → b < side → row test side ≡ true → test b ≡ true
unfolding row
row_holds test zero b inside run = absurd (omega arith)
row_holds test (suc side) b inside run = ground (arith, row_holds test side b)

square_holds :
    (test : ℕ → ℕ → Bool) (side rows a b : ℕ)
    → a < rows
    → b < side
    → square test side rows ≡ true
    → test a b ≡ true
unfolding square
square_holds test side zero a b high wide run = absurd (omega arith)
square_holds test side (suc rows) a b high wide run =
    ground (arith, row_holds (test rows) side b, square_holds test side rows a b)

-- Whether XOR with `a` twice gives `b` back.
abbrev xor_undone : ℕ → ℕ → Bool
xor_undone a b = bit_xor a (bit_xor a b) == b

xor_square : square xor_undone 256 256 ≡ true
unfolding square row
xor_square = refl

xor_twice : (a b : ℕ) → a < 256 → b < 256 → bit_xor a (bit_xor a b) ≡ b
xor_twice a b ha hb = (==_iff _ b).0 (square_holds xor_undone 256 256 a b ha hb xor_square)

xor_cancel : (a b d : ℕ) → a < 256 → b < 256 → d < 256 → bit_xor a b ≡ bit_xor a d → b ≡ d
xor_cancel a b d ha hb hd e = sym (xor_twice a b ha hb) ∙ (ap (bit_xor a) e ∙ xor_twice a d ha hd)

xor_bytes_cancel :
    (iv x y : Bytes)
    → All IsByte iv
    → All IsByte x
    → All IsByte y
    → length x ≡ length y
    → length x ≤ length iv
    → xor_bytes iv x ≡ xor_bytes iv y
    → x ≡ y
unfolding xor_bytes
xor_bytes_cancel iv [] [] hi hx hy len fit e = refl
xor_bytes_cancel iv [] (b ∷ y) hi hx hy len fit e = absurd (omega arith)
xor_bytes_cancel iv (a ∷ x) [] hi hx hy len fit e = absurd (omega arith)
xor_bytes_cancel [] (a ∷ x) (b ∷ y) hi hx hy len fit e = absurd (omega arith)
xor_bytes_cancel (v ∷ iv) (a ∷ x) (b ∷ y) hi hx hy len fit e =
    ground (arith, xor_cancel v a b, xor_bytes_cancel iv x y)

-- Two sequence numbers of 64 bits that give the same IV over a base IV of bytes, at least eight of
-- them, are equal.
pub build_iv_injective :
    (iv : Bytes) (s t : ℕ)
    → All IsByte iv
    → 8 ≤ length iv
    → s < 2 ^ 64
    → t < 2 ^ 64
    → build_iv iv s ≡ build_iv iv t
    → s ≡ t
unfolding build_iv
build_iv_injective iv s t hi long hs ht e = sym (read s hs) ∙ (ap get64le same ∙ read t ht)
  where
    same : set64le s ≡ set64le t
    same =
        xor_bytes_cancel iv (set64le s) (set64le t) hi (IsByte-set64le s) (IsByte-set64le t)
          (unfold set64le in refl) (unfold set64le in long) e

    read : (v : ℕ) → v < 2 ^ 64 → get64le (set64le v) ≡ v
    read v h = rw (append-nil) at (get64le-set64le v [] h)
