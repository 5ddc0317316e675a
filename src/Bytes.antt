-- ===== src/Bytes.antt =====
-- The byte-order helpers, the record IV and the constant-time compare of src/spdm_internal.h.
-- `(byte)(v >> k)` is the quotient by 2 ^ k below 256; on bytes `|` of disjoint shifts is a sum.
pub mod Order
pub mod Nonce
use wolf_spdm.Base.{
  ℕ, ◌+◌, ◌*◌, ◌/◌, ◌%◌, ◌^◌, Bool, true, false, [], ◌∷◌, get_or, ◌==◌, bit_xor, ◌&&◌, ◌<◌,
}
use wolf_spdm.Context.{Bytes}

unfoldable pub set16le : ℕ → Bytes
set16le v = v % 256 ∷ v / 256 % 256 ∷ []

unfoldable pub get16le : Bytes → ℕ
get16le b = get_or b 0 0 + 256 * get_or b 1 0

unfoldable pub set16be : ℕ → Bytes
set16be v = v / 256 % 256 ∷ v % 256 ∷ []

unfoldable pub get16be : Bytes → ℕ
get16be b = 256 * get_or b 0 0 + get_or b 1 0

unfoldable pub set32le : ℕ → Bytes
set32le v = v % 256 ∷ v / 256 % 256 ∷ v / 256 ^ 2 % 256 ∷ v / 256 ^ 3 % 256 ∷ []

unfoldable pub get32le : Bytes → ℕ
get32le b = get_or b 0 0 + 256 * get_or b 1 0 + 256 ^ 2 * get_or b 2 0 + 256 ^ 3 * get_or b 3 0

unfoldable pub set32be : ℕ → Bytes
set32be v = v / 256 ^ 3 % 256 ∷ v / 256 ^ 2 % 256 ∷ v / 256 % 256 ∷ v % 256 ∷ []

unfoldable pub get32be : Bytes → ℕ
get32be b = 256 ^ 3 * get_or b 0 0 + 256 ^ 2 * get_or b 1 0 + 256 * get_or b 2 0 + get_or b 3 0

unfoldable pub set64le : ℕ → Bytes
set64le v =
    v % 256
    ∷ v / 256 % 256
    ∷ v / 256 ^ 2 % 256
    ∷ v / 256 ^ 3 % 256
    ∷ v / 256 ^ 4 % 256
    ∷ v / 256 ^ 5 % 256
    ∷ v / 256 ^ 6 % 256
    ∷ v / 256 ^ 7 % 256
    ∷ []

unfoldable pub get64le : Bytes → ℕ
get64le b =
    get_or b 0 0
    + 256 * get_or b 1 0
    + 256 ^ 2 * get_or b 2 0
    + 256 ^ 3 * get_or b 3 0
    + 256 ^ 4 * get_or b 4 0
    + 256 ^ 5 * get_or b 5 0
    + 256 ^ 6 * get_or b 6 0
    + 256 ^ 7 * get_or b 7 0

-- `a[i] ^= b[i]` for every `i` below the length of `b`; `b` is no longer than `a`.
unfoldable pub xor_bytes : Bytes → Bytes → Bytes
xor_bytes [] b = []
xor_bytes (x ∷ a) [] = x ∷ a
xor_bytes (x ∷ a) (y ∷ b) = bit_xor x y ∷ xor_bytes a b

-- wolfSPDM_BuildIV: the sequence number goes into the leftmost eight bytes of the base IV.
unfoldable pub build_iv : Bytes → ℕ → Bytes
build_iv base_iv seq_num = xor_bytes base_iv (set64le seq_num)

-- XMEMCMP(a, b, sz) == 0, and wolfSPDM_ConstCompare(a, b, sz) == 0, on equally long buffers.
unfoldable pub same_bytes : Bytes → Bytes → Bool
same_bytes [] [] = true
same_bytes [] (y ∷ b) = false
same_bytes (x ∷ a) [] = false
same_bytes (x ∷ a) (y ∷ b) = x == y && same_bytes a b

-- A value of type `byte`.
abbrev pub IsByte : ℕ → Type 0
IsByte b = b < 256
