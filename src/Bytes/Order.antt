-- ===== src/Bytes/Order.antt =====
-- Reading back what the byte-order helpers of src/spdm_internal.h wrote, in front of any bytes.
use wolf_spdm.Context.{Bytes}
use wolf_spdm.Bytes.{
  set64le, get64le, get16le, get32be, get16be, get32le, set32le, set16be, set16le, set32be, IsByte,
}
use wolf_spdm.Base.{ℕ, ◌<◌, All, ◌^◌, ◌++◌, arith, ◌≡◌}

pub get16le-set16le : (v : ℕ) (rest : Bytes) → v < 2 ^ 16 → get16le (set16le v ++ rest) ≡ v
unfolding get16le set16le
get16le-set16le v rest h = omega arith

pub get16be-set16be : (v : ℕ) (rest : Bytes) → v < 2 ^ 16 → get16be (set16be v ++ rest) ≡ v
unfolding get16be set16be
get16be-set16be v rest h = omega arith

pub get32le-set32le : (v : ℕ) (rest : Bytes) → v < 2 ^ 32 → get32le (set32le v ++ rest) ≡ v
unfolding get32le set32le
get32le-set32le v rest h = omega arith

pub get32be-set32be : (v : ℕ) (rest : Bytes) → v < 2 ^ 32 → get32be (set32be v ++ rest) ≡ v
unfolding get32be set32be
get32be-set32be v rest h = omega arith

pub get64le-set64le : (v : ℕ) (rest : Bytes) → v < 2 ^ 64 → get64le (set64le v ++ rest) ≡ v
unfolding get64le set64le
get64le-set64le v rest h = omega arith

pub IsByte-set64le : (v : ℕ) → All IsByte (set64le v)
unfolding set64le
IsByte-set64le v = omega arith
