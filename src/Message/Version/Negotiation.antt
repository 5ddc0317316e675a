-- ===== src/Message/Version/Negotiation.antt =====
-- The versions that a VERSION response lists and wolfSPDM_ParseVersion (src/spdm_msg.c).
use wolf_spdm.Base.{ℕ, zero, suc, ◌≤◌, ◌≡◌, refl, ◌⊎◌, inl, arith, get_or, drop, ◌+◌, ◌*◌, length}
use wolf_spdm.Types.{min_spdm_version, state_version, version_mismatch}
use wolf_spdm.Context.{Bytes, Ctx, ok, err}
use wolf_spdm.Types.Code
use wolf_spdm.Message.{check_parse_or_error_args, check_response}
use wolf_spdm.Message.Version.{entry_count, max_ver, highest_version, parse_version, improves}

-- `v` is the version of one of the first `n` entries.
abbrev pub Offers : Bytes → ℕ → ℕ → Type 0
Offers entries zero v = ⊥
Offers entries (suc n) v = (v ≡ get_or entries 1 0) ⊎ Offers (drop 2 entries) n v

-- `v` lies in the requester's range, up to `top`.
abbrev pub IsSupported : ℕ → ℕ → Type 0
IsSupported top v = (min_spdm_version ≤ v) × (v ≤ top)

highest_version_ge : (top : ℕ) (entries : Bytes) (n h : ℕ) → h ≤ highest_version top entries n h
unfolding highest_version improves
highest_version_ge top entries zero h = omega arith
highest_version_ge top entries (suc n) h = ground (
  arith,
  highest_version_ge top (drop 2 entries) n h,
  highest_version_ge top (drop 2 entries) n (get_or entries 1 0),
)

highest_version_sound :
    (top : ℕ) (entries : Bytes) (n h : ℕ)
    → let r = highest_version top entries n h in (r ≡ h) ⊎ (Offers entries n r × IsSupported top r)
unfolding highest_version improves
highest_version_sound top entries zero h = inl refl
highest_version_sound top entries (suc n) h = ground (
  arith,
  highest_version_sound top (drop 2 entries) n h,
  highest_version_sound top (drop 2 entries) n (get_or entries 1 0),
)

highest_version_max :
    (top : ℕ) (entries : Bytes) (n h v : ℕ)
    → Offers entries n v
    → IsSupported top v
    → v ≤ highest_version top entries n h
unfolding highest_version improves
highest_version_max top entries zero h v o s = absurd o
highest_version_max top entries (suc n) h v o s = ground (
  arith,
  highest_version_max top (drop 2 entries) n h v,
  highest_version_max top (drop 2 entries) n (get_or entries 1 0) v,
  highest_version_ge top (drop 2 entries) n h,
  highest_version_ge top (drop 2 entries) n (get_or entries 1 0),
)

-- A parsed VERSION response leaves the context in the state VERSION with a version that the
-- response lists and that the requester supports, and no supported version that it lists is higher.
pub parse_version_negotiates :
    (buf : Bytes) (c c' : Ctx)
    → parse_version buf c ≡ (ok tt, c')
    → (c'.state ≡ state_version)
      × Offers (drop 6 buf) (entry_count buf) c'.spdm_version
      × IsSupported (max_ver c) c'.spdm_version
      × ((v : ℕ)
          → Offers (drop 6 buf) (entry_count buf) v
          → IsSupported (max_ver c) v
          → v ≤ c'.spdm_version)
unfolding parse_version check_parse_or_error_args check_response
parse_version_negotiates buf c c' e = ground (
  arith,
  highest_version_sound (max_ver c) (drop 6 buf) (entry_count buf) 0,
  λ (v : ℕ). highest_version_max (max_ver c) (drop 6 buf) (entry_count buf) 0 v,
)

-- A well-formed VERSION response that lists no supported version is refused with VERSION_MISMATCH,
-- and the context stays as it was.
pub parse_version_mismatch :
    (buf : Bytes) (c : Ctx)
    → get_or buf 1 0 ≡ Code.version
    → 6 + entry_count buf * 2 ≤ length buf
    → ((v : ℕ) → Offers (drop 6 buf) (entry_count buf) v → ¬ (IsSupported (max_ver c) v))
    → parse_version buf c ≡ (err version_mismatch, c)
unfolding parse_version check_parse_or_error_args check_response
parse_version_mismatch buf c code fits none_offered =
    let r = highest_version (max_ver c) (drop 6 buf) (entry_count buf) 0 in
    ground
      (arith, none_offered r, highest_version_sound (max_ver c) (drop 6 buf) (entry_count buf) 0)
