-- ===== src/Message/Version.antt =====
-- wolfSPDM_ParseVersion (src/spdm_msg.c): the highest version that both sides support.
pub mod Negotiation
use wolf_spdm.Base.{
  ℕ, zero, suc, ◌+◌, ◌*◌, Bool, ◌&&◌, ltb, leb, ◌==◌, ◌!=◌, length, drop, get_or, if◌then◌else◌,
}
use wolf_spdm.Types.Code
use wolf_spdm.Types.{state_version, min_spdm_version, max_spdm_version, version_mismatch}
use wolf_spdm.Context.{Bytes, Ctx, M, fail_if, gets, modify, ◌>>=◌, ◌>>◌}
use wolf_spdm.Message.{check_parse_or_error_args, check_response}

-- VersionNumberEntryCount is at offset 5; older responders placed it at offset 4.
unfoldable pub entry_count : Bytes → ℕ
entry_count buf = if get_or buf 5 0 == 0 then get_or buf 4 0 else get_or buf 5 0

-- The runtime top, or the compile-time default.
unfoldable pub max_ver : Ctx → ℕ
max_ver c = if c.max_version != 0 then c.max_version else max_spdm_version

-- Whether an entry's version replaces the highest found so far.
unfoldable pub improves : ℕ → ℕ → ℕ → Bool
improves top ver highest = leb min_spdm_version ver && (leb ver top && ltb highest ver)

-- The loop over `n` entries of two bytes; the high byte of an entry is Major.Minor.
unfoldable pub highest_version : ℕ → Bytes → ℕ → ℕ → ℕ
highest_version top entries zero highest = highest
highest_version top entries (suc n) highest =
    let ver = get_or entries 1 0 in
    highest_version top (drop 2 entries) n (if improves top ver highest then ver else highest)

-- wolfSPDM_ParseVersion.
unfoldable pub parse_version : Bytes → M (Unit {0})
parse_version buf = do
  check_parse_or_error_args buf 6
  check_response buf Code.version version_mismatch
  let n = entry_count buf
  fail_if (ltb (length buf) (6 + n * 2)) version_mismatch
  top ← gets max_ver
  let highest = highest_version top (drop 6 buf) n 0
  fail_if (highest == 0) version_mismatch
  modify λ c. record c { spdm_version = highest; state = state_version }
