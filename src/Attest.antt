-- ===== src/Attest.antt =====
-- src/spdm_attest.c: what GET_MEASUREMENTS and CHALLENGE share.
pub mod Measurements
pub mod Challenge
use wolf_spdm.Base.{
  ℕ, ◌+◌, ◌-◌, not, ◌||◌, Option, none, some, ltb, leb, ◌!=◌, if◌then◌else◌, length, take, drop,
}
use wolf_spdm.Context.{Bytes}
use wolf_spdm.Types.{version_13, ecc_sig_size}
use wolf_spdm.Bytes.{get16le, same_bytes}

-- SPDM_NONCE_SZ, SPDM_REQ_CONTEXT_SZ and WOLFSPDM_ATTEST_TAIL_SZ.
abbrev pub nonce_size : ℕ
nonce_size = 32

abbrev pub req_context_max : ℕ
req_context_max = 8

abbrev pub attest_tail_size : ℕ
attest_tail_size = 2 + 512 + req_context_max + ecc_sig_size

-- wolfSPDM_ReqContextSz: from 1.3 on a request ends with a RequesterContext.
unfoldable pub req_context_size : ℕ → ℕ
req_context_size version = if leb version_13 version then req_context_max else 0

-- wolfSPDM_ParseTail: OpaqueLength, OpaqueData, the RequesterContext echo and exactly `sig_size`
-- signature bytes; where the signature starts if that is all there is.
unfoldable pub parse_tail : ℕ → Bytes → Bytes → ℕ → ℕ → Option ℕ
parse_tail version req buf off sig_size =
    let context = req_context_size version in
    let next = off + 2 + get16le (drop off buf) in
    if ltb (length buf) (off + 2)
    then none
    else (if ltb (length buf) next
          || (length buf - next != context + sig_size
              || (ltb (length req) context
                  || not (
                      same_bytes (take context (drop next buf)) (drop (length req - context) req))))
        then none
        else some (next + context))
