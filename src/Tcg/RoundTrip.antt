-- ===== src/Tcg/RoundTrip.antt =====
-- Vendor-defined messages and clear TCG messages, built and parsed (src/spdm_tcg.c).
use wolf_spdm.Types.Code
use wolf_spdm.Base.{
  ℕ, ◌≤◌, ◌≡◌, length, ◌+◌, ◌-◌, ◌∷◌, ◌++◌, arith, length-append, take_all, take_of_length,
  drop_of_length,
}
use wolf_spdm.Tcg.{build_vendor_defined, vdcode_len, parse_vendor_defined}
use wolf_spdm.Context.{Bytes, ok}
use wolf_spdm.Bytes.{get16le, set16le}

parse_built :
    (version : ℕ) (vd_code payload : Bytes) (room : ℕ)
    → length vd_code ≡ vdcode_len
    → length payload ≤ room
    → length payload ≤ 0xFFFF - vdcode_len
    → parse_vendor_defined
        (version
          ∷ Code.vendor_defined_request
          ∷ 0
          ∷ 0
          ∷ 1
          ∷ 0
          ∷ 0
          ∷ (set16le (vdcode_len + length payload) ++ (vd_code ++ payload)))
        room
      ≡ ok (vd_code, payload)
unfolding parse_vendor_defined get16le set16le
parse_built version vd_code payload room len fits small =
    let whole = length-append vd_code payload in
    let code = take_of_length vd_code payload len in
    let rest = drop_of_length vd_code payload len in
    let all = take_all (length payload) payload (omega arith) in
    let n : vdcode_len + length payload - vdcode_len ≡ length payload = omega arith in ground arith

-- A vendor-defined message that build_vendor_defined makes of a VdCode of 8 bytes and a payload is
-- parsed back into the two, for every buffer that the payload fits.
pub parse_vendor_defined-build_vendor_defined :
    (version : ℕ) (vd_code payload buf : Bytes) (size room : ℕ)
    → length vd_code ≡ vdcode_len
    → length payload ≤ room
    → build_vendor_defined version vd_code payload size ≡ ok buf
    → parse_vendor_defined buf room ≡ ok (vd_code, payload)
unfolding build_vendor_defined
parse_vendor_defined-build_vendor_defined version vd_code payload buf size room len fits e =
    let code = take_all vdcode_len vd_code (omega arith) in
    let small : length payload ≤ 0xFFFF - vdcode_len = ground arith in
    let built = parse_built version vd_code payload room len fits small in ground arith
