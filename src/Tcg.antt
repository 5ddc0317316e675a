-- ===== src/Tcg.antt =====
-- The vendor-defined messages and the TCG framing parser of src/spdm_tcg.c.
pub mod Handshake
pub mod RoundTrip
pub mod Ends
use wolf_spdm.Base.{
  ℕ, Bool, ◌&&◌, zero, suc, ◌+◌, ◌-◌, true, false, ◌||◌, [], ◌∷◌, ◌++◌, ltb, leb, ◌==◌, ◌!=◌,
  if◌then◌else◌, length, get_or, take, drop,
}
use wolf_spdm.Types.Code
use wolf_spdm.Context.{
  Bytes, Ctx, Env, M, Result, err, ◌>>◌, ◌>>=◌, lift, gets, ok, fail_if, modify, pure,
}
use wolf_spdm.Types.{
  version_13, vendor_buf_size, tcg_header_size, invalid_arg, buffer_small, peer_error,
  vendor_rx_size, tcg_tag_clear,
}
use wolf_spdm.Types.Code.{version}
use wolf_spdm.Bytes.{get32be, get16le, same_bytes, set16le, get16be}
use wolf_spdm.Exchange.{secured_exchange}
use wolf_spdm.Transport.{send_receive}

-- WOLFSPDM_VDCODE_LEN.
abbrev pub vdcode_len : ℕ
vdcode_len = 8

-- The bytes in front of the VdCode.
abbrev pub vendor_hdr_size : ℕ
vendor_hdr_size = 9

-- Whether a NUL is among the first `n` bytes of a C string, which a NUL follows.
unfoldable pub has_nul : ℕ → Bytes → Bool
has_nul zero code = false
has_nul (suc n) [] = true
has_nul (suc n) (b ∷ code) = b == 0 || has_nul n code

-- wolfSPDM_BuildVendorDefined.
unfoldable pub build_vendor_defined : ℕ → Bytes → Bytes → ℕ → Result Bytes
build_vendor_defined version vd_code payload size =
    if has_nul vdcode_len vd_code
    then err invalid_arg
    else (if ltb (0xFFFF - vdcode_len) (length payload)
        then err invalid_arg
        else (if ltb size (vendor_hdr_size + vdcode_len + length payload)
            then err buffer_small
            else ok (
                version
                ∷ Code.vendor_defined_request
                ∷ 0
                ∷ 0
                ∷ 1
                ∷ 0
                ∷ 0
                ∷ (set16le (vdcode_len + length payload) ++ (take vdcode_len vd_code ++ payload)))))

-- wolfSPDM_ParseVendorDefined into a buffer of `room` bytes: the VdCode and the payload.
unfoldable pub parse_vendor_defined : Bytes → ℕ → Result (Bytes × Bytes)
parse_vendor_defined buf room =
    let off = 7 + get_or buf 6 0 in
    let len = get16le (drop off buf) in
    if ltb (length buf) 17
    then err buffer_small
    else (if ltb (length buf) (off + 2)
        then err buffer_small
        else (if ltb len vdcode_len || ltb (length buf) (off + 2 + len)
            then err buffer_small
            else (if ltb room (len - vdcode_len)
                then err buffer_small
                else ok (
                  take vdcode_len (drop (off + 2) buf),
                  take (len - vdcode_len) (drop (off + 2 + vdcode_len) buf),
                ))))

-- WOLFSPDM_TCG_CLEAR_HDR.
pub record TcgClearHdr : Type 0 where
  pub tag : ℕ
  pub size : ℕ
  pub connection_handle : ℕ
  pub fips_indicator : ℕ
  pub reserved : ℕ

-- wolfSPDM_ParseTcgClearMessage into a buffer of `room` bytes.
unfoldable pub parse_tcg_clear_message : Bytes → ℕ → Result (Bytes × TcgClearHdr)
parse_tcg_clear_message buf room =
    let size = get32be (drop 2 buf) in
    if ltb (length buf) tcg_header_size
    then err buffer_small
    else (if get16be buf != tcg_tag_clear
        then err peer_error
        else (if ltb size tcg_header_size || ltb (length buf) size
            then err buffer_small
            else (if ltb room (size - tcg_header_size)
                then err buffer_small
                else ok (
                  take (size - tcg_header_size) (drop tcg_header_size buf),
                  record {
                    tag = get16be buf;
                    size = size;
                    connection_handle = get32be (drop 6 buf);
                    fips_indicator = get16be (drop 10 buf);
                    reserved = get32be (drop 12 buf);
                  },
                ))))

-- `ver`: SPDM 1.3 until a version is negotiated.
unfoldable pub vendor_version : Ctx → ℕ
vendor_version c = if c.spdm_version != 0 then c.spdm_version else version_13

-- Whether a response of a vendor command is an SPDM ERROR.
unfoldable pub vendor_error : Bytes → Bool
vendor_error rx = leb 4 (length rx) && get_or rx 1 0 == Code.error

-- The response check of wolfSPDM_TCG_VendorCmdClear: the VdCode must be that of the request.
unfoldable pub vendor_response : Bytes → Bytes → Result Bytes
vendor_response vd_code rx = elim (parse_vendor_defined rx vendor_buf_size) [
  | err e ↦ err e
  | ok got ↦ if same_bytes got.0 (take vdcode_len vd_code) then ok got.1 else err peer_error
]

module _ (env : Env) where
  -- wolfSPDM_TCG_VendorCmdClear up to the answer, which it may be called not to look at.
  unfoldable pub vendor_cmd_clear_raw : Bytes → Bytes → M Bytes
  vendor_cmd_clear_raw vd_code payload = do
    version ← gets vendor_version
    msg ← lift (build_vendor_defined version vd_code payload vendor_buf_size)
    rx ← send_receive env msg vendor_rx_size
    modify λ c. if vendor_error rx then record c { last_peer_error_code = get_or rx 2 0 } else c
    fail_if (vendor_error rx) peer_error
    pure rx

  -- wolfSPDM_TCG_VendorCmdClear with a response buffer: the payload of the answer.
  unfoldable pub vendor_cmd_clear : Bytes → Bytes → M Bytes
  vendor_cmd_clear vd_code payload = do
    rx ← vendor_cmd_clear_raw vd_code payload
    lift (vendor_response vd_code rx)

  -- wolfSPDM_TCG_VendorCmdSecured.
  unfoldable pub vendor_cmd_secured : Bytes → Bytes → M (Unit {0})
  vendor_cmd_secured vd_code payload = do
    version ← gets vendor_version
    msg ← lift (build_vendor_defined version vd_code payload vendor_buf_size)
    rx ← secured_exchange env msg vendor_buf_size
    fail_if (vendor_error rx) peer_error
