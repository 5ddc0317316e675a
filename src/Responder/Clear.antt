-- ===== src/Responder/Clear.antt =====
-- The answers to the negotiation requests, and the record layer at the responder's end
-- (src/spdm_responder.c).
use wolf_spdm.Types.Code
use wolf_spdm.Base.{
  ℕ, zero, suc, ◌+◌, ◌-◌, ◌*◌, Bool, ◌||◌, [], ◌∷◌, ◌++◌, ltb, ◌==◌, ◌!=◌, if◌then◌else◌, replicate,
}
use wolf_spdm.Types.{
  min_spdm_version, version_13, version_mismatch, buffer_small, state_version, bad_state,
  version_10,
}
use wolf_spdm.Context.{
  Ctx, Bytes, Env, M, ok, always, ◌>>◌, ◌>>=◌, err, fail_if, gets, modify, pure,
}
use wolf_spdm.Secured.{encrypt_internal, decrypt_internal}
use wolf_spdm.Bytes.{set32le}

-- SPDM_ERROR_*: the codes that the responder sends.
abbrev pub error_unexpected_request : ℕ
error_unexpected_request = 0x04

abbrev pub error_unsupported_request : ℕ
error_unsupported_request = 0x07

abbrev pub error_major_version_mismatch : ℕ
error_major_version_mismatch = 0x41

-- WOLFSPDM_RESP_MAX_VERSION and WOLFSPDM_RESP_VERSION_COUNT.
abbrev pub resp_max_version : ℕ
resp_max_version = version_13

abbrev pub resp_version_count : ℕ
resp_version_count = resp_max_version - min_spdm_version + 1

-- RespBuildErrorClear into a buffer of `room` bytes.
unfoldable pub build_error_clear : ℕ → ℕ → ℕ → M Bytes
build_error_clear err_code err_data room = do
  fail_if (ltb room 4) buffer_small
  version ← gets λ c. c.spdm_version
  pure ((if version != 0 then version else version_10) ∷ Code.error ∷ err_code ∷ err_data ∷ [])

-- RespSwapDataDir.
unfoldable pub swap_data_dir : Ctx → Ctx
swap_data_dir c = record c {
  keys = record (c.keys) {
    req_data_key = c.keys.rsp_data_key;
    rsp_data_key = c.keys.req_data_key;
    req_data_iv = c.keys.rsp_data_iv;
    rsp_data_iv = c.keys.req_data_iv;
  };
  req_seq_num = c.rsp_seq_num;
  rsp_seq_num = c.req_seq_num;
}

module _ (env : Env) where
  -- RespEncrypt.
  unfoldable pub resp_encrypt : Bytes → ℕ → M Bytes
  resp_encrypt plain room c =
      always (encrypt_internal env plain room) swap_data_dir (swap_data_dir c)

  -- RespDecrypt.
  unfoldable pub resp_decrypt : Bytes → ℕ → M Bytes
  resp_decrypt enc room c = always (decrypt_internal env enc room) swap_data_dir (swap_data_dir c)

-- The entries of VERSION, from the version `ver` on.
unfoldable pub version_entries : ℕ → ℕ → Bytes
version_entries zero ver = []
version_entries (suc n) ver = 0 ∷ ver ∷ version_entries n (ver + 1)

-- RespBuildVersion.
unfoldable pub build_version : ℕ → M Bytes
build_version room = do
  fail_if (ltb room (6 + 2 * resp_version_count)) buffer_small
  modify λ c. record c { spdm_version = 0; state = state_version }
  pure (
      version_10
      ∷ Code.version
      ∷ 0
      ∷ 0
      ∷ 0
      ∷ resp_version_count
      ∷ version_entries resp_version_count min_spdm_version)

-- RespSelectVersion: the first request after VERSION selects the version.
unfoldable pub select_version : ℕ → Bool → M (Unit {0})
select_version req_ver is_vendor c =
    if c.spdm_version != 0
    then (if req_ver == c.spdm_version then ok tt else err version_mismatch, c)
    else (if c.state != state_version
        then (if is_vendor then ok tt else err bad_state, c)
        else (if ltb req_ver min_spdm_version || ltb resp_max_version req_ver
            then (err version_mismatch, c)
            else (ok tt, record c { spdm_version = req_ver })))

-- RespBuildCapabilities.
unfoldable pub build_capabilities : Bool → ℕ → M Bytes
build_capabilities psk_enabled room = do
  fail_if (ltb room 20) buffer_small
  version ← gets λ c. c.spdm_version
  pure (
      version
      ∷ Code.capabilities
      ∷ 0
      ∷ 0
      ∷ 0
      ∷ 0x1F
      ∷ 0
      ∷ 0
      ∷ (set32le (if psk_enabled then 0x197C0 else 0x193C0)
          ++ (0xC0 ∷ 0x07 ∷ 0 ∷ 0 ∷ 0xC0 ∷ 0x07 ∷ 0 ∷ 0 ∷ [])))

-- RespBuildAlgorithms: Algorithm Set B.
unfoldable pub build_algorithms : ℕ → M Bytes
build_algorithms room = do
  fail_if (ltb room 52) buffer_small
  version ← gets λ c. c.spdm_version
  pure (
      version
      ∷ Code.algorithms
      ∷ 0x04
      ∷ 0
      ∷ 0x34
      ∷ 0
      ∷ 0
      ∷ 0x02
      ∷ (replicate 4 0
          ++ (0x80
              ∷ 0
              ∷ 0
              ∷ 0
              ∷ 0x02
              ∷ 0
              ∷ 0
              ∷ 0
              ∷ (replicate 12 0
                  ++ (replicate 4 0
                      ++ (0x02 ∷ 0x20 ∷ 0x10 ∷ 0 ∷ 0x03 ∷ 0x20 ∷ 0x02 ∷ 0 ∷ 0x04 ∷ 0x20 ∷ 0x80 ∷ 0
                          ∷ 0x05 ∷ 0x20 ∷ 0x01 ∷ 0 ∷ []))))))
