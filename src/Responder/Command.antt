-- ===== src/Responder/Command.antt =====
-- The vendor-defined commands of the responder (src/spdm_responder.c).
use Prim.Native.String.{String}
use wolf_spdm.Base.{
  ℕ, ◌+◌, ◌-◌, Bool, true, false, not, ◌&&◌, ◌||◌, none, some, [], ◌∷◌, ◌++◌, ltb, ◌==◌, ◌!=◌,
  if◌then◌else◌, length, get_or, take, drop,
}
use wolf_spdm.Context.{Bytes, Env, err, fail_if, lift, fail, pure, ok, modify}
use wolf_spdm.Responder.{Tpm, R, on_ctx, gets_resp, Resp, modify_resp, ◌>>=◌, ◌>>◌}
use wolf_spdm.Types.{
  max_msg_size, state_connected, psk_max_size, bad_state, hash_size, io_fail, invalid_arg,
  not_available, buffer_small, bad_hmac,
}
use wolf_spdm.Tcg.{vdcode_len, parse_vendor_defined, vendor_hdr_size}
use wolf_spdm.Bytes.{same_bytes, set16le}
use wolf_spdm.Vendor.{spdmonly_lock, spdmonly_unlock}
use wolf_spdm.Transcript.{sha384_hash}
use wolf_spdm.Kdf.{zeros, codes}
use wolf_spdm.Secured.{u16}

-- WOLFSPDM_VENDOR_DEFINED_RSP.
abbrev pub vendor_defined_rsp : ℕ
vendor_defined_rsp = 0x7E

-- `XSTRCMP(vdCode, name) == 0` for a name of eight bytes.
abbrev pub is_code : Bytes → String → Bool
is_code vd_code name = same_bytes vd_code (codes name)

-- What is refused where it comes: the TPM, GIVE_PUB and SPDMONLY in the clear, and all but GIVE_PUB
-- under the handshake keys.
unfoldable pub vendor_refused : Bool → Bytes → ℕ → Bool
vendor_refused from_secured vd_code state =
    (not from_secured
      && (is_code vd_code "TPM2_CMD" || (is_code vd_code "GIVE_PUB" || is_code vd_code "SPDMONLY")))
    || (from_secured && (state != state_connected && not (is_code vd_code "GIVE_PUB")))

-- `tpmRespCap`.
abbrev pub tpm_resp_cap : ℕ
tpm_resp_cap = max_msg_size - (9 + vdcode_len)

-- TPM2_CMD: the callback gets the command, and its answer must fit.
unfoldable pub tpm2_cmd : Tpm → Bytes → R Bytes
tpm2_cmd tpm payload r = if not r.has_tpm_cb then (err bad_state, r) else (
  elim (tpm r.tpm_log payload tpm_resp_cap) [
    | none ↦ err io_fail
    | some rsp ↦ if ltb tpm_resp_cap (length rsp) then err buffer_small else ok rsp
  ],
  record r { tpm_log = payload ∷ r.tpm_log },
)

-- GET_PUBK.
unfoldable pub resp_get_pubk : R Bytes
resp_get_pubk = do
  r ← gets_resp λ r. r
  on_ctx (fail_if (not r.has_id_key) bad_state)
  on_ctx (fail_if (ltb max_msg_size (length r.id_pub_key)) buffer_small)
  on_ctx (pure r.id_pub_key)

-- GIVE_PUB, into a buffer of half of WOLFSPDM_PUBKEY_BUF_SZ.
unfoldable pub resp_give_pub : Bytes → R Bytes
resp_give_pub payload = do
  on_ctx (fail_if (ltb 128 (length payload)) buffer_small)
  on_ctx (modify λ c. record c { identity = record (c.identity) { req_pub_key_tpmt = payload } })
  on_ctx (pure [])

-- GET_STS_.
unfoldable pub resp_get_sts : R Bytes
resp_get_sts =
    gets_resp
      λ r. 0 ∷ 4 ∷ (if r.psk_provisioned then 1 else 0) ∷ (if r.spdm_only_lock then 1 else 0) ∷ []

-- SPDMONLY.
unfoldable pub resp_spdmonly : Bytes → R Bytes
resp_spdmonly payload = do
  on_ctx (
      fail_if
        (length payload != 1
          || (get_or payload 0 0 != spdmonly_lock && get_or payload 0 0 != spdmonly_unlock))
        invalid_arg)
  modify_resp λ r. record r { spdm_only_lock = get_or payload 0 0 == spdmonly_lock }
  on_ctx (pure [])

-- Whether PSK_SET_ may not store `psk`: a ClearAuth is registered, or another PSK is.
unfoldable pub psk_held : Bytes → Resp → Bool
psk_held psk r =
    r.clear_auth_set
    || (length r.psk_store != 0
        && (length r.psk_store != psk_max_size || not (same_bytes r.psk_store psk)))

-- PSK_SET_: a PSK of full size, and the digest of its ClearAuth.
unfoldable pub resp_psk_set : Bytes → R Bytes
resp_psk_set payload = do
  let psk = take psk_max_size payload
  on_ctx (fail_if (length payload != psk_max_size + hash_size) invalid_arg)
  held ← gets_resp (psk_held psk)
  on_ctx (fail_if held bad_state)
  modify_resp λ r. record r {
    psk_store = psk;
    clear_auth_digest = drop psk_max_size payload;
    psk_provisioned = true;
    clear_auth_set = true;
    ctx = record (r.ctx) { psk = record (r.ctx.psk) { psk = psk } };
  }
  on_ctx (pure [])

-- PSK_CLR_: the SHA-384 of the payload must be the registered digest.
unfoldable pub resp_psk_clr : Env → Bytes → R Bytes
resp_psk_clr env payload = do
  provisioned ← gets_resp λ r. r.psk_provisioned
  on_ctx (fail_if (length payload != 32 || not provisioned) invalid_arg)
  digest ← on_ctx (sha384_hash env payload [] [])
  stored ← gets_resp λ r. r.clear_auth_digest
  on_ctx (fail_if (not (same_bytes digest stored)) bad_hmac)
  modify_resp λ r. record r {
    psk_store = [];
    clear_auth_digest = zeros hash_size;
    psk_provisioned = false;
    clear_auth_set = false;
    ctx = record (r.ctx) { psk = record (r.ctx.psk) { psk = [] } };
  }
  on_ctx (pure [])

-- The VENDOR_DEFINED_RSP frame around the payload of an answer.
unfoldable pub vendor_reply : Bytes → Bytes → ℕ → R Bytes
vendor_reply vd_code payload room = do
  on_ctx (fail_if (ltb room (vendor_hdr_size + vdcode_len + length payload)) buffer_small)
  version ← gets_resp λ r. r.ctx.spdm_version
  on_ctx (
      pure (
        version
        ∷ vendor_defined_rsp
        ∷ 0
        ∷ 0
        ∷ 1
        ∷ 0
        ∷ 0
        ∷ (set16le (u16 (vdcode_len + length payload)) ++ (vd_code ++ payload))))

module _ (env : Env) (tpm : Tpm) where
  -- The command of a VdCode: the payload of its answer.
  unfoldable pub vendor_command : Bytes → Bytes → R Bytes
  vendor_command vd_code payload =
      if is_code vd_code "TPM2_CMD"
      then tpm2_cmd tpm payload
      else (if is_code vd_code "GET_PUBK"
          then resp_get_pubk
          else (if is_code vd_code "GIVE_PUB"
              then resp_give_pub payload
              else (if is_code vd_code "GET_STS_"
                  then resp_get_sts
                  else (if is_code vd_code "SPDMONLY"
                      then resp_spdmonly payload
                      else (if is_code vd_code "PSK_SET_"
                          then resp_psk_set payload
                          else (if is_code vd_code "PSK_CLR_"
                              then resp_psk_clr env payload
                              else on_ctx (fail not_available)))))))

  -- A command that is not refused, and its answer with the VdCode of the request.
  unfoldable pub vendor_run : Bytes → Bytes → ℕ → R (Bytes × Bytes)
  vendor_run vd_code arg room = do
    payload ← vendor_command vd_code arg
    out ← vendor_reply vd_code payload room
    on_ctx (pure (vd_code, out))

  -- RespHandleVendorDefined: the VdCode of the request, and the answer.
  unfoldable pub handle_vendor_defined : Bool → Bytes → ℕ → R (Bytes × Bytes)
  handle_vendor_defined from_secured buf room = do
    request ← on_ctx (lift (parse_vendor_defined buf max_msg_size))
    state ← gets_resp λ r. r.ctx.state
    on_ctx (fail_if (vendor_refused from_secured request.0 state) bad_state)
    vendor_run request.0 request.1 room
