-- ===== src/Tcg/Handshake.antt =====
-- The handshake of the TCG binding in src/spdm_tcg.c.
use wolf_spdm.Base.{
  ℕ, Bool, ◌&&◌, ◌+◌, bit_and, not, ◌||◌, [], ◌∷◌, ◌++◌, ltb, ◌==◌, ◌!=◌, if◌then◌else◌, length,
  get_or, take, drop, replicate,
}
use wolf_spdm.Types.Code
use wolf_spdm.Context.{Env, Bytes, M, pure, ◌>>=◌, ◌>>◌, gets, fail_if, modify, err, fail, ok}
use wolf_spdm.Types.{
  Mode, pubkey_buf_size, peer_error, ecc_point_size, bad_state, buffer_small, state_init,
  state_key_ex, nuvoton, state_error, io_fail, state_cert, version_mismatch, state_connected,
}
use wolf_spdm.Kdf.{on_error, codes}
use wolf_spdm.Transcript.{transcript_add, transcript_reset, sha384_hash}
use wolf_spdm.Standard.Connect.{connect_step}
use wolf_spdm.Transport.{send_receive}
use wolf_spdm.Bytes.{set32le, get16le, get32le, same_bytes}
use wolf_spdm.Tcg.{vendor_cmd_secured, vendor_cmd_clear}
use wolf_spdm.Crypto.{extract_ecc_point}
use wolf_spdm.Message.{check_error}
use wolf_spdm.Session.{get_version, key_exchange, finish}

-- The capability bits of src/spdm_tcg.c, and WOLFSPDM_TCG_CAPS_FLAGS_DEFAULT.
abbrev pub tcg_cap_encrypt : ℕ
tcg_cap_encrypt = 0x40

abbrev pub tcg_cap_mac : ℕ
tcg_cap_mac = 0x80

abbrev pub tcg_cap_key_ex : ℕ
tcg_cap_key_ex = 0x200

abbrev pub tcg_cap_psk : ℕ
tcg_cap_psk = 0x400

abbrev pub tcg_cap_psk_with_context : ℕ
tcg_cap_psk_with_context = 0x800

abbrev pub tcg_cap_psk_mask : ℕ
tcg_cap_psk_mask = 0xC00

abbrev pub tcg_cap_pub_key_id : ℕ
tcg_cap_pub_key_id = 0x10000

abbrev pub tcg_caps_flags_default : ℕ
tcg_caps_flags_default = 0x193C0

-- wolfSPDM_TCG_CheckPubKey: GET_PUBK must return the configured key, if there is one.
unfoldable pub check_pub_key : Bytes → M (Unit {0})
check_pub_key pub_key = do
  id ← gets λ c. c.identity
  (if not id.has_rsp_pub_key then pure tt else (do
    fail_if (length id.rsp_pub_key != ecc_point_size) bad_state
    elim (extract_ecc_point pub_key) [
      | err e ↦ fail peer_error
      | ok point ↦ fail_if (not (same_bytes point id.rsp_pub_key)) peer_error
    ]))

-- wolfSPDM_TCG_CheckResponse.
unfoldable pub tcg_check_response : Bytes → ℕ → ℕ → M (Unit {0})
tcg_check_response rsp min_size expected = do
  version ← gets λ c. c.spdm_version
  fail_if (ltb (length rsp) 4) buffer_small
  fail_if (check_error rsp) peer_error
  fail_if (ltb (length rsp) min_size) buffer_small
  fail_if (get_or rsp 0 0 != version) version_mismatch
  fail_if (get_or rsp 1 0 != expected) peer_error

-- `requiredFlags`: KEY_EX is wanted unless the requester offers PSK.
unfoldable pub tcg_required_flags : ℕ → ℕ
tcg_required_flags caps =
    tcg_cap_encrypt
    + tcg_cap_mac
    + tcg_cap_pub_key_id
    + (if bit_and caps tcg_cap_psk == 0 then tcg_cap_key_ex else 0)

-- A requester that offers PSK wants one of the two PSK capabilities.
unfoldable pub bad_psk_cap : ℕ → ℕ → Bool
bad_psk_cap caps rsp_flags =
    bit_and caps tcg_cap_psk != 0
    && (bit_and rsp_flags tcg_cap_psk_mask != tcg_cap_psk
        && bit_and rsp_flags tcg_cap_psk_mask != tcg_cap_psk_with_context)

-- wolfSPDM_TCG_CheckCapabilities.
unfoldable pub tcg_check_capabilities : Bytes → ℕ → M (Unit {0})
tcg_check_capabilities rsp caps = do
  tcg_check_response rsp 20 Code.capabilities
  fail_if (length rsp != 20) peer_error
  let flags = get32le (drop 8 rsp)
  fail_if
      (bit_and flags (tcg_required_flags caps) != tcg_required_flags caps
        || (bad_psk_cap caps flags
            || (ltb (get32le (drop 12 rsp)) 42
                || ltb (get32le (drop 16 rsp)) (get32le (drop 12 rsp)))))
      peer_error

-- `expectedAlgStructs`, which are also those of the request.
unfoldable pub expected_alg_structs : Bytes
expected_alg_structs =
    0x02 ∷ 0x20 ∷ 0x10 ∷ 0x00 ∷ 0x03 ∷ 0x20 ∷ 0x02 ∷ 0x00 ∷ 0x04 ∷ 0x20 ∷ 0x80 ∷ 0x00 ∷ 0x05 ∷ 0x20
    ∷ 0x01 ∷ 0x00 ∷ []

-- wolfSPDM_TCG_CheckAlgorithms: every field of ALGORITHMS is fixed.
unfoldable pub tcg_check_algorithms : Bytes → M (Unit {0})
tcg_check_algorithms rsp = do
  tcg_check_response rsp 52 Code.algorithms
  fail_if
      (length rsp != 52
        || (get16le (drop 4 rsp) != length rsp
            || (get_or rsp 2 0 != 4
                || (get_or rsp 3 0 != 0 || (get_or rsp 6 0 != 0 || get_or rsp 7 0 != 0x02)))))
      peer_error
  fail_if
      (get32le (drop 8 rsp) != 0
        || (get32le (drop 12 rsp) != 0x80
            || (get32le (drop 16 rsp) != 0x02
                || (get32le (drop 20 rsp) != 0
                    || (get32le (drop 24 rsp) != 0 || get32le (drop 28 rsp) != 0)))))
      peer_error
  fail_if
      (get_or rsp 32 0 != 0
        || (get_or rsp 33 0 != 0
            || (get_or rsp 34 0 != 0
                || (get_or rsp 35 0 != 0
                    || not (same_bytes (take 16 (drop 36 rsp)) expected_alg_structs)))))
      peer_error

module _ (env : Env) where
  -- wolfSPDM_TCG_GetPubKey into a buffer of `room` bytes.
  unfoldable pub get_pub_key : ℕ → M Bytes
  get_pub_key room = do
    state ← gets λ c. c.state
    (if state == state_init then (do modify transcript_reset; get_version env) else pure tt)
    pub_key ← vendor_cmd_clear env (codes "GET_PUBK") []
    check_pub_key pub_key
    fail_if (ltb room (length pub_key)) buffer_small
    pure pub_key

  -- wolfSPDM_TCG_GivePubKey.
  unfoldable pub give_pub_key : Bytes → M (Unit {0})
  give_pub_key pub_key = do
    state ← gets λ c. c.state
    fail_if (ltb state state_key_ex) bad_state
    vendor_cmd_secured env (codes "GIVE_PUB") pub_key

  -- A clear request of the TCG handshake: request and response go into the transcript, the latter
  -- once `check` has passed, and a failure leaves the state ERROR.
  unfoldable pub tcg_exchange : Bytes → ℕ → (Bytes → M (Unit {0})) → M (Unit {0})
  tcg_exchange req room check =
      on_error
        (do transcript_add req; rsp ← send_receive env req room; check rsp; transcript_add rsp)
        (λ c. record c { state = state_error })

  -- wolfSPDM_TCG_GetCapabilities.
  unfoldable pub tcg_get_capabilities : ℕ → M (Unit {0})
  tcg_get_capabilities caps = do
    version ← gets λ c. c.spdm_version
    tcg_exchange
        (version
          ∷ 0xE1
          ∷ 0
          ∷ 0
          ∷ 0
          ∷ 0x1F
          ∷ 0
          ∷ 0
          ∷ (set32le caps ++ (0xC0 ∷ 0x07 ∷ 0 ∷ 0 ∷ 0xC0 ∷ 0x07 ∷ 0 ∷ 0 ∷ [])))
        64 (λ rsp. tcg_check_capabilities rsp caps)

  -- wolfSPDM_TCG_NegotiateAlgorithms.
  unfoldable pub tcg_negotiate_algorithms : M (Unit {0})
  tcg_negotiate_algorithms = do
    version ← gets λ c. c.spdm_version
    tcg_exchange
        (version
          ∷ 0xE3
          ∷ 0x04
          ∷ 0
          ∷ 0x30
          ∷ 0
          ∷ 0
          ∷ 0x02
          ∷ 0x80
          ∷ 0
          ∷ 0
          ∷ 0
          ∷ 0x02
          ∷ 0
          ∷ 0
          ∷ 0
          ∷ (replicate 16 0 ++ expected_alg_structs))
        128 tcg_check_algorithms

  -- Steps 2 and 3 of wolfSPDM_ConnectTCG, which the Nuvoton flow leaves out.
  unfoldable pub tcg_negotiate : Mode → M (Unit {0})
  tcg_negotiate nuvoton = pure tt
  tcg_negotiate _ = do
    connect_step (tcg_get_capabilities tcg_caps_flags_default)
    connect_step tcg_negotiate_algorithms

  -- Step 4: GET_PUBK, and Ct from what it returned.
  unfoldable pub tcg_fetch_key : M (Unit {0})
  tcg_fetch_key = do
    pub_key ← get_pub_key pubkey_buf_size
    modify λ c. record c { state = state_cert }
    hash ← sha384_hash env pub_key [] []
    modify λ c. record c { cert_chain_hash = hash }
    transcript_add hash

  -- Step 6: GIVE_PUB, if the host has a key.
  unfoldable pub tcg_give_key : M (Unit {0})
  tcg_give_key = do
    id ← gets λ c. c.identity
    (if id.has_req_key_pair && ltb 0 (length id.req_pub_key_tpmt)
        then give_pub_key id.req_pub_key_tpmt
        else pure tt)

  -- wolfSPDM_ConnectTCG. The certificate check of wolfSPDM_KeyExchange does not run in these modes.
  unfoldable pub connect_tcg : M (Unit {0}) → M (Unit {0})
  connect_tcg validate_cert_chain = do
    c ← gets λ c. c
    fail_if (not c.initialized) bad_state
    fail_if (not c.identity.has_rsp_pub_key || length c.identity.rsp_pub_key != ecc_point_size)
        bad_state
    fail_if (not c.wire.has_io) io_fail
    modify λ c. transcript_reset (record c { state = state_init })
    connect_step (get_version env)
    tcg_negotiate c.mode
    connect_step tcg_fetch_key
    connect_step (key_exchange env validate_cert_chain)
    connect_step tcg_give_key
    connect_step (finish env)
    modify λ c. record c { state = state_connected }
