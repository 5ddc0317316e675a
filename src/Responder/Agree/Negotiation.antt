-- ===== src/Responder/Agree/Negotiation.antt =====
-- The requester takes what the responder answers to GET_VERSION, GET_CAPABILITIES and
-- NEGOTIATE_ALGORITHMS (src/spdm_responder.c, src/spdm_msg.c, src/spdm_tcg.c).
use wolf_spdm.Base.{
  ℕ, ◌≤◌, ◌≡◌, Bool, true, false, arith, ltb, if◌then◌else◌, sym, ap, ◌∙◌, [], ◌∷◌,
}
use wolf_spdm.Responder.Clear.{
  build_version, build_capabilities, build_algorithms, select_version, version_entries,
  resp_max_version,
}
use wolf_spdm.Message.Version.{parse_version, entry_count, highest_version, improves, max_ver}
use wolf_spdm.Tcg.Handshake.{
  tcg_check_capabilities, tcg_check_algorithms, tcg_check_response, tcg_required_flags, bad_psk_cap,
  expected_alg_structs, tcg_caps_flags_default,
}
use wolf_spdm.Message.{check_parse_or_error_args, check_response, check_error}
use wolf_spdm.Bytes.{set32le, get32le, get16le, same_bytes}
use wolf_spdm.Context.{Ctx, Bytes, ok}
use wolf_spdm.Types.{min_spdm_version, state_version}
use wolf_spdm.Vendor.{vca_caps_flags_psk}

-- A requester whose top version is at least 1.2 takes from the responder's VERSION the lower of that
-- and 1.3, and the responder then takes a request with that version, and pins it.
pub version_agreement :
    (room : ℕ) (c c' d : Ctx) (rsp : Bytes) (vendor : Bool)
    → min_spdm_version ≤ max_ver d
    → build_version room c ≡ (ok rsp, c')
    → let v = (if ltb (max_ver d) resp_max_version then max_ver d else resp_max_version) in
      (parse_version rsp d ≡ (ok tt, record d { spdm_version = v; state = state_version }))
      × (select_version v vendor c' ≡ (ok tt, record c' { spdm_version = v }))
unfolding build_version parse_version select_version check_parse_or_error_args check_response
    entry_count highest_version improves version_entries
version_agreement room c c' d rsp vendor top built = (ground arith, ground arith)

-- The second byte of the responder's capability flags.
abbrev caps_byte : Bool → ℕ
caps_byte true = 0x97
caps_byte false = 0x93

abbrev capabilities_bytes : ℕ → Bool → Bytes
capabilities_bytes v psk =
    v
    ∷ 0x61
    ∷ 0
    ∷ 0
    ∷ 0
    ∷ 0x1F
    ∷ 0
    ∷ 0
    ∷ 0xC0
    ∷ caps_byte psk
    ∷ 1
    ∷ 0
    ∷ 0xC0
    ∷ 7
    ∷ 0
    ∷ 0
    ∷ 0xC0
    ∷ 7
    ∷ 0
    ∷ 0
    ∷ []

abbrev algorithms_bytes : ℕ → Bytes
algorithms_bytes v =
    v ∷ 0x63 ∷ 4 ∷ 0 ∷ 0x34 ∷ 0 ∷ 0 ∷ 2 ∷ 0 ∷ 0 ∷ 0 ∷ 0 ∷ 0x80 ∷ 0 ∷ 0 ∷ 0 ∷ 2 ∷ 0 ∷ 0 ∷ 0 ∷ 0 ∷ 0
    ∷ 0 ∷ 0 ∷ 0 ∷ 0 ∷ 0 ∷ 0 ∷ 0 ∷ 0 ∷ 0 ∷ 0 ∷ 0 ∷ 0 ∷ 0 ∷ 0 ∷ 2 ∷ 0x20 ∷ 0x10 ∷ 0 ∷ 3 ∷ 0x20 ∷ 2 ∷ 0
    ∷ 4 ∷ 0x20 ∷ 0x80 ∷ 0 ∷ 5 ∷ 0x20 ∷ 1 ∷ 0 ∷ []

capabilities_built :
    (psk : Bool) (room : ℕ) (c : Ctx) (rsp : Bytes)
    → (build_capabilities psk room c).0 ≡ ok rsp
    → rsp ≡ capabilities_bytes c.spdm_version psk
unfolding build_capabilities set32le
capabilities_built true room c rsp e = ground arith
capabilities_built false room c rsp e = ground arith

algorithms_built :
    (room : ℕ) (c : Ctx) (rsp : Bytes)
    → (build_algorithms room c).0 ≡ ok rsp
    → rsp ≡ algorithms_bytes c.spdm_version
unfolding build_algorithms
algorithms_built room c rsp e = ground arith

module _ (d : Ctx) where
  default_accepted :
      (psk : Bool)
      → tcg_check_capabilities (capabilities_bytes d.spdm_version psk) tcg_caps_flags_default d
        ≡ (ok tt, d)
  unfolding tcg_check_capabilities tcg_check_response check_error get32le tcg_required_flags
      bad_psk_cap
  default_accepted true = ground arith
  default_accepted false = ground arith

  psk_accepted :
      tcg_check_capabilities (capabilities_bytes d.spdm_version true) vca_caps_flags_psk d
      ≡ (ok tt, d)
  unfolding tcg_check_capabilities tcg_check_response check_error get32le tcg_required_flags
      bad_psk_cap
  psk_accepted = ground arith

  algorithms_accepted : tcg_check_algorithms (algorithms_bytes d.spdm_version) d ≡ (ok tt, d)
  unfolding tcg_check_algorithms tcg_check_response check_error get32le get16le same_bytes
      expected_alg_structs
  algorithms_accepted = ground arith

-- The flags that a requester may offer to a responder with PSK on or off.
abbrev pub offered_flags : Bool → ℕ
offered_flags true = vca_caps_flags_psk
offered_flags false = tcg_caps_flags_default

offered_accepted :
    (d : Ctx) (psk_enabled : Bool)
    → tcg_check_capabilities
        (capabilities_bytes d.spdm_version psk_enabled)
        (offered_flags psk_enabled)
        d
      ≡ (ok tt, d)
offered_accepted d true = psk_accepted d
offered_accepted d false = default_accepted d false

-- With the version agreed, the requester accepts the CAPABILITIES of the responder, whether it offered
-- the default flags or, to a responder with PSK on, those for PSK, and its ALGORITHMS; and it changes
-- nothing of its context by that.
pub vca_agreement :
    (psk_enabled : Bool) (room : ℕ) (c d : Ctx) (capabilities algorithms : Bytes)
    → d.spdm_version ≡ c.spdm_version
    → (build_capabilities psk_enabled room c).0 ≡ ok capabilities
    → (build_algorithms room c).0 ≡ ok algorithms
    → (tcg_check_capabilities capabilities tcg_caps_flags_default d ≡ (ok tt, d))
      × (tcg_check_capabilities capabilities (offered_flags psk_enabled) d ≡ (ok tt, d))
      × (tcg_check_algorithms algorithms d ≡ (ok tt, d))
vca_agreement psk_enabled room c d capabilities algorithms same caps algs =
    let caps' : capabilities ≡ capabilities_bytes d.spdm_version psk_enabled =
      capabilities_built psk_enabled room c capabilities caps
      ∙ ap (λ v. capabilities_bytes v psk_enabled) (sym same) in
    let algs' : algorithms ≡ algorithms_bytes d.spdm_version =
      algorithms_built room c algorithms algs ∙ ap algorithms_bytes (sym same) in
    (
      rw caps' (default_accepted d psk_enabled),
      rw caps' (offered_accepted d psk_enabled),
      rw algs' (algorithms_accepted d),
    )
