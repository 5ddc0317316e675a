-- ===== src/Standard/Vca.antt =====
-- GET_CAPABILITIES and NEGOTIATE_ALGORITHMS of src/spdm_standard.c.
pub mod Suite
pub mod Limits
use wolf_spdm.Base.{
  ℕ, Bool, ◌&&◌, zero, suc, ◌+◌, ◌*◌, ◌/◌, ◌%◌, bit_and, false, not, ◌||◌, Option, none, some, ◌∷◌,
  ◌++◌, ltb, leb, ◌==◌, ◌!=◌, if◌then◌else◌, length, get_or, drop, replicate,
}
use wolf_spdm.Types.Code
use wolf_spdm.Types.{
  cap_cert, alg_type_dhe, cap_encrypt, dhe_algo_secp384r1, alg_type_aead, cap_mac, neg_algo_size,
  invalid_arg, buffer_small, cap_key_ex, hash_algo_sha_384, aead_algo_aes_256_gcm,
  alg_type_req_base_asym, alg_type_key_schedule, version_14, asym_algo_ecdsa_p384,
  key_schedule_spdm, algo_mismatch, caps_mismatch, req_caps, data_transfer_size_max, max_msg_size,
}
use wolf_spdm.Context.{Env, M, Bytes, ◌>>=◌, ◌>>◌, fail_if, modify, gets, pure, or_fail}
use wolf_spdm.Exchange.{exchange_msg}
use wolf_spdm.Bytes.{get16le, set16le, get32le, set32le}
use wolf_spdm.Running.{m1_start}
use wolf_spdm.Message.{check_response}

-- wolfSPDM_BuildGetCapabilities.
unfoldable pub build_get_capabilities : ℕ → M Bytes
build_get_capabilities size = do
  fail_if (ltb size 20) buffer_small
  version ← gets λ c. c.spdm_version
  pure (
      version
      ∷ Code.get_capabilities
      ∷ 0
      ∷ 0
      ∷ 0
      ∷ 0
      ∷ 0
      ∷ 0
      ∷ (set32le req_caps ++ (set32le data_transfer_size_max ++ set32le max_msg_size)))

-- The capabilities that a responder must have.
abbrev pub required_caps : ℕ
required_caps = cap_cert + cap_encrypt + cap_mac + cap_key_ex

-- wolfSPDM_ParseCapabilities. 42 is the MinDataTransferSize of DSP0274.
unfoldable pub parse_capabilities : Bytes → M (Unit {0})
parse_capabilities buf = do
  fail_if (ltb (length buf) 4) invalid_arg
  check_response buf Code.capabilities caps_mismatch
  version ← gets λ c. c.spdm_version
  fail_if (ltb (length buf) 20 || get_or buf 0 0 != version) caps_mismatch
  let caps = get32le (drop 8 buf)
  let size = get32le (drop 12 buf)
  let max_msg = get32le (drop 16 buf)
  fail_if (bit_and caps required_caps != required_caps || (ltb size 42 || ltb max_msg size))
      caps_mismatch
  modify λ c. record c {
    limits = record (c.limits) {
      rsp_caps = caps;
      data_transfer_size = size;
      max_spdm_msg_size = max_msg;
    };
  }

-- An algorithm structure with one selection.
unfoldable pub alg_struct : ℕ → ℕ → Bytes
alg_struct alg_type alg = alg_type ∷ 0x20 ∷ set16le alg

-- The four algorithm structures of the request.
unfoldable pub alg_structs : Bytes
alg_structs =
    alg_struct alg_type_dhe dhe_algo_secp384r1
    ++ (alg_struct alg_type_aead aead_algo_aes_256_gcm
        ++ (alg_struct alg_type_req_base_asym asym_algo_ecdsa_p384
            ++ alg_struct alg_type_key_schedule key_schedule_spdm))

-- wolfSPDM_BuildNegotiateAlgorithms.
unfoldable pub build_negotiate_algorithms : ℕ → M Bytes
build_negotiate_algorithms size = do
  fail_if (ltb size neg_algo_size) buffer_small
  version ← gets λ c. c.spdm_version
  pure (
      version
      ∷ Code.negotiate_algorithms
      ∷ length alg_structs / 4
      ∷ 0
      ∷ (set16le (32 + length alg_structs)
          ++ (0x01
              ∷ 0x02
              ∷ (set32le asym_algo_ecdsa_p384
                  ++ (set32le hash_algo_sha_384 ++ (replicate 16 0 ++ alg_structs))))))

-- `dheOk`, `aeadOk` and `ksOk`.
pub record Selected : Type 0 where
  pub dhe_ok : Bool
  pub aead_ok : Bool
  pub ks_ok : Bool

-- One algorithm structure; a later one of the same type replaces the earlier selection.
unfoldable pub select_alg : ℕ → ℕ → Selected → Selected
select_alg alg_type alg s =
    if alg_type == alg_type_dhe
    then record s { dhe_ok = alg == dhe_algo_secp384r1 }
    else (if alg_type == alg_type_aead
        then record s { aead_ok = alg == aead_algo_aes_256_gcm }
        else (if alg_type == alg_type_key_schedule
            then record s { ks_ok = alg == key_schedule_spdm }
            else s))

-- The loop over `n` algorithm structures, each with its external algorithms after it. `none` is
-- one that does not fit the message.
unfoldable pub select_algs : ℕ → Bytes → Selected → Option Selected
select_algs zero structs s = some s
select_algs (suc n) structs s =
    let next =
      select_algs n (drop (4 + get_or structs 1 0 % 16 * 4) structs)
        (select_alg (get_or structs 0 0) (get16le (drop 2 structs)) s) in
    if ltb (length structs) 4 then none else next

-- Where the algorithm structures start, past the external signature and hash algorithms.
unfoldable pub algs_offset : Bytes → ℕ
algs_offset buf = 36 + get_or buf 32 0 * 4 + get_or buf 33 0 * 4

-- The fixed fields that wolfSPDM_ParseAlgorithms refuses; before 1.4 PqcAsymSel is reserved.
unfoldable pub bad_algorithms : ℕ → Bytes → Bool
bad_algorithms version buf =
    ltb (length buf) 36
    || (get_or buf 0 0 != version
        || (get16le (drop 4 buf) != length buf
            || (ltb 0x01 (get_or buf 6 0)
                || (get_or buf 7 0 != 0x02
                    || (get32le (drop 16 buf) != hash_algo_sha_384
                        || (leb version_14 version && get32le (drop 20 buf) != 0
                            || get32le (drop 12 buf) != asym_algo_ecdsa_p384))))))

-- wolfSPDM_ParseAlgorithms.
unfoldable pub parse_algorithms : Bytes → M (Unit {0})
parse_algorithms buf = do
  fail_if (ltb (length buf) 4) invalid_arg
  check_response buf Code.algorithms algo_mismatch
  version ← gets λ c. c.spdm_version
  fail_if (bad_algorithms version buf) algo_mismatch
  s ←
      or_fail
        (select_algs (get_or buf 2 0) (drop (algs_offset buf) buf)
          (record { dhe_ok = false; aead_ok = false; ks_ok = false }))
        algo_mismatch
  fail_if (not s.dhe_ok || (not s.aead_ok || not s.ks_ok)) algo_mismatch

module _ (env : Env) where
  -- wolfSPDM_GetCapabilities.
  unfoldable pub get_capabilities : M (Unit {0})
  get_capabilities = exchange_msg env build_get_capabilities parse_capabilities 20 64

  -- wolfSPDM_NegotiateAlgorithms: the VCA ends here, and M1 starts.
  unfoldable pub negotiate_algorithms : M (Unit {0})
  negotiate_algorithms = do
    exchange_msg env build_negotiate_algorithms parse_algorithms neg_algo_size 128
    modify λ c. record c { limits = record (c.limits) { vca_len = length c.transcript } }
    m1_start env
