-- ===== src/Attest/Challenge.antt =====
-- CHALLENGE of src/spdm_attest.c.
pub mod Authentic
use wolf_spdm.Base.{
  ℕ, Bool, ◌+◌, ◌*◌, ◌%◌, bit_and, true, false, not, ◌||◌, ◌∷◌, ltb, ◌==◌, ◌!=◌, if◌then◌else◌,
  length, get_or, take, drop,
}
use wolf_spdm.Types.Code
use wolf_spdm.Types.{run_none, run_live, run_open, state_cert, state_error, Run}
use wolf_spdm.Context.{Env, Ctx, Bytes, M, ◌>>=◌, ◌>>◌, gets, fail_if, or_fail, pure}
use wolf_spdm.Types.{
  hash_size, bad_state, invalid_arg, cap_chal, buffer_small, caps_mismatch, challenge, ecc_sig_size,
}
use wolf_spdm.Attest.{nonce_size, attest_tail_size, req_context_size, req_context_max, parse_tail}
use wolf_spdm.Standard.Chain.{Asn, validate_cert_chain}
use wolf_spdm.Message.{check_response}
use wolf_spdm.Crypto.{get_random}
use wolf_spdm.Bytes.{same_bytes}
use wolf_spdm.Exchange.{clear_exchange}
use wolf_spdm.Running.{run_verify, m1, m1_start}
use wolf_spdm.Kdf.{codes}

-- WOLFSPDM_CHAL_RSP_SZ.
abbrev pub chal_rsp_size : ℕ
chal_rsp_size = 4 + 2 * hash_size + nonce_size + attest_tail_size

-- Where OpaqueLength of CHALLENGE_AUTH is: past the chain hash, the nonce and the measurement
-- summary hash that the request may ask for.
unfoldable pub chal_tail_offset : Bytes → ℕ
chal_tail_offset req = 4 + hash_size + nonce_size + (if get_or req 3 0 != 0 then hash_size else 0)

-- wolfSPDM_ParseChallengeAuth: where the signature starts.
unfoldable pub parse_challenge_auth : Bytes → Bytes → M ℕ
parse_challenge_auth req buf = do
  fail_if (ltb (length buf) 4) invalid_arg
  fail_if (ltb (length req) 4) invalid_arg
  check_response buf Code.challenge_auth challenge
  c ← gets λ c. c
  fail_if
      (get_or buf 0 0 != c.spdm_version
        || (get_or buf 2 0 % 16 != get_or req 2 0
            || (ltb (length buf) (chal_tail_offset req)
                || not (same_bytes (take hash_size (drop 4 buf)) c.cert_chain_hash))))
      challenge
  or_fail (parse_tail c.spdm_version req buf (chal_tail_offset req) ecc_sig_size) challenge

abbrev pub is_none : Run → Bool
is_none run_none = true
is_none run_live = false
is_none run_open = false

-- The guard of wolfSPDM_Challenge: M1 covers the chain fetched for this slot.
unfoldable pub no_challenge : ℕ → Ctx → Bool
no_challenge slot c =
    ltb c.state state_cert
    || (c.state == state_error || (is_none c.attest.m1_state || slot != c.limits.current_slot_id))

module _ (env : Env) (asn : Asn) where
  -- wolfSPDM_BuildChallenge: the nonce and the RequesterContext are one draw.
  unfoldable pub build_challenge : ℕ → ℕ → ℕ → M Bytes
  build_challenge size slot meas_hash_type = do
    version ← gets λ c. c.spdm_version
    fail_if (ltb 7 slot) invalid_arg
    fail_if (ltb size (4 + nonce_size + req_context_size version)) buffer_small
    random ← get_random env (nonce_size + req_context_size version)
    pure (version ∷ Code.challenge ∷ slot ∷ meas_hash_type ∷ random)

  -- wolfSPDM_Challenge.
  unfoldable pub challenge_slot : ℕ → ℕ → M (Unit {0})
  challenge_slot slot meas_hash_type = do
    c ← gets λ c. c
    fail_if (no_challenge slot c) bad_state
    fail_if (bit_and c.limits.rsp_caps cap_chal == 0) caps_mismatch
    validate_cert_chain env asn
    req ← build_challenge (4 + nonce_size + req_context_max) slot meas_hash_type
    rsp ← clear_exchange env req chal_rsp_size
    sig_off ← parse_challenge_auth req rsp
    run_verify env m1 (codes "responder-challenge_auth signing") req rsp sig_off
    m1_start env
