-- ===== src/Message/Signing.antt =====
-- The signing helpers of src/spdm_msg.c: the combined SPDM prefix, and the check of a responder
-- signature.
use wolf_spdm.Base.{
  ℕ, zero, suc, ◌+◌, ◌-◌, ◌/◌, ◌%◌, [], ◌∷◌, ◌++◌, not, ltb, ◌!=◌, length, replicate, if◌then◌else◌,
}
use wolf_spdm.Types.{ecc_sig_size, invalid_arg, bad_state, bad_signature}
use wolf_spdm.Context.{Bytes, Env, Result, ok, err, M, fail_if, gets, lift, ◌>>=◌, ◌>>◌}
use wolf_spdm.Transcript.{sha384_hash}
use wolf_spdm.Crypto.{verify_signature}
use wolf_spdm.Kdf.{codes}

-- One "dmtf-spdm-vX.Y.*" with the digits of the version.
unfoldable pub signing_prefix : ℕ → Bytes
signing_prefix version =
    codes "dmtf-spdm-v"
    ++ ((b'0' + version / 16 % 16) % 256 ∷ b'.' ∷ (b'0' + version % 16) % 256 ∷ b'.' ∷ b'*' ∷ [])

-- `n` copies of the prefix.
unfoldable pub signing_prefixes : ℕ → ℕ → Bytes
signing_prefixes version zero = []
signing_prefixes version (suc n) = signing_prefix version ++ signing_prefixes version n

-- wolfSPDM_BuildSignedMsg: prefix x4, zero padding, context string, input digest.
unfoldable pub build_signed_msg : ℕ → Bytes → Bytes → Result Bytes
build_signed_msg version context input_digest =
    if ltb 36 (length context)
    then err invalid_arg
    else ok (
        signing_prefixes version 4
        ++ (replicate (36 - length context) 0 ++ (context ++ input_digest)))

module _ (env : Env) where
  -- wolfSPDM_BuildSignedHash.
  unfoldable pub build_signed_hash : ℕ → Bytes → Bytes → M Bytes
  build_signed_hash version context input_digest = do
    msg ← lift (build_signed_msg version context input_digest)
    sha384_hash env msg [] []

  -- wolfSPDM_VerifyRspSig; without ML-DSA the signature size is that of ECDSA P-384.
  unfoldable pub verify_rsp_sig : Bytes → Bytes → Bytes → M (Unit {0})
  verify_rsp_sig context message_hash sig = do
    has_key ← gets λ c. c.identity.has_rsp_pub_key
    fail_if (not has_key) bad_state
    fail_if (length sig != ecc_sig_size) bad_signature
    version ← gets λ c. c.spdm_version
    hash ← build_signed_hash version context message_hash
    verify_signature env hash sig
