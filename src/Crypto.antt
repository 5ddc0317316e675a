-- ===== src/Crypto.antt =====
-- src/spdm_crypto.c without ML-KEM and ML-DSA: randomness, the ephemeral ECDHE key and signatures.
use wolf_spdm.Base.{
  ℕ, ◌+◌, ◌-◌, [], ◌++◌, true, false, ◌||◌, not, ltb, leb, ◌==◌, ◌!=◌, length, take, drop,
  replicate, none, some, if◌then◌else◌,
}
use wolf_spdm.Types.{
  ecc_key_size, ecc_point_size, ecc_sig_size, invalid_arg, bad_state, buffer_small, crypto_fail,
  bad_signature,
}
use wolf_spdm.Context.{
  Bytes, Env, Ctx, Result, ok, err, M, fail_if, modify, gets, or_fail, pure, lift, ◌>>=◌, ◌>>◌,
}
use wolf_spdm.Bytes.{get16be}

-- wolfSPDM_LeftPadToSize.
unfoldable pub left_pad_to_size : Bytes → ℕ → Bytes
left_pad_to_size buf target =
    if ltb (length buf) target then replicate (target - length buf) 0 ++ buf else buf

-- wolfSPDM_FreeEphemeralKey.
unfoldable pub free_ephemeral_key : Ctx → Ctx
free_ephemeral_key c = record c { ephemeral = none }

-- wolfSPDM_ExtractEccPoint as X || Y: a raw point, or the one at the end of a TPMT_PUBLIC, where a
-- size precedes each coordinate.
unfoldable pub extract_ecc_point : Bytes → Result Bytes
extract_ecc_point pub_key =
    let tail = drop (length pub_key - (ecc_point_size + 4)) pub_key in
    if length pub_key == ecc_point_size
    then ok pub_key
    else (if leb (ecc_point_size + 4) (length pub_key)
        then (if get16be tail != ecc_key_size
              || get16be (drop (2 + ecc_key_size) tail) != ecc_key_size
            then err invalid_arg
            else ok (
                take ecc_key_size (drop 2 tail)
                ++ take ecc_key_size (drop (4 + ecc_key_size) tail)))
        else err invalid_arg)

module _ (env : Env) where
  -- wolfSPDM_GetRandom.
  unfoldable pub get_random : ℕ → M Bytes
  get_random n = do
    fail_if (n == 0) invalid_arg
    ready ← gets λ c. c.rng_initialized
    fail_if (not ready) bad_state
    k ← gets λ c. c.draws
    modify λ c. record c { draws = c.draws + 1 }
    or_fail (env.random k n) crypto_fail

  -- wolfSPDM_GenerateEphemeralKey.
  unfoldable pub generate_ephemeral_key : M (Unit {0})
  generate_ephemeral_key = do
    ready ← gets λ c. c.rng_initialized
    fail_if (not ready) bad_state
    modify free_ephemeral_key
    k ← gets λ c. c.draws
    modify λ c. record c { draws = c.draws + 1 }
    key ← or_fail (env.ecc_make_key k) crypto_fail
    modify λ c. record c { ephemeral = some key }

  -- wolfSPDM_ExportEphemeralPubKey: X || Y, each padded to the full size.
  unfoldable pub export_ephemeral_pub_key : ℕ → ℕ → M Bytes
  export_ephemeral_pub_key x_size y_size = do
    held ← gets λ c. c.ephemeral
    key ← or_fail held bad_state
    fail_if (ltb x_size ecc_key_size || ltb y_size ecc_key_size) buffer_small
    point ← or_fail (env.ecc_export_public_raw key) crypto_fail
    pure (left_pad_to_size point.0 ecc_key_size ++ left_pad_to_size point.1 ecc_key_size)

  -- wolfSPDM_ComputeSharedSecret; the secret is empty after a failure.
  unfoldable pub compute_shared_secret : Bytes → Bytes → M (Unit {0})
  compute_shared_secret peer_x peer_y = do
    held ← gets λ c. c.ephemeral
    key ← or_fail held bad_state
    let secret = env.ecc_shared_secret key peer_x peer_y
    modify λ c. record c {
      keys = record (c.keys) {
        shared_secret = elim secret [ none ↦ [] | some s ↦ left_pad_to_size s ecc_key_size ];
      };
    }
    fail_if (elim secret [ none ↦ true | some s ↦ false ]) crypto_fail

  -- wolfSPDM_VerifySignature of the raw signature r || s, with ECDSA P-384.
  unfoldable pub verify_signature : Bytes → Bytes → M (Unit {0})
  verify_signature hash sig = do
    id ← gets λ c. c.identity
    fail_if (not id.has_rsp_pub_key || ltb (length id.rsp_pub_key) ecc_point_size) bad_state
    fail_if (length sig != ecc_sig_size) invalid_arg
    point ← lift (extract_ecc_point id.rsp_pub_key)
    verified ← or_fail (env.ecc_verify point hash sig) bad_signature
    fail_if (not verified) bad_signature

  -- wolfSPDM_SignHash into a buffer of `sig_size` bytes.
  unfoldable pub sign_hash : Bytes → ℕ → M Bytes
  sign_hash hash sig_size = do
    id ← gets λ c. c.identity
    fail_if (not id.has_req_key_pair || length id.req_priv_key == 0) bad_state
    fail_if (ltb sig_size ecc_point_size) buffer_small
    k ← gets λ c. c.draws
    modify λ c. record c { draws = c.draws + 1 }
    sig ← or_fail (env.ecc_sign k id.req_priv_key id.req_pub_key hash) crypto_fail
    pure (left_pad_to_size sig.0 ecc_key_size ++ left_pad_to_size sig.1 ecc_key_size)
