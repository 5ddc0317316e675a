-- ===== src/Message/Finish.antt =====
-- FINISH and FINISH_RSP of src/spdm_msg.c, with mutual authentication.
use wolf_spdm.Base.{
  ℕ, ◌+◌, ◌%◌, [], ◌∷◌, ◌++◌, Bool, ◌&&◌, not, ltb, leb, ◌==◌, length, take, drop, get_or,
  if◌then◌else◌,
}
use wolf_spdm.Types.Code
use wolf_spdm.Types.{
  version_14, state_finish, hash_size, ecc_point_size, finish_opaque_max, invalid_arg, buffer_small,
  bad_state, peer_error,
}
use wolf_spdm.Context.{Bytes, Env, Ctx, M, ◌>>=◌, fail, fail_if, gets, modify, pure, ◌>>◌}
use wolf_spdm.Bytes.{get16le}
use wolf_spdm.Transcript.{transcript_add, transcript_hash, sha384_hash}
use wolf_spdm.Crypto.{sign_hash}
use wolf_spdm.Kdf.{codes, compute_verify_data}
use wolf_spdm.Message.Signing.{build_signed_hash}

-- MutAuthRequested bit 0.
unfoldable pub mutual_auth : Ctx → Bool
mutual_auth c = c.mut_auth_requested % 2 == 1

-- The FINISH header; SPDM 1.4 adds an empty OpaqueData.
unfoldable pub finish_header : ℕ → Bool → Bytes
finish_header version with_sig =
    version
    ∷ Code.finish
    ∷ (if with_sig then 1 else 0)
    ∷ (if with_sig then 0xFF else 0)
    ∷ (if leb version_14 version then 0 ∷ 0 ∷ [] else [])

-- The size that wolfSPDM_BuildFinish asks of its buffer.
unfoldable pub finish_min_size : ℕ → Bool → ℕ
finish_min_size version with_sig =
    4
    + hash_size
    + (if leb version_14 version then 2 else 0)
    + (if with_sig then ecc_point_size else 0)

module _ (env : Env) where
  -- Hash(Cm_requester) goes into the transcript before the header.
  unfoldable pub add_requester_key : Bool → M (Unit {0})
  add_requester_key with_sig = do
    tpmt ← gets λ c. c.identity.req_pub_key_tpmt
    (if with_sig && ltb 0 (length tpmt)
        then sha384_hash env tpmt [] [] >>= (λ cm. transcript_add cm)
        else pure tt)

  -- The requester's signature over TH2, if one is wanted, and the TH2 that covers it.
  unfoldable pub finish_signature : Bool → Bytes → M (Bytes × Bytes)
  finish_signature with_sig th2_hash = do
    version ← gets λ c. c.spdm_version
    (if with_sig
        then (do
          hash ← build_signed_hash env version (codes "requester-finish signing") th2_hash
          signature ← sign_hash env hash ecc_point_size
          transcript_add signature
          covered ← transcript_hash env
          pure (signature, covered))
        else pure ([], th2_hash))

  -- wolfSPDM_BuildFinish.
  unfoldable pub build_finish : ℕ → M Bytes
  build_finish size = do
    c ← gets λ c. c
    fail_if (mutual_auth c && not c.identity.has_req_key_pair) bad_state
    fail_if (ltb size (finish_min_size c.spdm_version (mutual_auth c))) buffer_small
    add_requester_key (mutual_auth c)
    transcript_add (finish_header c.spdm_version (mutual_auth c))
    th2_hash ← transcript_hash env
    modify λ c. record c { th2 = th2_hash }
    signed ← finish_signature (mutual_auth c) th2_hash
    verify_data ← compute_verify_data env c.keys.req_finished_key signed.1
    transcript_add verify_data
    pure (finish_header c.spdm_version (mutual_auth c) ++ (signed.0 ++ verify_data))

-- How much of FINISH_RSP goes into the transcript: its header, and from 1.4 on its OpaqueData.
unfoldable pub finish_rsp_len : Bytes → M ℕ
finish_rsp_len buf = do
  version ← gets λ c. c.spdm_version
  (if leb version_14 version
      then (do
        fail_if (ltb (length buf) 6) buffer_small
        fail_if (ltb finish_opaque_max (get16le (drop 4 buf))) invalid_arg
        fail_if (ltb (length buf) (6 + get16le (drop 4 buf))) buffer_small
        pure (6 + get16le (drop 4 buf)))
      else pure 4)

-- wolfSPDM_ParseFinishRsp.
unfoldable pub parse_finish_rsp : Bytes → M (Unit {0})
parse_finish_rsp buf = do
  fail_if (ltb (length buf) 4) invalid_arg
  (if get_or buf 1 0 == Code.finish_rsp
      then (do
        len ← finish_rsp_len buf
        transcript_add (take len buf)
        modify λ c. record c { state = state_finish })
      else fail (if get_or buf 1 0 == Code.error then peer_error else bad_state))
