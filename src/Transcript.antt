-- ===== src/Transcript.antt =====
-- src/spdm_transcript.c: the running VCA and session transcript, and its hash.
pub mod Bound
use wolf_spdm.Base.{◌-◌, [], ◌++◌, Bool, ◌||◌, ltb, length, replicate}
use wolf_spdm.Types.{max_transcript, hash_size, crypto_fail, buffer_small}
use wolf_spdm.Context.{Bytes, Env, Ctx, M, fail_if, modify, gets, or_fail, ◌>>=◌, ◌>>◌}

-- wolfSPDM_TranscriptReset.
unfoldable pub transcript_reset : Ctx → Ctx
transcript_reset c = record c {
  transcript = [];
  cert_chain_hash = replicate hash_size 0;
  th1 = replicate hash_size 0;
  th2 = replicate hash_size 0;
}

-- The guard of wolfSPDM_TranscriptAdd.
unfoldable pub overflows : Bytes → Bytes → Bool
overflows transcript message =
    ltb max_transcript (length transcript)
    || ltb (max_transcript - length transcript) (length message)

-- wolfSPDM_TranscriptAdd.
unfoldable pub transcript_add : Bytes → M (Unit {0})
transcript_add message c =
    (do
      fail_if (overflows c.transcript message) buffer_small
      modify λ c. record c { transcript = c.transcript ++ message })
      c

module _ (env : Env) where
  -- wolfSPDM_Sha384Hash: an absent or empty part adds nothing.
  unfoldable pub sha384_hash : Bytes → Bytes → Bytes → M Bytes
  sha384_hash d1 d2 d3 = or_fail (env.sha384 (d1 ++ (d2 ++ d3))) crypto_fail

  -- wolfSPDM_TranscriptHash.
  unfoldable pub transcript_hash : M Bytes
  transcript_hash = do t ← gets λ c. c.transcript; sha384_hash t [] []
