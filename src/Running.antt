-- ===== src/Running.antt =====
-- The running L1/L2 and M1 hashes of src/spdm_attest.c. A live hash is what it has taken in, and
-- wc_Sha384Final of it is the SHA-384 of that.
pub mod Verify
use wolf_spdm.Base.{ℕ, [], ◌++◌, not, take, drop}
use wolf_spdm.Types.{Run, run_none, crypto_fail, run_live, ecc_sig_size, run_open}
use wolf_spdm.Context.{Env, Bytes, Ctx, M, ◌>>=◌, ◌>>◌, always, gets, modify, fail_if, or_fail, ok}
use wolf_spdm.Message.Signing.{verify_rsp_sig}

-- Which of the two running hashes a step works on.
pub data Digest : Type 0 where
  l1l2 m1 : Digest

abbrev pub run_state : Digest → Ctx → Run
run_state l1l2 c = c.attest.l1l2_state
run_state m1 c = c.attest.m1_state

abbrev pub run_hash : Digest → Ctx → Bytes
run_hash l1l2 c = c.attest.l1l2_hash
run_hash m1 c = c.attest.m1_hash

abbrev pub set_run_state : Digest → Run → Ctx → Ctx
set_run_state l1l2 s c = record c { attest = record (c.attest) { l1l2_state = s } }
set_run_state m1 s c = record c { attest = record (c.attest) { m1_state = s } }

abbrev pub set_run_hash : Digest → Bytes → Ctx → Ctx
set_run_hash l1l2 h c = record c { attest = record (c.attest) { l1l2_hash = h } }
set_run_hash m1 h c = record c { attest = record (c.attest) { m1_hash = h } }

module _ (env : Env) where
  -- wc_Sha384Update of a running hash.
  unfoldable pub run_update : Digest → Bytes → M (Unit {0})
  run_update d bytes = do
    before ← gets (run_hash d)
    fail_if (not (env.sha384_update before bytes)) crypto_fail
    modify (set_run_hash d (before ++ bytes))

  -- wolfSPDM_RunStart: a hash that starts again at the VCA.
  unfoldable pub run_start : Digest → M (Unit {0})
  run_start d = do
    modify (set_run_state d run_none)
    fail_if (not env.sha384_init) crypto_fail
    modify (set_run_state d run_live)
    modify (set_run_hash d [])
    vca ← gets λ c. take c.limits.vca_len c.transcript
    run_update d vca

  -- wolfSPDM_RunAdd.
  unfoldable pub run_add : Digest → Bytes → Bytes → M (Unit {0})
  run_add d req rsp = do run_update d req; run_update d rsp

  -- wolfSPDM_RunVerify: the run ends whether or not the response verifies.
  unfoldable pub run_verify : Digest → Bytes → Bytes → Bytes → ℕ → M (Unit {0})
  run_verify d label req rsp sig_off = do
    digest ←
        always
          (do
            run_add d req (take sig_off rsp)
            whole ← gets (run_hash d)
            or_fail (env.sha384 whole) crypto_fail)
          (set_run_state d run_none)
    verify_rsp_sig env label digest (take ecc_sig_size (drop sig_off rsp))

  -- wolfSPDM_M1Start.
  unfoldable pub m1_start : M (Unit {0})
  m1_start = run_start m1

  -- wolfSPDM_M1Add: nothing without a live M1.
  unfoldable pub m1_add : Bytes → Bytes → M (Unit {0})
  m1_add req rsp c = elim c.attest.m1_state [
    | run_none ↦ (ok tt, c)
    | run_live ↦ run_add m1 req rsp c
    | run_open ↦ run_add m1 req rsp c
  ]
