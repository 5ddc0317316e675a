-- ===== src/Attest/Measurements.antt =====
-- GET_MEASUREMENTS of src/spdm_attest.c.
pub mod Blocks
pub mod Stored
use wolf_spdm.Base.{
  ℕ, Bool, ◌&&◌, zero, suc, ◌+◌, ◌-◌, ◌*◌, ◌%◌, ◌^◌, bit_and, ◌||◌, [], ◌∷◌, ◌++◌, ltb, leb, ◌==◌,
  ◌!=◌, if◌then◌else◌, length, get_or, take, drop,
}
use wolf_spdm.Types.Code
use wolf_spdm.Types.{run_none, run_live, run_open}
use wolf_spdm.Context.{
  Env, Bytes, Ctx, Result, M, ◌>>◌, err, ◌>>=◌, modify, gets, fail_if, ok, pure, or_fail,
}
use wolf_spdm.Types.{
  cap_meas_sig, max_meas_record, meas_spec_dmtf, cap_meas_no_sig, meas_block_hdr_size, invalid_arg,
  buffer_small, state_connected, measurement, not_connected, caps_mismatch, run_open, ecc_sig_size,
}
use wolf_spdm.Bytes.{get16le}
use wolf_spdm.Attest.{nonce_size, attest_tail_size, req_context_size, parse_tail, req_context_max}
use wolf_spdm.Running.{run_verify, l1l2, run_add, set_run_state, run_start}
use wolf_spdm.Message.{check_parse_or_error_args, check_response}
use wolf_spdm.Kdf.{codes}
use wolf_spdm.Crypto.{get_random}
use wolf_spdm.Exchange.{secured_exchange}

-- WOLFSPDM_MEAS_RSP_SZ.
abbrev pub meas_rsp_size : ℕ
meas_rsp_size = 8 + max_meas_record + nonce_size + attest_tail_size

-- SPDM_MEAS_REQUEST_SIG_BIT of Param1.
unfoldable pub signed_req : Bytes → Bool
signed_req req = get_or req 2 0 % 2 == 1

-- MeasurementRecordLength, three bytes.
unfoldable pub record_len : Bytes → ℕ
record_len buf = get_or buf 5 0 + get_or buf 6 0 * 2 ^ 8 + get_or buf 7 0 * 2 ^ 16

-- The loop of wolfSPDM_ParseMeasurements over `n` blocks: how many are left, and where it stops.
unfoldable pub skip_blocks : ℕ → Bytes → ℕ → ℕ → ℕ × ℕ
skip_blocks zero buf record_end off = (0, off)
skip_blocks (suc n) buf record_end off =
    let next =
      skip_blocks n buf record_end (off + (meas_block_hdr_size + get16le (drop (off + 2) buf))) in
    if leb (off + meas_block_hdr_size) record_end then next else (suc n, off)

-- wolfSPDM_ParseMeasurements: where the signature starts.
unfoldable pub parse_measurements : Bytes → Bytes → M ℕ
parse_measurements req buf = do
  check_parse_or_error_args buf 8
  fail_if (ltb (length req) 4) invalid_arg
  check_response buf Code.measurements measurement
  c ← gets λ c. c
  let record_end = 8 + record_len buf
  fail_if
      (get_or buf 0 0 != c.spdm_version
        || (ltb (length buf) record_end
            || (signed_req req && get_or buf 3 0 % 16 != c.limits.current_slot_id)))
      measurement
  let blocks = skip_blocks (get_or buf 4 0) buf record_end 8
  fail_if (blocks.0 != 0 || blocks.1 != record_end) measurement
  or_fail
      (parse_tail c.spdm_version req buf (record_end + nonce_size)
        (if signed_req req then ecc_sig_size else 0))
      measurement

-- The capabilities of which a responder must have one.
unfoldable pub meas_caps : Bool → ℕ
meas_caps request_sig = if request_sig then cap_meas_sig else cap_meas_sig + cap_meas_no_sig

-- wolfSPDM_GetMeasurementCount.
unfoldable pub get_measurement_count : Ctx → ℕ
get_measurement_count c = c.attest.meas_block_count

-- Where block `i` of a record starts.
unfoldable pub block_offset : ℕ → Bytes → ℕ → ℕ
block_offset zero meas off = off
block_offset (suc i) meas off =
    block_offset i meas (off + (meas_block_hdr_size + get16le (drop (off + 2) meas)))

-- Whether a block holds a DMTF value: Type, ValueSize and the value.
unfoldable pub is_dmtf : Bytes → Bool
is_dmtf blk =
    get_or blk 1 0 == meas_spec_dmtf
    && (leb 3 (get16le (drop 2 blk))
        && leb (get16le (drop (meas_block_hdr_size + 1) blk)) (get16le (drop 2 blk) - 3))

-- The type and the value of a block.
unfoldable pub block_value : Bytes → ℕ × Bytes
block_value blk =
    if is_dmtf blk
    then (
      get_or blk meas_block_hdr_size 0,
      take (get16le (drop (meas_block_hdr_size + 1) blk)) (drop (meas_block_hdr_size + 3) blk),
    )
    else (0, take (get16le (drop 2 blk)) (drop meas_block_hdr_size blk))

-- The size of that value.
unfoldable pub block_value_size : Bytes → ℕ
block_value_size blk =
    if is_dmtf blk then get16le (drop (meas_block_hdr_size + 1) blk) else get16le (drop 2 blk)

-- wolfSPDM_GetMeasurementBlock for a buffer of `size` bytes: index, type and value, and the size
-- that the caller learns.
unfoldable pub get_measurement_block : Ctx → ℕ → ℕ → Result (ℕ × ℕ × Bytes) × ℕ
get_measurement_block c idx size =
    let blk = drop (block_offset idx c.attest.meas_record 0) c.attest.meas_record in
    if leb c.attest.meas_block_count idx
    then (err invalid_arg, size)
    else (if ltb size (block_value_size blk)
        then (err buffer_small, block_value_size blk)
        else (ok (get_or blk 0 0, (block_value blk).0, (block_value blk).1), block_value_size blk))

-- The end of wolfSPDM_GetMeasurements: the record and its number of blocks are kept.
unfoldable pub store_measurements : Bytes → M (Unit {0})
store_measurements rsp = do
  fail_if (ltb max_meas_record (record_len rsp)) buffer_small
  modify λ c. record c {
    attest = record (c.attest) {
      meas_record = take (record_len rsp) (drop 8 rsp);
      meas_block_count = get_or rsp 4 0;
    };
  }

module _ (env : Env) where
  -- wolfSPDM_BuildGetMeasurements.
  unfoldable pub build_get_measurements : ℕ → ℕ → Bool → M Bytes
  build_get_measurements size operation request_sig = do
    c ← gets λ c. c
    let context_size = req_context_size c.spdm_version
    fail_if (ltb size (4 + (if request_sig then nonce_size + 1 else 0) + context_size)) buffer_small
    nonce ← (if request_sig then get_random env nonce_size else pure [])
    context ← (if ltb 0 context_size then get_random env context_size else pure [])
    pure (
        c.spdm_version
        ∷ Code.get_measurements
        ∷ (if request_sig then 1 else 0)
        ∷ operation
        ∷ (nonce ++ ((if request_sig then c.limits.current_slot_id ∷ [] else []) ++ context)))

  -- The start of wolfSPDM_GetMeasurements: the old record goes, and so does a run that another
  -- request has closed.
  unfoldable pub start_measurements : M (Unit {0})
  start_measurements = do
    modify λ c. record c { attest = record (c.attest) { meas_block_count = 0; meas_record = [] } }
    state ← gets λ c. c.attest.l1l2_state
    elim state [
      | run_none ↦ run_start env l1l2
      | run_live ↦ run_start env l1l2
      | run_open ↦ pure tt
    ]

  -- What wolfSPDM_GetMeasurements does to L1/L2: a signature closes and checks the run, an unsigned
  -- exchange extends it.
  unfoldable pub close_measurements : Bool → Bytes → Bytes → ℕ → M (Unit {0})
  close_measurements request_sig req rsp sig_off =
      (if request_sig
        then run_verify env l1l2 (codes "responder-measurements signing") req rsp sig_off
        else (do run_add env l1l2 req rsp; modify (set_run_state l1l2 run_open)))

  -- wolfSPDM_GetMeasurements.
  unfoldable pub get_measurements : ℕ → Bool → M (Unit {0})
  get_measurements operation request_sig = do
    c ← gets λ c. c
    fail_if (c.state != state_connected) not_connected
    fail_if (bit_and c.limits.rsp_caps (meas_caps request_sig) == 0) caps_mismatch
    start_measurements
    req ← build_get_measurements (4 + nonce_size + 1 + req_context_max) operation request_sig
    rsp ← secured_exchange env req meas_rsp_size
    sig_off ← parse_measurements req rsp
    close_measurements request_sig req rsp sig_off
    store_measurements rsp
