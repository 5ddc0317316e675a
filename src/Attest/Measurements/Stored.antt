-- ===== src/Attest/Measurements/Stored.antt =====
-- The record that wolfSPDM_GetMeasurements stores and wolfSPDM_GetMeasurementBlock reads
-- (src/spdm_attest.c).
use wolf_spdm.Base.{
  ℕ, Bool, ◌+◌, ◌≤◌, ◌≡◌, inl, inr, arith, length, get_or, take, drop, length-take,
}
use wolf_spdm.Attest.Measurements.{
  parse_measurements, record_len, start_measurements, skip_blocks, build_get_measurements,
  meas_rsp_size, close_measurements, store_measurements,
}
use wolf_spdm.Context.{Env, Ctx, ok, Bytes, Outcome-cases}
use wolf_spdm.Message.{check_parse_or_error_args, check_response}
use wolf_spdm.Attest.Measurements.{get_measurements}
use wolf_spdm.Attest.Measurements.Blocks.{Tiles, skip_blocks-Tiles}
use wolf_spdm.Types.{max_meas_record}
use wolf_spdm.Exchange.{secured_exchange}

parse_measurements-Tiles :
    (req buf : Bytes) (c c' : Ctx) (off : ℕ)
    → parse_measurements req buf c ≡ (ok off, c')
    → Tiles (get_or buf 4 0) (take (record_len buf) (drop 8 buf)) 0
unfolding parse_measurements check_parse_or_error_args check_response
parse_measurements-Tiles req buf c c' off e =
    let len = record_len buf in
    let blocks = skip_blocks (get_or buf 4 0) buf (8 + len) 8 in
    let all : blocks.0 ≡ 0 = ground arith in
    let end : blocks.1 ≡ 8 + len = ground arith in
    let fits : 8 + len ≤ length buf = ground arith in
    skip_blocks-Tiles (get_or buf 4 0) len 0 buf (ground arith) fits

store_measurements-Tiles :
    (rsp : Bytes) (c c' : Ctx)
    → store_measurements rsp c ≡ (ok tt, c')
    → Tiles (get_or rsp 4 0) (take (record_len rsp) (drop 8 rsp)) 0
    → Tiles c'.attest.meas_block_count c'.attest.meas_record 0
      × (length c'.attest.meas_record ≤ max_meas_record)
unfolding store_measurements
store_measurements-Tiles rsp c c' e tiles =
    let size = length-take (record_len rsp) (drop 8 rsp) in
    let count : c'.attest.meas_block_count ≡ get_or rsp 4 0 = ground arith in
    let stored : c'.attest.meas_record ≡ take (record_len rsp) (drop 8 rsp) = ground arith in
    let small : record_len rsp ≤ max_meas_record = ground arith in
    (rw (count, stored) tiles, rw (stored, size) (omega arith))

module _ (env : Env) where
  -- get_measurements that succeeds has stored a record of at most 1024 bytes that its blocks, as many
  -- as it counts, fill exactly.
  pub get_measurements_stored :
      (operation : ℕ) (request_sig : Bool) (c c' : Ctx)
      → get_measurements env operation request_sig c ≡ (ok tt, c')
      → Tiles c'.attest.meas_block_count c'.attest.meas_record 0
        × (length c'.attest.meas_record ≤ max_meas_record)
  unfolding get_measurements
  get_measurements_stored operation request_sig c c' e =
      elim (Outcome-cases (start_measurements env c)) [
        | inr (x, c1, r1) ↦ absurd (ground arith)
        | inl (_, c1, r1) ↦
            elim (Outcome-cases (build_get_measurements env 45 operation request_sig c1)) [
              | inr (x, c2, r2) ↦ absurd (ground arith)
              | inl (req, c2, r2) ↦
                  elim (Outcome-cases (secured_exchange env req meas_rsp_size c2)) [
                    | inr (x, c3, r3) ↦ absurd (ground arith)
                    | inl (rsp, c3, r3) ↦ elim (Outcome-cases (parse_measurements req rsp c3)) [
                      | inr (x, c4, r4) ↦ absurd (ground arith)
                      | inl (off, c4, r4) ↦
                          elim (Outcome-cases (close_measurements env request_sig req rsp off c4)) [
                            | inr (x, c5, r5) ↦ absurd (ground arith)
                            | inl (_, c5, r5) ↦
                                store_measurements-Tiles rsp c5 c' (ground arith)
                                  (parse_measurements-Tiles req rsp c3 c4 off r4)
                          ]
                    ]
                  ]
            ]
      ]
