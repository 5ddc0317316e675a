-- ===== src/Tests/Handshakes.antt =====
-- Negotiation and whole connections on the concrete environment.
use wolf_spdm.Base.{
  List, ◌+◌, ◌≤◌, ◌<◌, ◌≡◌, refl, ◌⊎◌, [], ◌∷◌, ◌++◌, length, get_or, drop, replicate,
}
use wolf_spdm.Standard.Vca.{
  parse_capabilities, parse_algorithms, bad_algorithms, select_algs, select_alg, algs_offset,
}
use wolf_spdm.Tests.{toy_ctx, toy_env}
use wolf_spdm.Tcg.Handshake.{connect_tcg}
use wolf_spdm.Connect.Phases.{Moves, Op, connecting, phase, disconnecting, calls, calls-Moves}
use wolf_spdm.Context.{Bytes, ok, err}
use wolf_spdm.Message.{check_response}
use wolf_spdm.Bytes.{get16le, get32le}
use wolf_spdm.Standard.Certificate.{cert_req_len}
use wolf_spdm.Standard.Vca.Suite.{SetB, parse_algorithms-SetB}
use wolf_spdm.Standard.Vca.Limits.{parse_capabilities_fits}
use wolf_spdm.Standard.Chain.{validate_cert_chain}
use wolf_spdm.Tests.Certificates.{toy_asn}
use wolf_spdm.Types.{state_connected, Error, state_error}
use wolf_spdm.Tcg.Ends.{connect_tcg-state}

-- CAPABILITIES with what is required, a DataTransferSize of 100 and a MaxSPDMmsgSize of 200.
abbrev toy_capabilities : Bytes
toy_capabilities =
    0x12 ∷ 0x61 ∷ 0 ∷ 0 ∷ 0 ∷ 0 ∷ 0 ∷ 0 ∷ 0xC2 ∷ 2 ∷ 0 ∷ 0 ∷ 100 ∷ 0 ∷ 0 ∷ 0 ∷ 200 ∷ 0 ∷ 0 ∷ 0 ∷ []

toy_limits :
    parse_capabilities toy_capabilities toy_ctx
    ≡ (ok tt, (parse_capabilities toy_capabilities toy_ctx).1)
unfolding parse_capabilities check_response get32le
toy_limits = refl

parse_capabilities_fits_example :
    let c' = (parse_capabilities toy_capabilities toy_ctx).1 in
    (42 ≤ c'.limits.data_transfer_size)
    × (c'.limits.data_transfer_size ≤ c'.limits.max_spdm_msg_size)
    × (0 < cert_req_len c'.limits.data_transfer_size)
    × (8 + cert_req_len c'.limits.data_transfer_size ≤ c'.limits.data_transfer_size)
parse_capabilities_fits_example =
    parse_capabilities_fits toy_capabilities toy_ctx (parse_capabilities toy_capabilities toy_ctx).1
      toy_limits

-- ALGORITHMS with Algorithm Set B.
abbrev toy_algorithms : Bytes
toy_algorithms =
    0x12
    ∷ 0x63
    ∷ 3
    ∷ 0
    ∷ 48
    ∷ 0
    ∷ 0
    ∷ 2
    ∷ (replicate 4 0
        ++ (0x80
            ∷ 0
            ∷ 0
            ∷ 0
            ∷ 2
            ∷ 0
            ∷ 0
            ∷ 0
            ∷ (replicate 16 0 ++ (2 ∷ 0x20 ∷ 0x10 ∷ 0 ∷ 3 ∷ 0x20 ∷ 2 ∷ 0 ∷ 5 ∷ 0x20 ∷ 1 ∷ 0 ∷ []))))

toy_suite : parse_algorithms toy_algorithms toy_ctx ≡ (ok tt, toy_ctx)
unfolding parse_algorithms check_response bad_algorithms get32le get16le select_algs select_alg
    algs_offset
toy_suite = refl

parse_algorithms-SetB_example :
    (toy_ctx ≡ toy_ctx)
    × (get_or toy_algorithms 0 0 ≡ toy_ctx.spdm_version)
    × (get16le (drop 4 toy_algorithms) ≡ length toy_algorithms)
    × SetB toy_algorithms
parse_algorithms-SetB_example = parse_algorithms-SetB toy_algorithms toy_ctx toy_ctx toy_suite

connect_tcg-state_example :
    let p = connect_tcg toy_env (validate_cert_chain toy_env toy_asn) toy_ctx in
    (p.0 ≡ ok tt → p.1.state ≡ state_connected)
    × ((e : Error) → p.0 ≡ err e → (p.1.state ≡ state_error) ⊎ (p.1 ≡ toy_ctx))
connect_tcg-state_example = connect_tcg-state toy_env (validate_cert_chain toy_env toy_asn) toy_ctx

abbrev toy_ops : List Op
toy_ops = connecting ∷ disconnecting ∷ []

calls-Moves_example : Moves (phase toy_ctx) (calls toy_env toy_asn toy_ops toy_ctx)
calls-Moves_example = calls-Moves toy_env toy_asn toy_ops toy_ctx
