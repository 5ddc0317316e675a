-- ===== src/Tests/Records.antt =====
-- Records, frames and nonces on the concrete environment.
use wolf_spdm.Context.{Bytes, Ctx, ok, err}
use wolf_spdm.Base.{
  ℕ, ◌≡◌, refl, ◌≢◌, true, [], ◌∷◌, arith, length, replicate, All, some, length-replicate,
}
use wolf_spdm.Secured.Sequence.{decrypt_record_replay, tried, untried}
use wolf_spdm.Tests.{toy_ctx, toy_env, toy_AeadOpens}
use wolf_spdm.Secured.{
  decrypt_mctp, encrypt_mctp, decrypt_record, encrypt_record, seal_record, open_record,
  mctp_payload, mctp_record_header, mctp_plaintext,
}
use wolf_spdm.Transport.{
  tcg_frame, tcg_unframe, is_clear, build_tcg_clear_message, write_tcg_header,
}
use wolf_spdm.Secured.RoundTrip.{Expects, InRange}
use wolf_spdm.Secured.Nonce.{Seals, nonce_fresh, sealed, start, SealedWith}
use wolf_spdm.Transport.Framing.{tcg_unframe-tcg_frame}
use wolf_spdm.Bytes.{IsByte, get32le, get16le, set16be, set32le, set16le, build_iv, set32be}
use wolf_spdm.Types.{sequence}
use wolf_spdm.Secured.RoundTrip.Record.{record_round_trip}

-- Two bytes of application data, sealed as the first MCTP record.
abbrev toy_record : Bytes
toy_record = 1 ∷ 0 ∷ 2 ∷ 0 ∷ 0 ∷ 0 ∷ 20 ∷ 0 ∷ 2 ∷ 0 ∷ 1 ∷ 2 ∷ replicate 16 9

abbrev toy_sent : Ctx
toy_sent = record (toy_ctx) { req_seq_num = 1 }

toy_seal : encrypt_mctp toy_env true (1 ∷ 2 ∷ []) 100 toy_ctx ≡ (ok toy_record, toy_sent)
unfolding encrypt_mctp seal_record mctp_record_header mctp_plaintext set32le set16le build_iv
toy_seal = refl

toy_seal_record : encrypt_record toy_env true (1 ∷ 2 ∷ []) 100 toy_ctx ≡ (ok toy_record, toy_sent)
unfolding encrypt_record
toy_seal_record = toy_seal

toy_range : InRange toy_ctx
toy_range = record { session = omega arith; seq = omega arith }

toy-Expects : Expects toy_ctx toy_ctx
toy-Expects = record { mode = refl; session = refl; seq = refl; key = refl; iv = refl }

pub toy_exact : (k n : ℕ) (out : Bytes) → toy_env.random k n ≡ some out → length out ≡ n
toy_exact k n out e = ground (arith, length-replicate {A = ℕ} n 7)

record_round_trip_example :
    ((decrypt_record toy_env true toy_record 10 toy_ctx).0 ≡ ok (1 ∷ 2 ∷ []))
    × Expects toy_sent (decrypt_record toy_env true toy_record 10 toy_ctx).1
record_round_trip_example =
    record_round_trip toy_env true (1 ∷ 2 ∷ []) 100 10 toy_ctx toy_sent toy_ctx toy_record
      toy_AeadOpens toy_exact toy_range toy-Expects (omega arith) (λ t. omega arith) toy_seal_record

toy_bytes : All IsByte toy_ctx.keys.req_data_iv
toy_bytes = ground arith

toy-Seals : Seals toy_env toy_ctx 1 toy_sent
toy-Seals = sealed true (1 ∷ 2 ∷ []) toy_record 100 start toy_seal_record

-- The record after it.
abbrev toy_next_record : Bytes
toy_next_record = 1 ∷ 0 ∷ 2 ∷ 0 ∷ 1 ∷ 0 ∷ 19 ∷ 0 ∷ 1 ∷ 0 ∷ 3 ∷ replicate 16 9

abbrev toy_sent_next : Ctx
toy_sent_next = record (toy_sent) { req_seq_num = 2 }

toy_seal_next :
    encrypt_record toy_env true (3 ∷ []) 100 toy_sent ≡ (ok toy_next_record, toy_sent_next)
unfolding encrypt_record encrypt_mctp seal_record mctp_record_header mctp_plaintext set32le set16le
    build_iv
toy_seal_next = refl

nonce_fresh_example :
    (iv : Bytes) × (iv' : Bytes) × SealedWith toy_env toy_ctx iv toy_record
    × SealedWith toy_env toy_sent iv' toy_next_record
    × (toy_sent.keys ≡ toy_ctx.keys)
    × (iv' ≢ iv)
nonce_fresh_example =
    nonce_fresh true true (1 ∷ 2 ∷ []) (3 ∷ []) toy_record toy_next_record 100 100 toy_bytes
      (omega arith) (omega arith) (omega arith) (omega arith) toy_seal_record toy-Seals
      toy_seal_next

toy_open :
    decrypt_record toy_env true toy_record 10 toy_ctx
    ≡ (ok (1 ∷ 2 ∷ []), record (toy_ctx) { rsp_seq_num = 1 })
unfolding decrypt_record decrypt_mctp open_record mctp_payload get32le get16le build_iv
toy_open = refl

abbrev toy_opened : Ctx
toy_opened = record (toy_ctx) { rsp_seq_num = 1 }

-- The replay comes after another record was tried.
decrypt_record_replay_example :
    let d = (decrypt_record toy_env true (1 ∷ []) 10 toy_opened).1 in
    decrypt_record toy_env true toy_record 10 d ≡ (err sequence, d)
decrypt_record_replay_example =
    decrypt_record_replay toy_env true true toy_record 10 10 1 toy_ctx toy_opened
      (decrypt_record toy_env true (1 ∷ []) 10 toy_opened).1 (1 ∷ 2 ∷ []) (omega arith) toy_open
      (omega arith) (tried true (1 ∷ []) 10 untried)

-- GET_VERSION in the clear under TCG framing.
abbrev toy_framed : Bytes
toy_framed =
    0x81 ∷ 0x01 ∷ 0 ∷ 0 ∷ 0 ∷ 20 ∷ 0 ∷ 0 ∷ 0 ∷ 0 ∷ 0 ∷ 0 ∷ 0 ∷ 0 ∷ 0 ∷ 0 ∷ 0x10 ∷ 0x84 ∷ 0 ∷ 0 ∷ []

toy_frame : tcg_frame toy_ctx (0x10 ∷ 0x84 ∷ 0 ∷ 0 ∷ []) ≡ ok toy_framed
unfolding tcg_frame is_clear build_tcg_clear_message write_tcg_header set16be set32be
toy_frame = refl

tcg_unframe-tcg_frame_example : (tcg_unframe toy_framed 8 toy_ctx).0 ≡ ok (0x10 ∷ 0x84 ∷ 0 ∷ 0 ∷ [])
tcg_unframe-tcg_frame_example =
    tcg_unframe-tcg_frame toy_ctx toy_ctx (0x10 ∷ 0x84 ∷ 0 ∷ 0 ∷ []) toy_framed 8 (omega arith)
      toy_frame
