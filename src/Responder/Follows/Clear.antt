-- ===== src/Responder/Follows/Clear.antt =====
-- A relation that the vendor commands of a clear message keep is kept by the whole of it
-- (RespDispatchClear of src/spdm_responder.c).
use wolf_spdm.Types.Code
use wolf_spdm.Responder
use wolf_spdm.Base.{ℕ, false, [], ltb, ◌==◌, if◌then◌else◌, length, get_or}
use wolf_spdm.Responder.{Resp, Tpm, on_ctx, R}
use wolf_spdm.Responder.Follows.Absorbs.{Absorbs, Follows-after, Follows-before, Follows-embed}
use wolf_spdm.Responder.Follows.{
  Steady, Follows, Follows-if, Steady-on_ctx, Steady->>=, Calm-fail_if, Calm-pure, Steady-gets,
}
use wolf_spdm.Context.{Env, Bytes, Result, pure, err, ok}
use wolf_spdm.Responder.Command.{handle_vendor_defined, is_code}
use wolf_spdm.Responder.Dispatch.{
  clear_selected, dispatch_clear, clear_vendor, add_pubk, clear_answer, mode_off, select_error,
  handshake_live, attempt, clear_version,
}
use wolf_spdm.Transcript.{transcript_add}
use wolf_spdm.Responder.Clear.{
  build_error_clear, error_unsupported_request, error_unexpected_request,
}
use wolf_spdm.Responder.Steady.{
  recorded-Steady, clear_version-Steady, build_psk_exchange_rsp-Steady,
  build_key_exchange_rsp-Steady,
}
use wolf_spdm.Responder.Calm.{
  build_error_clear-Calm, build_version-Calm, sha384_hash-Calm, transcript_add-Calm,
  build_capabilities-Calm, build_algorithms-Calm,
}
use wolf_spdm.Types.{framing}

module _ (Q : Resp → Resp → Type 0) (absorbs : Absorbs Steady Q) (env : Env) (tpm : Tpm)
    (buf : Bytes) (room : ℕ)
    (vendor : Follows Q (handle_vendor_defined env tpm false buf room)) where
  embedded : {A : Type 0} {m : R A} → Follows Steady m → Follows Q m
  embedded steady = Follows-embed Steady Q absorbs steady

  add_pubk-Steady : (vd_code : Bytes) → Follows Steady (add_pubk env tpm vd_code)
  unfolding add_pubk
  add_pubk-Steady vd_code =
      Follows-if (is_code vd_code "GET_PUBK")
        (Steady->>= (Steady-gets {f = λ r. r.id_pub_key}) λ pub_key.
          Steady->>= (Steady-on_ctx (sha384_hash-Calm env pub_key [] []))
            λ ct. Steady-on_ctx (transcript_add-Calm ct))
        (Steady-on_ctx (Calm-pure {a = tt}))

  clear_vendor-Follows : Follows Q (clear_vendor env tpm buf room)
  unfolding clear_vendor
  clear_vendor-Follows =
      Follows-before Steady Q absorbs vendor λ answer.
        Steady->>= (add_pubk-Steady answer.0) λ _. Steady-on_ctx (Calm-pure {a = answer.1})

  clear_answer-Follows : (code : ℕ) → Follows Q (clear_answer env tpm code buf room)
  unfolding clear_answer
  clear_answer-Follows code =
      Follows-if (code == Code.get_version)
        (embedded (recorded-Steady (Steady-on_ctx (build_version-Calm room))))
        (Follows-if (code == Code.get_capabilities)
          (embedded (
            recorded-Steady (
              Steady->>= (Steady-gets {f = λ r. r.use_psk})
                λ p. Steady-on_ctx (build_capabilities-Calm p room))))
          (Follows-if (code == Code.negotiate_algorithms)
            (embedded (recorded-Steady (Steady-on_ctx (build_algorithms-Calm room))))
            (Follows-if (code == Code.psk_exchange)
              (embedded (build_psk_exchange_rsp-Steady env buf room))
              (Follows-if (code == Code.key_exchange)
                (embedded (build_key_exchange_rsp-Steady env buf room))
                (Follows-if (code == Code.vendor_defined_request) clear_vendor-Follows (
                  embedded (
                    Steady-on_ctx
                      (build_error_clear-Calm error_unsupported_request code room))))))))

  clear_recorded-Follows :
      (code : ℕ)
      → Follows Q (
          Responder.◌>>◌
            (if code == Code.vendor_defined_request
              then on_ctx (pure tt)
              else on_ctx (transcript_add buf))
            (clear_answer env tpm code buf room))
  clear_recorded-Follows code =
      Follows-after Steady Q absorbs
        (Follows-if (code == Code.vendor_defined_request) (Steady-on_ctx (Calm-pure {a = tt}))
          (Steady-on_ctx (transcript_add-Calm buf)))
        λ _. clear_answer-Follows code

  clear_selected-Follows : (code : ℕ) → Follows Q (clear_selected env tpm code buf room)
  unfolding clear_selected
  clear_selected-Follows code = Follows-after Steady Q absorbs (Steady-gets {f = λ r. r}) λ r.
      Follows-if (mode_off code r)
        (embedded (Steady-on_ctx (build_error_clear-Calm error_unsupported_request code room)))
        (Follows-if (handshake_live code r)
          (embedded (Steady-on_ctx (build_error_clear-Calm error_unexpected_request 0 room)))
          (clear_recorded-Follows code))

  select_or_answer-Follows :
      (selected : Result (Unit {0}))
      → Follows Q (elim selected as (λ x. R Bytes) [
        | err e ↦ on_ctx (build_error_clear (select_error e) 0 room)
        | ok _ ↦ clear_selected env tpm (get_or buf 1 0) buf room
      ])
  select_or_answer-Follows (ok x) = clear_selected-Follows (get_or buf 1 0)
  select_or_answer-Follows (err e) =
      embedded (Steady-on_ctx (build_error_clear-Calm (select_error e) 0 room))

  pub dispatch_clear-Follows : Follows Q (dispatch_clear env tpm buf room)
  unfolding dispatch_clear
  dispatch_clear-Follows =
      Follows-after Steady Q absorbs (Steady-on_ctx (Calm-fail_if (ltb (length buf) 2) framing))
        λ _.
          Follows-after Steady Q absorbs {m = attempt (clear_version buf)}
            (record { follows = (clear_version-Steady buf).follows })
            λ x. select_or_answer-Follows x
