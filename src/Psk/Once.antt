-- ===== src/Psk/Once.antt =====
-- How wolfSPDM_ConnectPsk ends (src/spdm_psk.c).
use wolf_spdm.Base.{ℕ, ◌≡◌, ◌⊎◌, false, [], arith, length, ◌+◌, refl, sym, ap, ◌∙◌, inl, inr}
use wolf_spdm.Context.{Env, Ctx, ok, Bytes, err, Outcome-cases, M}
use wolf_spdm.Psk.{
  connect_psk, build_psk_finish, psk_exchange, psk_finish, parse_psk_finish_rsp, build_psk_exchange,
  parse_psk_exchange_rsp,
}
use wolf_spdm.Kdf.{derive_app_data_keys, derive_key_iv_pair, compute_verify_data}
use wolf_spdm.Secured.{encrypt_internal, decrypt_internal, encrypt_record, decrypt_record}
use wolf_spdm.Transcript.{transcript_add, transcript_hash, sha384_hash, transcript_reset}
use wolf_spdm.Types.{
  state_connected, Error, state_error, max_msg_size, bad_state, state_init, aead_overhead,
}
use wolf_spdm.Exchange.Frame.{Keeps}
use wolf_spdm.Session.{get_version}
use wolf_spdm.Transport.{send_receive}
use wolf_spdm.Psk.Authentic.{parse_psk_exchange_rsp-ok}
use wolf_spdm.Exchange.Frame.Exchanges.{
  Keeps-decrypt_record, Keeps-send_receive, Keeps-encrypt_record,
}

abbrev record_size : ℕ
record_size = max_msg_size + aead_overhead

frame_psk :
    {A : Type 0} {m : M A} {a : A} {d : Ctx} → Keeps m → (c : Ctx) → m c ≡ (ok a, d) → d.psk ≡ c.psk
frame_psk keeps c run = ap (λ p. p.1.psk) (sym run) ∙ ap (λ f. f.psk) (keeps.kept c)

module _ (env : Env) where
  -- connect_psk that has started ends in the state CONNECTED if it succeeds and in the state ERROR
  -- if it fails; without an initialized context, a PSK or a callback it fails and changes nothing.
  pub connect_psk-state :
      (c : Ctx)
      → let p = connect_psk env c in
        (p.0 ≡ ok tt → p.1.state ≡ state_connected)
        × ((e : Error)
            → p.0 ≡ err e
            → (p.1.state ≡ state_error)
              ⊎ ((p.1 ≡ c)
                  × ((c.initialized ≡ false) ⊎ ((length c.psk.psk ≡ 0) ⊎ (c.wire.has_io ≡ false)))))
  unfolding connect_psk
  connect_psk-state c = (ground arith, ground arith)

  build_psk_finish-psk :
      (size : ℕ) (c c' : Ctx) (fin : Bytes)
      → build_psk_finish env size c ≡ (ok fin, c')
      → c'.psk ≡ c.psk
  unfolding build_psk_finish transcript_add transcript_hash sha384_hash compute_verify_data
  build_psk_finish-psk size c c' fin e = ground arith

  parse_psk_finish_rsp-psk :
      (buf : Bytes) (c c' : Ctx) → parse_psk_finish_rsp buf c ≡ (ok tt, c') → c'.psk ≡ c.psk
  unfolding parse_psk_finish_rsp transcript_add
  parse_psk_finish_rsp-psk buf c c' e = ground arith

  psk_finish-psk : (c c' : Ctx) → psk_finish env c ≡ (ok tt, c') → c'.psk ≡ c.psk
  unfolding psk_finish encrypt_internal decrypt_internal
  psk_finish-psk c c' e = elim (Outcome-cases (build_psk_finish env 64 c)) [
    | inr (x, c1, r1) ↦ absurd (ground arith)
    | inl (fin, c1, r1) ↦ elim (Outcome-cases (encrypt_record env false fin record_size c1)) [
      | inr (x, c2, r2) ↦ absurd (ground arith)
      | inl (enc, c2, r2) ↦ elim (Outcome-cases (send_receive env enc record_size c2)) [
        | inr (x, c3, r3) ↦ absurd (ground arith)
        | inl (rx, c3, r3) ↦ elim (Outcome-cases (decrypt_record env false rx 64 c3)) [
          | inr (x, c4, r4) ↦ absurd (ground arith)
          | inl (dec, c4, r4) ↦
              let last : parse_psk_finish_rsp dec c4 ≡ (ok tt, c') = ground arith in
              parse_psk_finish_rsp-psk dec c4 c' last
              ∙ frame_psk (Keeps-decrypt_record env false rx 64) c3 r4
              ∙ frame_psk (Keeps-send_receive env enc record_size) c2 r3
              ∙ frame_psk (Keeps-encrypt_record env false fin record_size) c1 r2
              ∙ build_psk_finish-psk 64 c c1 fin r1
        ]
      ]
    ]
  ]

  derive_app_data_keys-psk :
      (c c' : Ctx) → derive_app_data_keys env c ≡ (ok tt, c') → c'.psk ≡ c.psk
  unfolding derive_app_data_keys derive_key_iv_pair transcript_hash sha384_hash
  derive_app_data_keys-psk c c' e = ground arith

  psk_exchange-psk : (c c' : Ctx) → psk_exchange env c ≡ (ok tt, c') → c'.psk.psk ≡ []
  unfolding psk_exchange
  psk_exchange-psk c c' e = elim (Outcome-cases (build_psk_exchange env 128 c)) [
    | inr (x, c1, r1) ↦ absurd (ground arith)
    | inl (tx, c1, r1) ↦ elim (Outcome-cases (transcript_add tx c1)) [
      | inr (x, c2, r2) ↦ absurd (ground arith)
      | inl (_, c2, r2) ↦ elim (Outcome-cases (send_receive env tx record_size c2)) [
        | inr (x, c3, r3) ↦ absurd (ground arith)
        | inl (rx, c3, r3) ↦
            let last : parse_psk_exchange_rsp env rx c3 ≡ (ok tt, c') = ground arith in
            (parse_psk_exchange_rsp-ok env rx c3 c' last).1
      ]
    ]
  ]

  connect_psk-wiped : (c c' : Ctx) → connect_psk env c ≡ (ok tt, c') → c'.psk.psk ≡ []
  unfolding connect_psk
  connect_psk-wiped c c' e =
      let start = transcript_reset (record c { state = state_init }) in
      elim (Outcome-cases (get_version env start)) [
        | inr (x, c1, r1) ↦ absurd (ground arith)
        | inl (_, c1, r1) ↦ elim (Outcome-cases (psk_exchange env c1)) [
          | inr (x, c2, r2) ↦ absurd (ground arith)
          | inl (_, c2, r2) ↦ elim (Outcome-cases (psk_finish env c2)) [
            | inr (x, c3, r3) ↦ absurd (ground arith)
            | inl (_, c3, r3) ↦ elim (Outcome-cases (derive_app_data_keys env c3)) [
              | inr (x, c4, r4) ↦ absurd (ground arith)
              | inl (_, c4, r4) ↦
                  let kept : c'.psk ≡ c4.psk = ground arith in
                  ap (λ p. p.psk)
                    (kept ∙ derive_app_data_keys-psk c3 c4 r4 ∙ psk_finish-psk c2 c3 r3)
                  ∙ psk_exchange-psk c1 c2 r2
            ]
          ]
        ]
      ]

  -- A connection by connect_psk uses up the PSK: after a success there is none in the context, and
  -- connect_psk on that context is refused with BAD_STATE and changes nothing.
  pub connect_psk_once :
      (c c' : Ctx)
      → connect_psk env c ≡ (ok tt, c')
      → (c'.state ≡ state_connected)
        × (c'.psk.psk ≡ [])
        × (connect_psk env c' ≡ (err bad_state, c'))
  unfolding connect_psk
  connect_psk_once c c' e =
      let wiped = connect_psk-wiped c c' e in
      let none_left : length c'.psk.psk ≡ 0 = rw wiped refl in (ground arith, wiped, ground arith)
