-- ===== src/Secured/RoundTrip/Record.antt =====
-- wolfSPDM_EncryptRecord and wolfSPDM_DecryptRecord in the mode of the session, from one end to the
-- other (src/spdm_secured.c).
use wolf_spdm.Context.{Bytes, Env, Ctx, ok, is_tcg_mode}
use wolf_spdm.Base.{
  ℕ, ◌+◌, ◌≤◌, ◌<◌, ◌≡◌, ap, subst, inl, inr, Bool, true, some, arith, if◌then◌else◌, Bool-cases,
  length, refl, ◌∙◌, false,
}
use wolf_spdm.Secured.{
  encrypt_record, decrypt_record, u64, encrypt_tcg, encrypt_mctp, decrypt_mctp, decrypt_tcg,
}
use wolf_spdm.Secured.RoundTrip.{AeadOpens, Expects, InRange}
use wolf_spdm.Types.{xfer_msg_size}
use wolf_spdm.Secured.Sequence.{Sealed, encrypt_record-Sealed, Opened, decrypt_record-Opened}
use wolf_spdm.Secured.RoundTrip.Tcg.{tcg_round_trip}
use wolf_spdm.Secured.RoundTrip.Mctp.{mctp_round_trip}

encrypt_record-ok :
    (env : Env) (app_msg : Bool) (plain : Bytes) (size : ℕ) (c : Ctx) {r : Bytes} {c' : Ctx}
    → encrypt_record env app_msg plain size c ≡ (ok r, c')
    → (length plain ≤ xfer_msg_size)
      × ((if is_tcg_mode c.mode
              then encrypt_tcg env plain size
              else encrypt_mctp env app_msg plain size)
            c
          ≡ (ok r, c'))
unfolding encrypt_record
encrypt_record-ok env app_msg plain size c e = (ground arith, ground arith)

decrypt_record_tcg :
    (env : Env) (app_msg : Bool) (enc : Bytes) (room : ℕ) (d : Ctx)
    → is_tcg_mode d.mode ≡ true
    → decrypt_record env app_msg enc room d ≡ decrypt_tcg env enc room d
unfolding decrypt_record
decrypt_record_tcg env app_msg enc room d t = rw t refl

decrypt_record_mctp :
    (env : Env) (app_msg : Bool) (enc : Bytes) (room : ℕ) (d : Ctx)
    → is_tcg_mode d.mode ≡ false
    → decrypt_record env app_msg enc room d ≡ decrypt_mctp env app_msg enc room d
unfolding decrypt_record
decrypt_record_mctp env app_msg enc room d m = rw m refl

opens_again :
    (env : Env) (app_msg : Bool) (plain : Bytes) (size room : ℕ) (c c' d : Ctx) (r : Bytes)
    → AeadOpens env
    → ((k n : ℕ) (out : Bytes) → env.random k n ≡ some out → length out ≡ n)
    → InRange c
    → Expects c d
    → length plain ≤ room
    → (app_msg ≡ true → 0 < length plain)
    → encrypt_record env app_msg plain size c ≡ (ok r, c')
    → (decrypt_record env app_msg r room d).0 ≡ ok plain
opens_again env app_msg plain size room c c' d r opens exact range x enough full e =
    let (fits, sealing) = encrypt_record-ok env app_msg plain size c e in
    elim (Bool-cases (is_tcg_mode c.mode)) [
      | inl t ↦
          ap (λ o. o.0) (decrypt_record_tcg env app_msg r room d (ap is_tcg_mode x.mode ∙ t))
          ∙ tcg_round_trip env plain size room c c' d r opens exact range x fits enough
              (rw t at sealing)
      | inr m ↦
          ap (λ o. o.0) (decrypt_record_mctp env app_msg r room d (ap is_tcg_mode x.mode ∙ m))
          ∙ mctp_round_trip env app_msg plain size room c c' d r opens range x fits enough full
              (rw m at sealing)
    ]

Expects-next :
    (c c' d d' : Ctx)
    → Expects c d
    → c' ≡ record c { draws = c'.draws; req_seq_num = u64 (c.req_seq_num + 1) }
    → d' ≡ record d { rsp_seq_num = u64 (d.rsp_seq_num + 1) }
    → Expects c' d'
Expects-next c c' d d' x sent got =
    rw (sent, got)
      (record {
        mode = x.mode;
        session = x.session;
        seq = ap (λ s. u64 (s + 1)) x.seq;
        key = x.key;
        iv = x.iv;
      })

-- A message that encrypt_record sealed, in the MCTP or in the TCG format, is what decrypt_record gives
-- back on a context that expects it, and after both of them the receiver expects the sender's next
-- record: under an AEAD that decrypts what it encrypted and an RNG that gives as many bytes as it is
-- asked for, for a session ID of 32 bits, a sequence number of 64 bits, a message within the receiver's
-- buffer, and one that is not empty if it carries its own type byte.
pub record_round_trip :
    (env : Env) (app_msg : Bool) (plain : Bytes) (size room : ℕ) (c c' d : Ctx) (r : Bytes)
    → AeadOpens env
    → ((k n : ℕ) (out : Bytes) → env.random k n ≡ some out → length out ≡ n)
    → InRange c
    → Expects c d
    → length plain ≤ room
    → (app_msg ≡ true → 0 < length plain)
    → encrypt_record env app_msg plain size c ≡ (ok r, c')
    → ((decrypt_record env app_msg r room d).0 ≡ ok plain)
      × Expects c' (decrypt_record env app_msg r room d).1
record_round_trip env app_msg plain size room c c' d r opens exact range x enough full e =
    let back = opens_again env app_msg plain size room c c' d r opens exact range x enough full e in
    let d' = (decrypt_record env app_msg r room d).1 in
    let sent = subst (Sealed c) e (encrypt_record-Sealed env app_msg plain size c) in
    let got = subst (λ o. Opened d (o, d')) back (decrypt_record-Opened env app_msg r room d) in
    (back, Expects-next c c' d d' x sent got)
