-- ===== src/Secured/RoundTrip/Mctp.antt =====
-- MCTP records from one end of a session to the other (src/spdm_secured.c).
use wolf_spdm.Context.{Bytes, Env, Ctx, ok}
use wolf_spdm.Base.{
  ℕ, ◌+◌, ◌-◌, ◌^◌, ◌≤◌, ◌<◌, ◌≡◌, Bool, true, ◌++◌, arith, length, take, drop, sym, ◌∙◌, false,
  if◌then◌else◌,
}
use wolf_spdm.Secured.{
  decrypt_mctp, seal_record, open_record, decrypted_size, mctp_payload, encrypt_mctp,
  mctp_plaintext, mctp_record_header, u16,
}
use wolf_spdm.Types.{aead_tag_size, xfer_msg_size}
use wolf_spdm.Bytes.{get32le, get16le, set16le}
use wolf_spdm.Secured.Parts.{
  mctp_header_fields, split_record, length-mctp_header, mctp_payload-plaintext,
}
use wolf_spdm.Secured.RoundTrip.{AeadOpens, Expects, InRange, seal_record-eq-ok, open_record-seal}

-- The record checks of the MCTP branch passed: what is left is to open the record.
decrypt_mctp_step :
    (env : Env) (app_msg : Bool) (enc header ct tag plain : Bytes) (size : ℕ) (d : Ctx) (seq n : ℕ)
    → length enc ≡ 8 + (n + aead_tag_size)
    → n ≤ decrypted_size
    → get32le enc ≡ d.session_id
    → get16le (drop 4 enc) ≡ seq
    → seq ≡ d.rsp_seq_num
    → get16le (drop 6 enc) ≡ n + aead_tag_size
    → take 8 enc ≡ header
    → take n (drop 8 enc) ≡ ct
    → take aead_tag_size (drop (8 + n) enc) ≡ tag
    → (open_record env header ct tag seq d).0 ≡ ok plain
    → (decrypt_mctp env app_msg enc size d).0 ≡ mctp_payload app_msg plain size
unfolding decrypt_mctp
decrypt_mctp_step env app_msg enc header ct tag plain size d seq n len fits id number same l h c t
      o =
    let m : n + aead_tag_size - aead_tag_size ≡ n = omega arith in
    rw (l, m, number, id, h, c, t) (ground (arith, o))

length-mctp_plaintext :
    (app_msg : Bool) (plain : Bytes)
    → length (mctp_plaintext app_msg plain)
      ≡ 2 + (if app_msg then length plain else 1 + length plain)
unfolding mctp_plaintext set16le
length-mctp_plaintext true plain = omega arith
length-mctp_plaintext false plain = omega arith

-- The size of the MCTP plaintext of a message.
abbrev mctp_size : Bool → Bytes → ℕ
mctp_size app_msg plain = 2 + (if app_msg then length plain else 1 + length plain)

encrypt_mctp-eq-ok :
    (env : Env) (app_msg : Bool) (plain : Bytes) (size : ℕ) (c : Ctx) {r : Bytes} {c' : Ctx}
    → length plain ≤ xfer_msg_size
    → encrypt_mctp env app_msg plain size c ≡ (ok r, c')
    → (c.req_seq_num < 2 ^ 16)
      × (seal_record env
            (mctp_record_header c (mctp_size app_msg plain + aead_tag_size))
            (mctp_plaintext app_msg plain)
            c
          ≡ (ok r, c'))
unfolding encrypt_mctp
encrypt_mctp-eq-ok env true plain size c fits e =
    let n : u16 (u16 (2 + u16 (length plain)) + aead_tag_size) ≡ 2 + length plain + aead_tag_size =
      omega arith in
    (ground arith, rw (← n) (ground arith))
encrypt_mctp-eq-ok env false plain size c fits e =
    let n : u16 (u16 (2 + u16 (1 + length plain)) + aead_tag_size)
        ≡ 2 + (1 + length plain) + aead_tag_size =
      omega arith in
    (ground arith, rw (← n) (ground arith))

-- A message that encrypt_mctp sealed is what decrypt_mctp gives back on a context that expects it:
-- under an AEAD that decrypts what it encrypted, for a session ID of 32 bits, a sequence number of
-- 64 bits, a message within the transfer size and the receiver's buffer, and one that is not empty
-- if it carries its own type byte.
pub mctp_round_trip :
    (env : Env) (app_msg : Bool) (plain : Bytes) (size room : ℕ) (c c' d : Ctx) (r : Bytes)
    → AeadOpens env
    → InRange c
    → Expects c d
    → length plain ≤ xfer_msg_size
    → length plain ≤ room
    → (app_msg ≡ true → 0 < length plain)
    → encrypt_mctp env app_msg plain size c ≡ (ok r, c')
    → (decrypt_mctp env app_msg r room d).0 ≡ ok plain
mctp_round_trip env app_msg plain size room c c' d r opens range x fits enough full e =
    let n = mctp_size app_msg plain in
    let body = mctp_plaintext app_msg plain in
    let header = mctp_record_header c (n + aead_tag_size) in
    let (low, sealing) = encrypt_mctp-eq-ok env app_msg plain size c fits e in
    let (ct, tag, set, made, shape) = seal_record-eq-ok env header body c sealing in
    let (len_ct, len_tag, back) = opens _ _ header body ct tag made in
    let len_n : length ct ≡ n = len_ct ∙ length-mctp_plaintext app_msg plain in
    let small : n ≤ 2 + (1 + xfer_msg_size) = ground arith in
    let (id, seq, len) =
      mctp_header_fields c (n + aead_tag_size) (ct ++ tag) range.session low (omega arith) in
    let (h, b, t, whole) = split_record header ct tag (length-mctp_header c _) len_n len_tag in
    rw shape (
      decrypt_mctp_step env app_msg (header ++ (ct ++ tag)) header ct tag body room d c.req_seq_num
        n whole (omega arith) (id ∙ sym x.session) seq (sym x.seq) len h b t
        (open_record-seal env header body ct tag c d x set back)
      ∙ mctp_payload-plaintext app_msg plain room fits enough full)
