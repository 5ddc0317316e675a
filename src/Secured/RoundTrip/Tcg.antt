-- ===== src/Secured/RoundTrip/Tcg.antt =====
-- TCG records from one end of a session to the other (src/spdm_secured.c).
use wolf_spdm.Context.{Bytes, Env, Ctx, ok, Outcome-cases, pure}
use wolf_spdm.Base.{
  ℕ, ◌+◌, ◌-◌, ◌≤◌, ◌≡◌, some, ◌++◌, arith, length, take, drop, zero, suc, inl, inr, [], ltb,
  if◌then◌else◌, Option-cases, sym, ◌∙◌, subst, length-append,
}
use wolf_spdm.Secured.{
  seal_record, open_record, decrypted_size, u16, encrypt_tcg, tcg_pad_len, decrypt_tcg,
  tcg_record_header, tcg_payload,
}
use wolf_spdm.Types.{aead_tag_size, xfer_msg_size}
use wolf_spdm.Bytes.{get32le, get16le, set16le, get64le}
use wolf_spdm.Crypto.{get_random}
use wolf_spdm.Secured.RoundTrip.{InRange, AeadOpens, Expects, seal_record-eq-ok, open_record-seal}
use wolf_spdm.Secured.Parts.{
  tcg_header_fields, split_record, length-tcg_header, tcg_payload-plaintext,
}

decrypt_tcg_step :
    (env : Env) (enc header ct tag plain : Bytes) (size : ℕ) (d : Ctx) (seq n : ℕ)
    → length enc ≡ 14 + (n + aead_tag_size)
    → n ≤ decrypted_size
    → get32le enc ≡ d.session_id
    → get64le (drop 4 enc) ≡ seq
    → seq ≡ d.rsp_seq_num
    → get16le (drop 12 enc) ≡ n + aead_tag_size
    → take 14 enc ≡ header
    → take n (drop 14 enc) ≡ ct
    → take aead_tag_size (drop (14 + n) enc) ≡ tag
    → (open_record env header ct tag seq d).0 ≡ ok plain
    → (decrypt_tcg env enc size d).0 ≡ tcg_payload plain size
unfolding decrypt_tcg
decrypt_tcg_step env enc header ct tag plain size d seq n len fits id number same l h c t o =
    let m : n + aead_tag_size - aead_tag_size ≡ n = omega arith in
    rw (l, m, number, id, h, c, t) (ground (arith, o))

-- The size of the TCG plaintext of a message with its padding.
abbrev tcg_size : ℕ → ℕ
tcg_size n = 2 + n + tcg_pad_len (u16 n)

tcg_size_bound : (n : ℕ) → n ≤ xfer_msg_size → tcg_size n ≤ 2 + xfer_msg_size + 15
unfolding tcg_pad_len
tcg_size_bound n h = omega arith

-- The padding that encrypt_tcg draws, and the context after it.
padding_drawn :
    (env : Env) (n : ℕ) (c c' : Ctx) (out : Bytes)
    → ((k n : ℕ) (out : Bytes) → env.random k n ≡ some out → length out ≡ n)
    → (if ltb 0 n then get_random env n else pure []) c ≡ (ok out, c')
    → (length out ≡ n) × (c' ≡ record c { draws = c'.draws })
unfolding get_random
padding_drawn env zero c c' out exact e = ground arith
padding_drawn env (suc n) c c' out exact e = elim (Option-cases (env.random c.draws (suc n))) [
  | inl failed ↦ absurd (ground arith)
  | inr (o, found) ↦ let size = exact c.draws (suc n) o found in (ground arith, ground arith)
]

-- Sealing under TCG framing: the padding is as long as it has to be, and moves only the RNG.
encrypt_tcg-eq-ok :
    (env : Env) (plain : Bytes) (size : ℕ) (c : Ctx) {r : Bytes} {c' : Ctx}
    → ((k n : ℕ) (out : Bytes) → env.random k n ≡ some out → length out ≡ n)
    → length plain ≤ xfer_msg_size
    → encrypt_tcg env plain size c ≡ (ok r, c')
    → (padding : Bytes) × (d : Ctx) × (length padding ≡ tcg_pad_len (u16 (length plain)))
      × (d ≡ record c { draws = d.draws })
      × (seal_record env
            (tcg_record_header d (
              u16 (
                u16 (u16 (2 + u16 (length plain)) + tcg_pad_len (u16 (length plain)))
                + aead_tag_size)))
            (set16le (u16 (length plain)) ++ (plain ++ padding))
            d
          ≡ (ok r, c'))
unfolding encrypt_tcg
encrypt_tcg-eq-ok env plain size c exact fits e =
    let n = tcg_pad_len (u16 (length plain)) in
    elim (Outcome-cases ((if ltb 0 n then get_random env n else pure []) c)) [
      | inl (padding, d, run) ↦
          let (len, same) = padding_drawn env n c d padding exact run in
          (padding, d, len, same, ground arith)
      | inr (x, d, run) ↦ absurd (ground arith)
    ]

length-tcg_plaintext :
    (plain padding : Bytes)
    → length padding ≡ tcg_pad_len (u16 (length plain))
    → length (set16le (u16 (length plain)) ++ (plain ++ padding)) ≡ tcg_size (length plain)
unfolding set16le
length-tcg_plaintext plain padding len = omega (arith, length-append plain padding, len)

-- The other end of a session expects the same after the sender's RNG moved.
Expects-draws : (c d s : Ctx) → s ≡ record c { draws = s.draws } → Expects c d → Expects s d
Expects-draws c d s same x =
    subst (λ k. Expects k d) (sym same)
      (record { mode = x.mode; session = x.session; seq = x.seq; key = x.key; iv = x.iv })

InRange-draws : (c s : Ctx) → s ≡ record c { draws = s.draws } → InRange c → InRange s
InRange-draws c s same range =
    subst InRange (sym same) (record { session = range.session; seq = range.seq })

-- A message that encrypt_tcg sealed and padded is what decrypt_tcg gives back on a context that
-- expects it: under an AEAD that decrypts what it encrypted and an RNG that gives as many bytes as
-- it is asked for, for a session ID of 32 bits, a sequence number of 64 bits, and a message within
-- the transfer size and the receiver's buffer.
pub tcg_round_trip :
    (env : Env) (plain : Bytes) (size room : ℕ) (c c' d : Ctx) (r : Bytes)
    → AeadOpens env
    → ((k n : ℕ) (out : Bytes) → env.random k n ≡ some out → length out ≡ n)
    → InRange c
    → Expects c d
    → length plain ≤ xfer_msg_size
    → length plain ≤ room
    → encrypt_tcg env plain size c ≡ (ok r, c')
    → (decrypt_tcg env r room d).0 ≡ ok plain
tcg_round_trip env plain size room c c' d r opens exact range x fits enough e =
    let (padding, s, drawn, same, sealing) = encrypt_tcg-eq-ok env plain size c exact fits e in
    let n = tcg_size (length plain) in
    let bound = tcg_size_bound (length plain) fits in
    let len =
      u16 (u16 (u16 (2 + u16 (length plain)) + tcg_pad_len (u16 (length plain))) + aead_tag_size) in
    let exact_len : len ≡ n + aead_tag_size = omega (arith, bound) in
    let body = set16le (u16 (length plain)) ++ (plain ++ padding) in
    let header = tcg_record_header s len in
    let x_s = Expects-draws c d s same x in
    let range_s = InRange-draws c s same range in
    let (ct, tag, set, made, shape) = seal_record-eq-ok env header body s sealing in
    let (len_ct, len_tag, back) = opens _ _ header body ct tag made in
    let len_n : length ct ≡ n = len_ct ∙ length-tcg_plaintext plain padding drawn in
    let (id, seq, len_field) =
      tcg_header_fields s len (ct ++ tag) range_s.session range_s.seq (omega arith) in
    let (h, b, t, whole) = split_record header ct tag (length-tcg_header s _) len_n len_tag in
    rw shape (
      decrypt_tcg_step env (header ++ (ct ++ tag)) header ct tag body room d s.req_seq_num n whole
        (omega (arith, bound)) (id ∙ sym x_s.session) seq (sym x_s.seq) (len_field ∙ exact_len) h b
        t (open_record-seal env header body ct tag s d x_s set back)
      ∙ tcg_payload-plaintext plain padding room fits enough)
