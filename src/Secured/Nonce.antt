-- ===== src/Secured/Nonce.antt =====
-- The AES-GCM nonces of wolfSPDM_EncryptRecord (src/spdm_secured.c).
use wolf_spdm.Context.{Bytes, Env, Ctx, ok, err, is_tcg_mode, Outcome-cases, M}
use wolf_spdm.Base.{
  ℕ, zero, suc, ◌+◌, ◌^◌, ◌≤◌, ◌<◌, ◌≡◌, refl, sym, ap, ◌∙◌, subst, ◌≢◌, Bool, arith, length, All,
  inl, inr, some, ◌++◌, ltb, Bool-cases, Option-cases, [], if◌then◌else◌,
}
use wolf_spdm.Secured.{
  u64, encrypt_record, encrypt_tcg, seal_record, encrypt_mctp, tcg_pad_len, u16, tcg_record_header,
  mctp_record_header, mctp_plaintext,
}
use wolf_spdm.Bytes.{build_iv, IsByte, set16le}
use wolf_spdm.Secured.Sequence.{Sealed, encrypt_record-Sealed, get_random_keeps}
use wolf_spdm.Bytes.Nonce.{build_iv_injective}
use wolf_spdm.Types.{Error, aead_tag_size}
use wolf_spdm.Crypto.{get_random}

-- The nonce that the next record is sealed with.
unfoldable pub nonce : Ctx → Bytes
nonce c = build_iv c.keys.req_data_iv c.req_seq_num

-- `n` records were sealed between two contexts, failed attempts aside.
pub data Seals (env : Env) (c : Ctx) : ℕ → Ctx → Type 0 where
  start : Seals env c zero c
  sealed :
      {n : ℕ} {d d' : Ctx} (app_msg : Bool) (plain r : Bytes) (size : ℕ)
      → Seals env c n d
      → encrypt_record env app_msg plain size d ≡ (ok r, d')
      → Seals env c (suc n) d'
  failed :
      {n : ℕ} {d d' : Ctx} (app_msg : Bool) (plain : Bytes) (e : Error) (size : ℕ)
      → Seals env c n d
      → encrypt_record env app_msg plain size d ≡ (err e, d')
      → Seals env c n d'

-- The counter and the base IV after `n` records.
pub Seals-counts :
    {env : Env} {c c' : Ctx} {n : ℕ}
    → c.req_seq_num < 2 ^ 64
    → Seals env c n c'
    → (c'.req_seq_num ≡ u64 (c.req_seq_num + n)) × (c'.keys ≡ c.keys)
Seals-counts h start = (omega arith, refl)
Seals-counts {env} h (sealed {d = d} a p _ s before e) =
    let moved = subst (Sealed d) e (encrypt_record-Sealed env a p s d) in
    let (count, same) = Seals-counts h before in
    (ap (λ x. x.req_seq_num) moved ∙ omega arith, ap (λ x. x.keys) moved ∙ same)
Seals-counts {env} h (failed {d = d} a p _ s before e) =
    let moved = subst (Sealed d) e (encrypt_record-Sealed env a p s d) in
    let (count, same) = Seals-counts h before in
    (ap (λ x. x.req_seq_num) moved ∙ count, ap (λ x. x.keys) moved ∙ same)

-- AES-GCM made the record `r` under the request key of `c`, with the IV `iv`.
pub record SealedWith (env : Env) (c : Ctx) (iv r : Bytes) : Type 0 where
  pub header : Bytes
  pub plain_buf : Bytes
  pub ct : Bytes
  pub tag : Bytes
  pub encrypted : env.aes_gcm_encrypt c.keys.req_data_key iv header plain_buf ≡ some (ct, tag)
  pub framed : r ≡ header ++ (ct ++ tag)

seal_record-SealedWith :
    (env : Env) (header plain r : Bytes) (c c' : Ctx)
    → seal_record env header plain c ≡ (ok r, c')
    → SealedWith env c (nonce c) r
unfolding seal_record nonce
seal_record-SealedWith env header plain r c c' e =
    let iv = build_iv c.keys.req_data_iv c.req_seq_num in
    elim (Option-cases (env.aes_gcm_encrypt c.keys.req_data_key iv header plain)) [
      | inl q ↦ absurd (ground arith)
      | inr ((ct, tag), q) ↦ record {
        header = header;
        plain_buf = plain;
        ct = ct;
        tag = tag;
        encrypted = q;
        framed = ground arith;
      }
    ]

SealedWith-draws :
    (env : Env) (c : Ctx) (n : ℕ) (r : Bytes)
    → SealedWith env (record c { draws = n }) (nonce (record c { draws = n })) r
    → SealedWith env c (nonce c) r
unfolding nonce
SealedWith-draws env c n r s = record {
  header = s.header;
  plain_buf = s.plain_buf;
  ct = s.ct;
  tag = s.tag;
  encrypted = s.encrypted;
  framed = s.framed;
}

encrypt_mctp-SealedWith :
    (env : Env) (app_msg : Bool) (plain r : Bytes) (size : ℕ) (c c' : Ctx)
    → encrypt_mctp env app_msg plain size c ≡ (ok r, c')
    → SealedWith env c (nonce c) r
unfolding encrypt_mctp
encrypt_mctp-SealedWith env app_msg plain r size c c' e =
    let app_data_len = u16 (if app_msg then length plain else 1 + length plain) in
    let record_len = u16 (u16 (2 + app_data_len) + aead_tag_size) in
    seal_record-SealedWith env (mctp_record_header c record_len) (mctp_plaintext app_msg plain) r c
      c' (ground arith)

-- The header and the plaintext of a TCG record with this padding.
abbrev tcg_seal : Env → Bytes → Bytes → M Bytes
tcg_seal env plain padding c =
    let app_data_len = u16 (length plain) in
    let enc_payload_size = u16 (u16 (2 + app_data_len) + tcg_pad_len app_data_len) in
    seal_record env (tcg_record_header c (u16 (enc_payload_size + aead_tag_size)))
      (set16le app_data_len ++ (plain ++ padding)) c

tcg_seal-SealedWith :
    (env : Env) (plain padding r : Bytes) (c d c' : Ctx)
    → d ≡ record c { draws = d.draws }
    → tcg_seal env plain padding d ≡ (ok r, c')
    → SealedWith env c (nonce c) r
tcg_seal-SealedWith env plain padding r c d c' kept run =
    let len =
      u16 (u16 (u16 (2 + u16 (length plain)) + tcg_pad_len (u16 (length plain))) + aead_tag_size) in
    let s =
      seal_record-SealedWith env (tcg_record_header d len)
        (set16le (u16 (length plain)) ++ (plain ++ padding)) r d c' run in
    SealedWith-draws env c d.draws r (subst (λ t. SealedWith env t (nonce t) r) kept s)

encrypt_tcg-SealedWith :
    (env : Env) (plain r : Bytes) (size : ℕ) (c c' : Ctx)
    → encrypt_tcg env plain size c ≡ (ok r, c')
    → SealedWith env c (nonce c) r
unfolding encrypt_tcg
encrypt_tcg-SealedWith env plain r size c c' e =
    let pad_len = tcg_pad_len (u16 (length plain)) in
    elim (Bool-cases (ltb 0 pad_len)) [
      | inr whole ↦ tcg_seal-SealedWith env plain [] r c c c' refl (ground arith)
      | inl padded ↦ elim (Outcome-cases (get_random env pad_len c)) [
        | inr (x, d, drawn) ↦ absurd (ground arith)
        | inl (padding, d, drawn) ↦
            tcg_seal-SealedWith env plain padding r c d c'
              (subst (λ p. p.1 ≡ record c { draws = p.1.draws }) drawn
                (get_random_keeps env pad_len c))
              (ground arith)
      ]
    ]

encrypt_record-SealedWith :
    (env : Env) (app_msg : Bool) (plain r : Bytes) (size : ℕ) (c c' : Ctx)
    → encrypt_record env app_msg plain size c ≡ (ok r, c')
    → SealedWith env c (nonce c) r
unfolding encrypt_record
encrypt_record-SealedWith env app_msg plain r size c c' e = elim (Bool-cases (is_tcg_mode c.mode)) [
  | inl t ↦ encrypt_tcg-SealedWith env plain r size c c' (ground arith)
  | inr m ↦ encrypt_mctp-SealedWith env app_msg plain r size c c' (ground arith)
]

nonce_moves :
    {env : Env} {c c' : Ctx} {n : ℕ}
    → All IsByte c.keys.req_data_iv
    → 8 ≤ length c.keys.req_data_iv
    → c.req_seq_num < 2 ^ 64
    → 0 < n
    → n < 2 ^ 64
    → Seals env c n c'
    → nonce c' ≢ nonce c
unfolding nonce
nonce_moves {env} {c} {c'} {n} bytes long seq some_sealed few run e =
    let (count, same) = Seals-counts seq run in
    let again =
      build_iv_injective c.keys.req_data_iv c'.req_seq_num c.req_seq_num bytes long (omega arith)
        seq (ap (λ k. build_iv k.req_data_iv c'.req_seq_num) (sym same) ∙ e) in
    absurd (omega arith)

-- Two records that encrypt_record gives out, with one to 2^64 - 1 records sealed from the first up to
-- the second and any failed attempts between them, were made by AES-GCM under the same key and with
-- different IVs, for a base IV of bytes, at least eight of them, and a 64-bit counter.
pub nonce_fresh :
    {env : Env} {c c1 d d1 : Ctx} {n : ℕ} (app_msg again : Bool) (plain plain' r r' : Bytes)
    (size size' : ℕ)
    → All IsByte c.keys.req_data_iv
    → 8 ≤ length c.keys.req_data_iv
    → c.req_seq_num < 2 ^ 64
    → 0 < n
    → n < 2 ^ 64
    → encrypt_record env app_msg plain size c ≡ (ok r, c1)
    → Seals env c n d
    → encrypt_record env again plain' size' d ≡ (ok r', d1)
    → (iv : Bytes) × (iv' : Bytes) × SealedWith env c iv r
      × SealedWith env d iv' r'
      × (d.keys ≡ c.keys)
      × (iv' ≢ iv)
nonce_fresh {env} {c} {c1} {d} {d1} {n} a a' plain plain' r r' size size' bytes long seq some_sealed
      few first run second =
    let (count, same) = Seals-counts seq run in
    (
      nonce c,
      nonce d,
      encrypt_record-SealedWith env a plain r size c c1 first,
      encrypt_record-SealedWith env a' plain' r' size' d d1 second,
      same,
      nonce_moves bytes long seq some_sealed few run,
    )
