-- ===== src/Secured/Sequence.antt =====
-- The sequence numbers of secured records (src/spdm_secured.c).
use wolf_spdm.Context.{Result, Ctx, Bytes, Env, ok, err, is_tcg_mode}
use wolf_spdm.Secured.{
  encrypt_record, decrypt_record, seal_record, encrypt_tcg, decrypt_tcg, encrypt_mctp, decrypt_mctp,
  open_record, u64,
}
use wolf_spdm.Crypto.{get_random}
use wolf_spdm.Base.{
  arith, ℕ, ◌≡◌, Bool, ◌+◌, ◌⊎◌, Bool-cases, subst, ◌≤◌, length, drop, ◌-◌, ◌≢◌, take, sym, inl,
  ◌∙◌, inr, zero, suc, ◌^◌, ◌<◌, refl, ap, true, false,
}
use wolf_spdm.Types.{sequence, aead_tag_size}
use wolf_spdm.Bytes.{get16le, get32le, get64le}

-- What sealing a record does to the context, by how it ended.
abbrev pub Sealed : Ctx → Result Bytes × Ctx → Type 0
Sealed c (ok r, c') = c' ≡ record c { draws = c'.draws; req_seq_num = u64 (c.req_seq_num + 1) }
Sealed c (err e, c') = c' ≡ record c { draws = c'.draws }

-- What opening a record does to the context: it is authenticated, or the context stays.
abbrev pub Opened : Ctx → Result Bytes × Ctx → Type 0
Opened c (ok p, c') = c' ≡ record c { rsp_seq_num = u64 (c.rsp_seq_num + 1) }
Opened c (err e, c') = (c' ≡ c) ⊎ (c' ≡ record c { rsp_seq_num = u64 (c.rsp_seq_num + 1) })

pub get_random_keeps :
    (env : Env) (n : ℕ) (c : Ctx)
    → (get_random env n c).1 ≡ record c { draws = (get_random env n c).1.draws }
unfolding get_random
get_random_keeps env n c = ground arith

seal_record-Sealed :
    (env : Env) (header plain : Bytes) (c : Ctx) → Sealed c (seal_record env header plain c)
unfolding seal_record
seal_record-Sealed env header plain c = ground arith

-- encrypt_record moves the request sequence number on by one, as a 64-bit counter, if it returns a
-- record, and leaves it on every failure; it changes nothing else but the draws from the RNG.
pub encrypt_record-Sealed :
    (env : Env) (app_msg : Bool) (plain : Bytes) (size : ℕ) (c : Ctx)
    → Sealed c (encrypt_record env app_msg plain size c)
unfolding encrypt_record encrypt_tcg encrypt_mctp seal_record get_random
encrypt_record-Sealed env app_msg plain size c = ground arith

open_record-Opened :
    (env : Env) (header ciphertext tag : Bytes) (seq_num : ℕ) (c : Ctx)
    → Opened c (open_record env header ciphertext tag seq_num c)
unfolding open_record
open_record-Opened env header ciphertext tag seq_num c = ground arith

decrypt_tcg-Opened :
    (env : Env) (enc : Bytes) (size : ℕ) (c : Ctx) → Opened c (decrypt_tcg env enc size c)
unfolding decrypt_tcg
decrypt_tcg-Opened env enc size c =
    let n = get16le (drop 12 enc) - aead_tag_size in
    ground (
      arith,
      open_record-Opened env (take 14 enc) (take n (drop 14 enc))
          (take aead_tag_size (drop (14 + n) enc)) (get64le (drop 4 enc)) c,
    )

decrypt_mctp-Opened :
    (env : Env) (app_msg : Bool) (enc : Bytes) (size : ℕ) (c : Ctx)
    → Opened c (decrypt_mctp env app_msg enc size c)
unfolding decrypt_mctp
decrypt_mctp-Opened env app_msg enc size c =
    let n = get16le (drop 6 enc) - aead_tag_size in
    ground (
      arith,
      open_record-Opened env (take 8 enc) (take n (drop 8 enc))
          (take aead_tag_size (drop (8 + n) enc)) (get16le (drop 4 enc)) c,
    )

-- decrypt_record moves the response sequence number on by one, as a 64-bit counter, if it returns a
-- message; on a failure it leaves the context or makes that one move, and changes nothing else.
pub decrypt_record-Opened :
    (env : Env) (app_msg : Bool) (enc : Bytes) (size : ℕ) (c : Ctx)
    → Opened c (decrypt_record env app_msg enc size c)
unfolding decrypt_record
decrypt_record-Opened env app_msg enc size c = elim (Bool-cases (is_tcg_mode c.mode)) [
  | inl t ↦ rw t (decrypt_tcg-Opened env enc size c)
  | inr m ↦ rw m (decrypt_mctp-Opened env app_msg enc size c)
]

-- The checks that an accepted record has passed.
tcg_accepted :
    (env : Env) (enc : Bytes) (size : ℕ) (c : Ctx) {p : Bytes} {c' : Ctx}
    → decrypt_tcg env enc size c ≡ (ok p, c')
    → (30 ≤ length enc) × (get32le enc ≡ c.session_id) × (get64le (drop 4 enc) ≡ c.rsp_seq_num)
unfolding decrypt_tcg
tcg_accepted env enc size c e = ground arith

tcg_out_of_sequence :
    (env : Env) (enc : Bytes) (size : ℕ) (c : Ctx)
    → 30 ≤ length enc
    → get32le enc ≡ c.session_id
    → get64le (drop 4 enc) ≢ c.rsp_seq_num
    → decrypt_tcg env enc size c ≡ (err sequence, c)
unfolding decrypt_tcg
tcg_out_of_sequence env enc size c long session other = ground arith

mctp_accepted :
    (env : Env) (app_msg : Bool) (enc : Bytes) (size : ℕ) (c : Ctx) {p : Bytes} {c' : Ctx}
    → decrypt_mctp env app_msg enc size c ≡ (ok p, c')
    → (24 ≤ length enc) × (get32le enc ≡ c.session_id) × (get16le (drop 4 enc) ≡ c.rsp_seq_num)
unfolding decrypt_mctp
mctp_accepted env app_msg enc size c e = ground arith

mctp_out_of_sequence :
    (env : Env) (app_msg : Bool) (enc : Bytes) (size : ℕ) (c : Ctx)
    → 24 ≤ length enc
    → get32le enc ≡ c.session_id
    → get16le (drop 4 enc) ≢ c.rsp_seq_num
    → decrypt_mctp env app_msg enc size c ≡ (err sequence, c)
unfolding decrypt_mctp
mctp_out_of_sequence env app_msg enc size c long session other = ground arith

-- `n` records were given to decrypt_record between two contexts, whatever became of them.
pub data Attempts (env : Env) (c : Ctx) : ℕ → Ctx → Type 0 where
  untried : Attempts env c zero c
  tried :
      {n : ℕ} {d : Ctx} (app_msg : Bool) (enc : Bytes) (size : ℕ)
      → Attempts env c n d
      → Attempts env c (suc n) (decrypt_record env app_msg enc size d).1

-- The session is the same, and at most `n` sequence numbers have passed.
record Later (c : Ctx) (n : ℕ) (d : Ctx) : Type 0 where
  passed : ℕ
  few : passed ≤ n
  seq : d.rsp_seq_num ≡ u64 (c.rsp_seq_num + passed)
  session : d.session_id ≡ c.session_id
  mode : d.mode ≡ c.mode

Opened-Later :
    (c d : Ctx) (n : ℕ) (p : Result Bytes × Ctx) → Later c n d → Opened d p → Later c (suc n) p.1
Opened-Later c d n (ok r, d') x moved = record {
  passed = x.passed + 1;
  few = let h = x.few in omega arith;
  seq = let h = x.seq in ap (λ t. t.rsp_seq_num) moved ∙ omega arith;
  session = ap (λ t. t.session_id) moved ∙ x.session;
  mode = ap (λ t. t.mode) moved ∙ x.mode;
}
Opened-Later c d n (err e, d') x (inl same) = record {
  passed = x.passed;
  few = let h = x.few in omega arith;
  seq = ap (λ t. t.rsp_seq_num) same ∙ x.seq;
  session = ap (λ t. t.session_id) same ∙ x.session;
  mode = ap (λ t. t.mode) same ∙ x.mode;
}
Opened-Later c d n (err e, d') x (inr moved) = record {
  passed = x.passed + 1;
  few = let h = x.few in omega arith;
  seq = let h = x.seq in ap (λ t. t.rsp_seq_num) moved ∙ omega arith;
  session = ap (λ t. t.session_id) moved ∙ x.session;
  mode = ap (λ t. t.mode) moved ∙ x.mode;
}

Attempts-Later :
    {env : Env} {c d : Ctx} {n : ℕ} → c.rsp_seq_num < 2 ^ 64 → Attempts env c n d → Later c n d
Attempts-Later {c = c} h untried = record {
  passed = 0;
  few = omega arith;
  seq = omega arith;
  session = refl;
  mode = refl;
}
Attempts-Later {env} {c} h (tried {n = n} {d = d} a enc size before) =
    Opened-Later c d n (decrypt_record env a enc size d) (Attempts-Later h before)
      (decrypt_record-Opened env a enc size d)

-- A record that was accepted in one context is refused in another of the same session with another
-- sequence number.
decrypt_record_stale :
    (env : Env) (app_msg again : Bool) (enc : Bytes) (size size' : ℕ) (c d : Ctx) {p : Bytes}
    {c' : Ctx}
    → decrypt_record env app_msg enc size c ≡ (ok p, c')
    → d.mode ≡ c.mode
    → d.session_id ≡ c.session_id
    → d.rsp_seq_num ≢ c.rsp_seq_num
    → decrypt_record env again enc size' d ≡ (err sequence, d)
unfolding decrypt_record
decrypt_record_stale env app_msg again enc size size' c d e mode session other =
    elim (Bool-cases (is_tcg_mode c.mode)) [
      | inl t ↦
          let (long, id, seq) = tcg_accepted env enc size c (rw t at e) in
          let tcg : is_tcg_mode d.mode ≡ true = ap is_tcg_mode mode ∙ t in
          rw tcg (
            tcg_out_of_sequence env enc size' d long (id ∙ sym session)
              λ same. other (sym same ∙ seq))
      | inr m ↦
          let (long, id, seq) = mctp_accepted env app_msg enc size c (rw m at e) in
          let mctp : is_tcg_mode d.mode ≡ false = ap is_tcg_mode mode ∙ m in
          rw mctp (
            mctp_out_of_sequence env again enc size' d long (id ∙ sym session)
              λ same. other (sym same ∙ seq))
    ]

-- A record that was accepted once is refused as out of sequence when it is replayed, right after or
-- with fewer than 2^64 - 1 other records tried in between, accepted or not, whatever the buffer; the
-- refusal changes nothing. The counter is one of 64 bits.
pub decrypt_record_replay :
    (env : Env) (app_msg again : Bool) (enc : Bytes) (size size' n : ℕ) (c c' d : Ctx) (p : Bytes)
    → c.rsp_seq_num < 2 ^ 64
    → decrypt_record env app_msg enc size c ≡ (ok p, c')
    → n + 1 < 2 ^ 64
    → Attempts env c' n d
    → decrypt_record env again enc size' d ≡ (err sequence, d)
decrypt_record_replay env app_msg again enc size size' n c c' d p range e few run =
    let moved = subst (Opened c) e (decrypt_record-Opened env app_msg enc size c) in
    let count = ap (λ t. t.rsp_seq_num) moved in
    let x = Attempts-Later {c = c'} (omega arith) run in
    let seq = x.seq in
    let bound = x.few in
    decrypt_record_stale env app_msg again enc size size' c d e (x.mode ∙ ap (λ t. t.mode) moved)
      (x.session ∙ ap (λ t. t.session_id) moved) λ same. omega arith
