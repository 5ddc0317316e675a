-- ===== src/Standard/Vca/Suite.antt =====
-- What wolfSPDM_ParseAlgorithms accepts (src/spdm_standard.c).
use wolf_spdm.Base.{
  ℕ, Bool, zero, suc, ◌+◌, ◌*◌, ◌%◌, ◌≤◌, ◌≡◌, ap, ◌∙◌, subst, ◌⊎◌, inl, inr, true, some, arith,
  length, get_or, drop, false, Option-cases, sym, ◌≢◌,
}
use wolf_spdm.Standard.Vca.{
  select_alg, parse_algorithms, Selected, bad_algorithms, select_algs, algs_offset,
}
use wolf_spdm.Context.{Bytes, Ctx, ok}
use wolf_spdm.Bytes.{get32le, get16le}
use wolf_spdm.Types.{
  alg_type_key_schedule, alg_type_aead, alg_type_dhe, asym_algo_ecdsa_p384, key_schedule_spdm,
  dhe_algo_secp384r1, aead_algo_aes_256_gcm, hash_algo_sha_384,
}
use wolf_spdm.Message.{check_response}

-- None of `n` algorithm structures, each with its external algorithms after it, has this type.
abbrev pub NoneOf : ℕ → Bytes → ℕ → Type 0
NoneOf zero structs kind = Unit {0}
NoneOf (suc n) structs kind =
    (get_or structs 0 0 ≢ kind) × NoneOf n (drop (4 + get_or structs 1 0 % 16 * 4) structs) kind

-- The last of `n` algorithm structures with this type selects this algorithm.
pub data Selects : ℕ → Bytes → ℕ → ℕ → Type 0 where
  here :
      (n : ℕ) (structs : Bytes)
      → 4 ≤ length structs
      → NoneOf n (drop (4 + get_or structs 1 0 % 16 * 4) structs) (get_or structs 0 0)
      → Selects (suc n) structs (get_or structs 0 0) (get16le (drop 2 structs))
  there :
      (n : ℕ) (structs : Bytes) (kind alg : ℕ)
      → Selects n (drop (4 + get_or structs 1 0 % 16 * 4) structs) kind alg
      → Selects (suc n) structs kind alg

-- How the flag after a structure was raised: by the structure, or before it and by another type.
abbrev Raised : (Selected → Bool) → ℕ → ℕ → ℕ → ℕ → Selected → Type 0
Raised flag kind alg k a s = ((k ≡ kind) × (a ≡ alg)) ⊎ ((k ≢ kind) × (flag s ≡ true))

select_dhe :
    (kind alg : ℕ) (s : Selected)
    → (select_alg kind alg s).dhe_ok ≡ true
    → Raised (λ t. t.dhe_ok) alg_type_dhe dhe_algo_secp384r1 kind alg s
unfolding select_alg
select_dhe kind alg s e = ground arith

select_aead :
    (kind alg : ℕ) (s : Selected)
    → (select_alg kind alg s).aead_ok ≡ true
    → Raised (λ t. t.aead_ok) alg_type_aead aead_algo_aes_256_gcm kind alg s
unfolding select_alg
select_aead kind alg s e = ground arith

select_ks :
    (kind alg : ℕ) (s : Selected)
    → (select_alg kind alg s).ks_ok ≡ true
    → Raised (λ t. t.ks_ok) alg_type_key_schedule key_schedule_spdm kind alg s
unfolding select_alg
select_ks kind alg s e = ground arith

-- A flag that `select_alg` raises only on the algorithm `alg` of the type `kind`, and that each later
-- structure of that type decides anew.
module _ (flag : Selected → Bool) (kind alg : ℕ)
    (raised : (k a : ℕ) (s : Selected)
      → flag (select_alg k a s) ≡ true
      → Raised flag kind alg k a s) where
  select_algs-Selects :
      (n : ℕ) (structs : Bytes) (s t : Selected)
      → select_algs n structs s ≡ some t
      → flag t ≡ true
      → Selects n structs kind alg ⊎ (NoneOf n structs kind × (flag s ≡ true))
  unfolding select_algs
  select_algs-Selects zero structs s t e up =
      let same : s ≡ t = ground arith in inr (tt, ap flag same ∙ up)
  select_algs-Selects (suc n) structs s t e up =
      let rest = drop (4 + get_or structs 1 0 % 16 * 4) structs in
      let k = get_or structs 0 0 in
      let a = get16le (drop 2 structs) in
      let later : select_algs n rest (select_alg k a s) ≡ some t = ground arith in
      let fits : 4 ≤ length structs = ground arith in
      elim (select_algs-Selects n rest (select_alg k a s) t later up) [
        | inl found ↦ inl (there n structs kind alg found)
        | inr (none_after, lit) ↦ elim (raised k a s lit) [
          | inr (other, before) ↦ inr ((other, none_after), before)
          | inl (same_kind, same_alg) ↦
              let last = here n structs fits (subst (NoneOf n rest) (sym same_kind) none_after) in
              inl (
                subst (λ x. Selects (suc n) structs x alg) same_kind
                  (subst (Selects (suc n) structs k) same_alg last))
        ]
      ]

-- Algorithm Set B: the responder picked ECDSA P-384, SHA-384, ECDHE secp384r1, AES-256-GCM and the
-- SPDM key schedule.
pub record SetB (buf : Bytes) : Type 0 where
  pub asym : get32le (drop 12 buf) ≡ asym_algo_ecdsa_p384
  pub hash : get32le (drop 16 buf) ≡ hash_algo_sha_384
  pub dhe : Selects (get_or buf 2 0) (drop (algs_offset buf) buf) alg_type_dhe dhe_algo_secp384r1
  pub aead :
      Selects (get_or buf 2 0) (drop (algs_offset buf) buf) alg_type_aead aead_algo_aes_256_gcm
  pub schedule :
      Selects (get_or buf 2 0) (drop (algs_offset buf) buf) alg_type_key_schedule key_schedule_spdm

parse_algorithms-selected :
    (buf : Bytes) (c c' : Ctx)
    → parse_algorithms buf c ≡ (ok tt, c')
    → (s : Selected) × (c' ≡ c)
      × (select_algs
            (get_or buf 2 0)
            (drop (algs_offset buf) buf)
            (record { dhe_ok = false; aead_ok = false; ks_ok = false })
          ≡ some s)
      × (s.dhe_ok ≡ true)
      × (s.aead_ok ≡ true)
      × (s.ks_ok ≡ true)
      × (bad_algorithms c.spdm_version buf ≡ false)
unfolding parse_algorithms check_response
parse_algorithms-selected buf c c' e =
    elim (Option-cases (
      select_algs (get_or buf 2 0) (drop (algs_offset buf) buf)
        (record { dhe_ok = false; aead_ok = false; ks_ok = false }))) [
          | inl q ↦ absurd (ground arith)
          | inr (s, q) ↦
              (s, ground arith, q, ground arith, ground arith, ground arith, ground arith)
        ]

bad_algorithms-fields :
    (version : ℕ) (buf : Bytes)
    → bad_algorithms version buf ≡ false
    → (get_or buf 0 0 ≡ version)
      × (get16le (drop 4 buf) ≡ length buf)
      × (get32le (drop 12 buf) ≡ asym_algo_ecdsa_p384)
      × (get32le (drop 16 buf) ≡ hash_algo_sha_384)
unfolding bad_algorithms
bad_algorithms-fields version buf e = ground arith

-- parse_algorithms accepts an ALGORITHMS message only if it is of the negotiated version and of the
-- length that it states, and what it selects is Algorithm Set B: of the algorithm structures of a
-- type the last one counts; the context is unchanged.
pub parse_algorithms-SetB :
    (buf : Bytes) (c c' : Ctx)
    → parse_algorithms buf c ≡ (ok tt, c')
    → (c' ≡ c) × (get_or buf 0 0 ≡ c.spdm_version) × (get16le (drop 4 buf) ≡ length buf) × SetB buf
parse_algorithms-SetB buf c c' e =
    let (s, same, picked, dhe, aead, ks, good) = parse_algorithms-selected buf c c' e in
    let (version, len, asym, hash) = bad_algorithms-fields c.spdm_version buf good in
    let n = get_or buf 2 0 in
    let structs = drop (algs_offset buf) buf in
    let start : Selected = record { dhe_ok = false; aead_ok = false; ks_ok = false } in
    (
      same,
      version,
      len,
      record {
        asym = asym;
        hash = hash;
        dhe =
            elim (select_algs-Selects (λ t. t.dhe_ok) alg_type_dhe dhe_algo_secp384r1 select_dhe n
              structs start s picked dhe) [
                | inl found ↦ found
                | inr (none_, lit) ↦ absurd (ground arith)
              ];
        aead =
            elim (select_algs-Selects (λ t. t.aead_ok) alg_type_aead aead_algo_aes_256_gcm
              select_aead n structs start s picked aead) [
                | inl found ↦ found
                | inr (none_, lit) ↦ absurd (ground arith)
              ];
        schedule =
            elim (select_algs-Selects (λ t. t.ks_ok) alg_type_key_schedule key_schedule_spdm
              select_ks n structs start s picked ks) [
                | inl found ↦ found
                | inr (none_, lit) ↦ absurd (ground arith)
              ];
      },
    )
