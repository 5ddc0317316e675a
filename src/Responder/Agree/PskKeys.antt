-- ===== src/Responder/Agree/PskKeys.antt =====
-- The key schedule of a PSK session at both ends: wolfSPDM_DeriveHandshakeKeysPsk (src/spdm_psk.c)
-- and the responder's PSK_EXCHANGE_RSP (src/spdm_responder.c).
use wolf_spdm.Base.{
  ℕ, ◌≡◌, refl, ap, ◌∙◌, inl, inr, false, some, [], ◌++◌, arith, ◌==◌, Option-cases, length,
  replicate,
}
use wolf_spdm.Psk.{derive_handshake_keys_psk, wipe_psk}
use wolf_spdm.Context.{Env, Bytes, Ctx, ok, Outcome-cases}
use wolf_spdm.Transcript.{transcript_add, transcript_hash, sha384_hash, overflows}
use wolf_spdm.Kdf.Schedule.{Schedule, derive_scheduled, scheduled, derive-Schedule}
use wolf_spdm.Types.{hash_size, state_key_ex}
use wolf_spdm.Kdf.{compute_verify_data, derive_from_handshake_secret}
use wolf_spdm.Responder.Exchange.{psk_exchange_keys, psk_exchange_verify}

-- The context after the keys of a schedule were derived from the PSK.
abbrev pub with_psk_keys : {env : Env} {v : ℕ} {hs th1 : Bytes} → Schedule env v hs th1 → Ctx → Ctx
with_psk_keys {hs = hs} s c =
    wipe_psk (record c { keys = scheduled s (record (c.keys) { handshake_secret = hs }) })

-- What the derivation of the keys from a PSK did.
pub record PskDerived (env : Env) (th1 : Bytes) (c c' : Ctx) : Type 0 where
  pub hs : Bytes
  pub extracted : env.hkdf_extract (replicate hash_size 0xFF) c.psk.psk ≡ some hs
  pub held : (length c.psk.psk == 0) ≡ false
  pub schedule : Schedule env c.spdm_version hs th1
  pub left_ : c' ≡ with_psk_keys schedule c

pub derive_handshake_keys_psk-Derived :
    (env : Env) (th1 : Bytes) (c c' : Ctx)
    → derive_handshake_keys_psk env th1 c ≡ (ok tt, c')
    → PskDerived env th1 c c'
unfolding derive_handshake_keys_psk
derive_handshake_keys_psk-Derived env th1 c c' e =
    elim (Option-cases (env.hkdf_extract (replicate hash_size 0xFF) c.psk.psk)) [
      | inl q ↦ absurd (ground arith)
      | inr (hs, q) ↦
          let d : Ctx = record c { keys = record (c.keys) { handshake_secret = hs } } in
          elim (Outcome-cases (derive_from_handshake_secret env th1 d)) [
            | inr (x, d', run) ↦ absurd (ground arith)
            | inl (_, d', run) ↦
                let (s, w) = derive-Schedule env th1 d d' run in
                let last : c' ≡ wipe_psk d' = ground arith in
                record {
                  hs = hs;
                  extracted = q;
                  held = ground arith;
                  schedule = s;
                  left_ = last ∙ ap wipe_psk w;
                }
          ]
    ]

pub derive_handshake_keys_psk-scheduled :
    (env : Env) (th1 : Bytes) (d : Ctx) (v : ℕ) (hs psk : Bytes) (s : Schedule env v hs th1)
    → d.spdm_version ≡ v
    → d.psk.psk ≡ psk
    → (length psk == 0) ≡ false
    → env.hkdf_extract (replicate hash_size 0xFF) psk ≡ some hs
    → derive_handshake_keys_psk env th1 d ≡ (ok tt, with_psk_keys s d)
unfolding derive_handshake_keys_psk
derive_handshake_keys_psk-scheduled env th1 d v hs psk s version same held extracted =
    let d' : Ctx = record d { keys = record (d.keys) { handshake_secret = hs } } in
    let run = derive_scheduled env th1 d' v hs s version refl in
    let held' : (length d.psk.psk == 0) ≡ false = rw same held in
    let extracted' : env.hkdf_extract (replicate hash_size 0xFF) d.psk.psk ≡ some hs =
      rw same extracted in
    rw (held', extracted', run) refl

-- What psk_exchange_keys made of `head`.
pub record KeysMade (env : Env) (head : Bytes) (d d' : Ctx) (th1 : Bytes) : Type 0 where
  pub hs : Bytes
  pub held : (length d.psk.psk == 0) ≡ false
  pub extracted : env.hkdf_extract (replicate hash_size 0xFF) d.psk.psk ≡ some hs
  pub schedule : Schedule env d.spdm_version hs th1
  pub hashed : env.sha384 ((d.transcript ++ head) ++ []) ≡ some th1
  pub fits : overflows d.transcript head ≡ false
  pub left_ :
      d' ≡ with_psk_keys schedule (record d { transcript = d.transcript ++ head; th1 = th1 })

pub psk_exchange_keys-Made :
    (env : Env) (head : Bytes) (d d' : Ctx) (th1 : Bytes)
    → psk_exchange_keys env head d ≡ (ok th1, d')
    → KeysMade env head d d' th1
unfolding psk_exchange_keys transcript_add transcript_hash sha384_hash
psk_exchange_keys-Made env head d d' th1 e =
    let d1 : Ctx = record d { transcript = d.transcript ++ head; th1 = th1 } in
    let run : derive_handshake_keys_psk env th1 d1 ≡ (ok tt, d') = ground arith in
    let k = derive_handshake_keys_psk-Derived env th1 d1 d' run in
    record {
      hs = k.hs;
      held = k.held;
      extracted = k.extracted;
      schedule = k.schedule;
      hashed = ground arith;
      fits = ground arith;
      left_ = k.left_;
    }

pub psk_exchange_verify-ok :
    (env : Env) (th1 : Bytes) (d d' : Ctx) (verify_data : Bytes)
    → psk_exchange_verify env th1 d ≡ (ok verify_data, d')
    → (env.hmac d.keys.rsp_finished_key th1 ≡ some verify_data)
      × (overflows d.transcript verify_data ≡ false)
      × (d' ≡ record d { transcript = d.transcript ++ verify_data; state = state_key_ex })
unfolding psk_exchange_verify transcript_add compute_verify_data
psk_exchange_verify-ok env th1 d d' verify_data e = (ground arith, ground arith, ground arith)
