-- ===== src/Message/Commit.antt =====
-- The proofs of wolfSPDM_ParseKeyExchangeRsp (src/spdm_msg.c) and wolfSPDM_ParsePskExchangeRsp
-- (src/spdm_psk.c) leave the handshake state alone, however they end: the commit comes after them.
use wolf_spdm.Context
use wolf_spdm.Base.{
  ℕ, ◌≡◌, refl, ◌∙◌, arith, ◌+◌, inl, inr, Bool, not, Option, none, some, Option-cases, take, drop,
  replicate,
}
use wolf_spdm.Types.{Error, hash_size, ecc_sig_size, crypto_fail, ecc_key_size, bad_hmac}
use wolf_spdm.Transcript.{transcript_add, transcript_hash, sha384_hash}
use wolf_spdm.Context.{Ctx, Env, M, Bytes}
use wolf_spdm.Responder.Follows.{IsPreorder, Follows, Follows-bind}
use wolf_spdm.Psk.{check_psk_responder, derive_handshake_keys_psk, wipe_psk}
use wolf_spdm.Message.KeyExchange.{check_responder}
use wolf_spdm.Kdf.{
  derive_from_handshake_secret, derive_handshake_keys, compute_verify_data, zeros,
  wipe_handshake_keys, derive_handshake_chain, codes, derive_key_iv_pair,
}
use wolf_spdm.Crypto.{compute_shared_secret, verify_signature}
use wolf_spdm.Message.Signing.{verify_rsp_sig, build_signed_hash}
use wolf_spdm.Bytes.{same_bytes}

-- The handshake state stays.
abbrev pub Uncommitted : Ctx → Ctx → Type 0
Uncommitted c d = d.state ≡ c.state

Uncommitted-IsPreorder : IsPreorder Uncommitted
Uncommitted-IsPreorder = record { reflexive = λ c. refl; transitive = λ c d e p q. q ∙ p }

Uncommitted->>= :
    {A B : Type 0} {m : M A} {f : A → M B}
    → Follows Uncommitted m
    → ((a : A) → Follows Uncommitted (f a))
    → Follows Uncommitted (Context.◌>>=◌ m f)
Uncommitted->>= first then_ = Follows-bind Uncommitted Uncommitted-IsPreorder first then_

gets-Uncommitted : {A : Type 0} {f : Ctx → A} → Follows Uncommitted (Context.gets f)
gets-Uncommitted = record { follows = λ c. refl }

fail_if-Uncommitted : (test : Bool) (e : Error) → Follows Uncommitted (Context.fail_if test e)
fail_if-Uncommitted test e = record { follows = λ c. refl }

transcript_add-Uncommitted : (message : Bytes) → Follows Uncommitted (transcript_add message)
unfolding transcript_add
transcript_add-Uncommitted message = record { follows = λ c. ground arith }

set_th1-Uncommitted :
    (th1 : Bytes) → Follows Uncommitted (Context.modify λ c. record c { th1 = th1 })
set_th1-Uncommitted th1 = record { follows = λ c. refl }

module _ (env : Env) where
  transcript_hash-Uncommitted : Follows Uncommitted (transcript_hash env)
  unfolding transcript_hash sha384_hash
  transcript_hash-Uncommitted = record { follows = λ c. ground arith }

  compute_verify_data-Uncommitted :
      (k h : Bytes) → Follows Uncommitted (compute_verify_data env k h)
  unfolding compute_verify_data
  compute_verify_data-Uncommitted k h = record { follows = λ c. ground arith }

  compute_shared_secret-Uncommitted :
      (x y : Bytes) → Follows Uncommitted (compute_shared_secret env x y)
  unfolding compute_shared_secret
  compute_shared_secret-Uncommitted x y = record { follows = λ c. ground arith }

  verify_rsp_sig-Uncommitted :
      (label digest sig : Bytes) → Follows Uncommitted (verify_rsp_sig env label digest sig)
  unfolding verify_rsp_sig build_signed_hash verify_signature sha384_hash
  verify_rsp_sig-Uncommitted label digest sig = record { follows = λ c. ground arith }

  derive_from_handshake_secret-Uncommitted :
      (th1 : Bytes) → Follows Uncommitted (derive_from_handshake_secret env th1)
  unfolding derive_from_handshake_secret wipe_handshake_keys derive_handshake_chain
      derive_key_iv_pair
  derive_from_handshake_secret-Uncommitted th1 = record { follows = λ c. ground arith }

  secret-Uncommitted :
      (hs : Bytes)
      → Follows Uncommitted
          (Context.modify λ c. record c { keys = record (c.keys) { handshake_secret = hs } })
  secret-Uncommitted hs = record { follows = λ c. refl }

  or_fail-Uncommitted :
      {A : Type 0} (o : Option A) (e : Error) → Follows Uncommitted (Context.or_fail o e)
  or_fail-Uncommitted none e = record { follows = λ c. refl }
  or_fail-Uncommitted (some a) e = record { follows = λ c. refl }

  derive_handshake_keys-Uncommitted :
      (th1 : Bytes) → Follows Uncommitted (derive_handshake_keys env th1)
  unfolding derive_handshake_keys
  derive_handshake_keys-Uncommitted th1 = Uncommitted->>= gets-Uncommitted λ shared.
      Uncommitted->>= (or_fail-Uncommitted (env.hkdf_extract (zeros hash_size) shared) crypto_fail)
        λ hs.
          Uncommitted->>= (secret-Uncommitted hs) λ _. derive_from_handshake_secret-Uncommitted th1

  derive_handshake_keys_psk-Uncommitted :
      (th1 : Bytes) → Follows Uncommitted (derive_handshake_keys_psk env th1)
  unfolding derive_handshake_keys_psk wipe_psk
  derive_handshake_keys_psk-Uncommitted th1 = record {
    follows = λ c. elim (Option-cases (env.hkdf_extract (replicate hash_size 0xFF) c.psk.psk)) [
      | inl q ↦ ground arith
      | inr (hs, q) ↦
          let d : Ctx = record c { keys = record (c.keys) { handshake_secret = hs } } in
          let kept = (derive_from_handshake_secret-Uncommitted th1).follows d in ground arith
    ];
  }

  pub check_psk_responder-Uncommitted :
      (buf : Bytes) (off : ℕ) → Follows Uncommitted (check_psk_responder env buf off)
  unfolding check_psk_responder
  check_psk_responder-Uncommitted buf off =
      let sent = take hash_size (drop off buf) in
      Uncommitted->>= (transcript_add-Uncommitted (take off buf)) λ _.
        Uncommitted->>= transcript_hash-Uncommitted λ th1.
          Uncommitted->>= (set_th1-Uncommitted th1) λ _.
            Uncommitted->>= (derive_handshake_keys_psk-Uncommitted th1) λ _.
              Uncommitted->>= (gets-Uncommitted {f = λ c. c.keys.rsp_finished_key}) λ key.
                Uncommitted->>= (compute_verify_data-Uncommitted key th1) λ hmac.
                  Uncommitted->>= (fail_if-Uncommitted (not (same_bytes hmac sent)) bad_hmac)
                    λ _. transcript_add-Uncommitted sent

  pub check_responder-Uncommitted :
      (buf : Bytes) (off : ℕ) → Follows Uncommitted (check_responder env buf off)
  unfolding check_responder
  check_responder-Uncommitted buf off =
      let signature = take ecc_sig_size (drop off buf) in
      let sent = take hash_size (drop (off + ecc_sig_size) buf) in
      let label = codes "responder-key_exchange_rsp signing" in
      Uncommitted->>= (transcript_add-Uncommitted (take off buf)) λ _.
        Uncommitted->>= transcript_hash-Uncommitted λ digest.
          Uncommitted->>= (verify_rsp_sig-Uncommitted label digest signature) λ _.
            Uncommitted->>= (transcript_add-Uncommitted signature) λ _.
              Uncommitted->>=
                (compute_shared_secret-Uncommitted (take ecc_key_size (drop 40 buf))
                  (take ecc_key_size (drop (40 + ecc_key_size) buf)))
                λ _. Uncommitted->>= transcript_hash-Uncommitted λ th1.
                  Uncommitted->>= (set_th1-Uncommitted th1) λ _.
                    Uncommitted->>= (derive_handshake_keys-Uncommitted th1) λ _.
                      Uncommitted->>= (gets-Uncommitted {f = λ c. c.keys.rsp_finished_key}) λ key.
                        Uncommitted->>= (compute_verify_data-Uncommitted key th1) λ hmac.
                          Uncommitted->>=
                            (fail_if-Uncommitted (not (same_bytes hmac sent)) bad_hmac)
                            λ _. transcript_add-Uncommitted sent
