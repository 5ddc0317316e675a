-- ===== src/Responder/Steady.antt =====
-- The clear half of the responder but for its vendor commands keeps what is provisioned and begins no
-- session (src/spdm_responder.c).
use wolf_spdm.Types.Code
use wolf_spdm.Base.{
  ℕ, inl, inr, [], arith, Option-cases, take, replicate, ◌+◌, true, false, not, ◌||◌, ◌++◌, ltb,
  ◌==◌, length, get_or, drop,
}
use wolf_spdm.Psk.{derive_handshake_keys_psk, wipe_psk}
use wolf_spdm.Responder.Exchange.{
  take_session_id, psk_exchange_rsp_head, key_exchange_proof, psk_exchange_proof, key_exchange_sign,
  key_exchange_rsp_head, reload_psk, psk_request_fits, psk_exchange_keys, psk_exchange_verify,
}
use wolf_spdm.Message.Signing.{build_signed_hash, build_signed_msg}
use wolf_spdm.Kdf.{derive_handshake_keys, zeros, codes}
use wolf_spdm.Responder.Follows.{
  Follows, Calm, Calm->>=, Calm-lift, Calm-modify, Calm-gets, Calm-or_fail, Calm-pure, Steady,
  Steady->>=, Steady-on_ctx, Steady-gets, Calm-fail_if, Follows-if, Steady-modify, Steady-still,
}
use wolf_spdm.Context.{Bytes, Env, modify, Ctx}
use wolf_spdm.Types.{
  hash_size, state_key_ex, random_size, crypto_fail, ecc_sig_size, ecc_key_size, bad_state,
  buffer_small, framing,
}
use wolf_spdm.Responder.Calm.{
  compute_shared_secret-Calm, transcript_add-Calm, derive_from_handshake_secret-Calm,
  get_random-Calm, transcript_hash-Calm, sha384_hash-Calm, compute_verify_data-Calm,
  generate_ephemeral_key-Calm, sign_as-Calm, export_ephemeral_pub_key-Calm, select_version-Calm,
}
use wolf_spdm.Responder.{R, resp_reset}
use wolf_spdm.Responder.Dispatch.{clear_version, recorded}
use wolf_spdm.Responder.Handshake.{build_psk_exchange_rsp, build_key_exchange_rsp}
use wolf_spdm.Transcript.{transcript_reset}
use wolf_spdm.Crypto.{free_ephemeral_key}
use wolf_spdm.Responder.Command.{vendor_reply}

set_th1-Calm : (h : Bytes) → Follows Calm (modify λ c. record c { th1 = h })
set_th1-Calm h = Calm-modify λ c. ground arith

set_key_ex-Calm : Follows Calm (modify λ c. record c { state = state_key_ex })
set_key_ex-Calm = Calm-modify λ c. ground arith

take_session_id-Calm : (buf : Bytes) → Follows Calm (modify (take_session_id buf))
unfolding take_session_id
take_session_id-Calm buf = Calm-modify λ c. ground arith

build_signed_hash-Calm :
    (env : Env) (v : ℕ) (x d : Bytes) → Follows Calm (build_signed_hash env v x d)
unfolding build_signed_hash
build_signed_hash-Calm env v x d =
    Calm->>= (Calm-lift {r = build_signed_msg v x d}) λ msg. sha384_hash-Calm env msg [] []

derive_handshake_keys-Calm : (env : Env) (h : Bytes) → Follows Calm (derive_handshake_keys env h)
unfolding derive_handshake_keys
derive_handshake_keys-Calm env h = Calm->>= (Calm-gets {f = λ c. c.keys.shared_secret}) λ shared.
    Calm->>= (Calm-or_fail (env.hkdf_extract (zeros hash_size) shared) crypto_fail) λ hs.
      Calm->>=
        (Calm-modify {f = λ c. record c { keys = record (c.keys) { handshake_secret = hs } }}
          λ c. ground arith)
        λ _. derive_from_handshake_secret-Calm env h

derive_handshake_keys_psk-Calm :
    (env : Env) (h : Bytes) → Follows Calm (derive_handshake_keys_psk env h)
unfolding derive_handshake_keys_psk wipe_psk
derive_handshake_keys_psk-Calm env h = record {
  follows = λ c. elim (Option-cases (env.hkdf_extract (replicate hash_size 0xFF) c.psk.psk)) [
    | inl q ↦ ground arith
    | inr (hs, q) ↦
        let d : Ctx = record c { keys = record (c.keys) { handshake_secret = hs } } in
        let kept = (derive_from_handshake_secret-Calm env h).follows d in ground arith
  ];
}

psk_exchange_rsp_head-Calm : (env : Env) → Follows Calm (psk_exchange_rsp_head env)
unfolding psk_exchange_rsp_head
psk_exchange_rsp_head-Calm env =
    Calm->>= (Calm-gets {f = λ c. c.spdm_version})
      λ v. Calm->>= (get_random-Calm env 32) λ random. Calm-pure

psk_exchange_keys-Calm : (env : Env) (head : Bytes) → Follows Calm (psk_exchange_keys env head)
unfolding psk_exchange_keys
psk_exchange_keys-Calm env head = Calm->>= (transcript_add-Calm head) λ _.
    Calm->>= (transcript_hash-Calm env) λ th1.
      Calm->>= (set_th1-Calm th1)
        λ _. Calm->>= (derive_handshake_keys_psk-Calm env th1) λ _. Calm-pure {a = th1}

psk_exchange_verify-Calm : (env : Env) (th1 : Bytes) → Follows Calm (psk_exchange_verify env th1)
unfolding psk_exchange_verify
psk_exchange_verify-Calm env th1 = Calm->>= (Calm-gets {f = λ c. c.keys.rsp_finished_key}) λ key.
    Calm->>= (compute_verify_data-Calm env key th1) λ verify_data.
      Calm->>= (transcript_add-Calm verify_data)
        λ _. Calm->>= set_key_ex-Calm λ _. Calm-pure {a = verify_data}

psk_exchange_proof-Calm : (env : Env) (head : Bytes) → Follows Calm (psk_exchange_proof env head)
unfolding psk_exchange_proof
psk_exchange_proof-Calm env head = Calm->>= (psk_exchange_keys-Calm env head) λ th1.
    Calm->>= (psk_exchange_verify-Calm env th1) λ verify_data. Calm-pure {a = head ++ verify_data}

key_exchange_rsp_head-Calm : (env : Env) → Follows Calm (key_exchange_rsp_head env)
unfolding key_exchange_rsp_head
key_exchange_rsp_head-Calm env = Calm->>= (Calm-gets {f = λ c. c.spdm_version}) λ v.
    Calm->>= (get_random-Calm env random_size) λ random.
      Calm->>= (generate_ephemeral_key-Calm env) λ _.
        Calm->>= (export_ephemeral_pub_key-Calm env ecc_key_size ecc_key_size) λ point. Calm-pure

key_exchange_sign-Calm :
    (env : Env) (p q head : Bytes) → Follows Calm (key_exchange_sign env p q head)
unfolding key_exchange_sign
key_exchange_sign-Calm env p q head = Calm->>= (transcript_add-Calm head) λ _.
    Calm->>= (transcript_hash-Calm env) λ th1. Calm->>= (Calm-gets {f = λ c. c.spdm_version}) λ v.
      Calm->>= (build_signed_hash-Calm env v (codes "responder-key_exchange_rsp signing") th1)
        λ hash.
          Calm->>= (sign_as-Calm env p q hash)
            λ sig. Calm->>= (transcript_add-Calm (take ecc_sig_size sig)) λ _. Calm-pure {a = sig}

key_exchange_proof-Calm : (env : Env) (x y : Bytes) → Follows Calm (key_exchange_proof env x y)
unfolding key_exchange_proof
key_exchange_proof-Calm env x y = Calm->>= (compute_shared_secret-Calm env x y) λ _.
    Calm->>= (transcript_hash-Calm env) λ th1. Calm->>= (set_th1-Calm th1) λ _.
      Calm->>= (derive_handshake_keys-Calm env th1) λ _.
        Calm->>= (Calm-gets {f = λ c. c.keys.rsp_finished_key}) λ key.
          Calm->>= (compute_verify_data-Calm env key th1) λ verify_data.
            Calm->>= (transcript_add-Calm verify_data)
              λ _. Calm->>= set_key_ex-Calm λ _. Calm-pure {a = verify_data}

-- The handlers of the clear half.
pub build_psk_exchange_rsp-Steady :
    (env : Env) (buf : Bytes) (room : ℕ) → Follows Steady (build_psk_exchange_rsp env buf room)
unfolding build_psk_exchange_rsp reload_psk
build_psk_exchange_rsp-Steady env buf room =
    Steady->>= (Steady-gets {f = λ r. r.psk_store}) λ store.
      Steady->>= (Steady-on_ctx (Calm-fail_if (ltb (length buf) 12 || length store == 0) bad_state))
        λ _.
          Steady->>= (Steady-on_ctx (Calm-fail_if (ltb room (12 + 32 + hash_size)) buffer_small))
            λ _. Steady->>= (Steady-on_ctx (Calm-fail_if (not (psk_request_fits buf)) framing)) λ _.
              Steady->>= (Steady-modify {f = reload_psk} λ r. ground arith) λ _.
                Steady->>= (Steady-on_ctx (take_session_id-Calm buf)) λ _.
                  Steady->>= (Steady-on_ctx (psk_exchange_rsp_head-Calm env)) λ head.
                    Steady->>= (Steady-on_ctx (psk_exchange_proof-Calm env head)) λ out.
                      Steady->>=
                        (Steady-modify {f = λ r. record r { pending_asym = false }}
                          λ r. ground arith)
                        λ _. Steady-on_ctx (Calm-pure {a = out})

pub build_key_exchange_rsp-Steady :
    (env : Env) (buf : Bytes) (room : ℕ) → Follows Steady (build_key_exchange_rsp env buf room)
unfolding build_key_exchange_rsp
build_key_exchange_rsp-Steady env buf room =
    Steady->>= (Steady-gets {f = λ r. r.has_id_key}) λ has_id_key.
      Steady->>= (Steady-on_ctx (Calm-fail_if (ltb (length buf) 136 || not has_id_key) bad_state))
        λ _.
          Steady->>=
            (Steady-on_ctx (Calm-fail_if (ltb room (138 + ecc_sig_size + hash_size)) buffer_small))
            λ _. Steady->>= (Steady-on_ctx (take_session_id-Calm buf)) λ _.
              Steady->>= (Steady-on_ctx (key_exchange_rsp_head-Calm env)) λ head.
                Steady->>= (Steady-gets {f = λ r. r.id_priv_key}) λ p.
                  Steady->>= (Steady-gets {f = λ r. r.id_pub_key}) λ q.
                    Steady->>= (Steady-on_ctx (key_exchange_sign-Calm env p q head)) λ sig.
                      Steady->>=
                        (Steady-on_ctx (
                          key_exchange_proof-Calm env (take ecc_key_size (drop 40 buf))
                            (take ecc_key_size (drop 88 buf))))
                        λ verify_data.
                          Steady->>=
                            (Steady-modify {f = λ r. record r { pending_asym = true }}
                              λ r. ground arith)
                            λ _.
                              Steady-on_ctx
                                (Calm-pure {a = head ++ (take ecc_sig_size sig ++ verify_data)})

pub clear_version-Steady : (buf : Bytes) → Follows Steady (clear_version buf)
unfolding clear_version resp_reset transcript_reset free_ephemeral_key
clear_version-Steady buf =
    Follows-if (get_or buf 1 0 == Code.get_version)
      (Steady-modify {f = λ r. resp_reset (record r { ctx = transcript_reset r.ctx })}
        λ r. ground arith)
      (Steady-on_ctx
        (select_version-Calm (get_or buf 0 0) (get_or buf 1 0 == Code.vendor_defined_request)))

pub recorded-Steady : {m : R Bytes} → Follows Steady m → Follows Steady (recorded m)
recorded-Steady {m} steady = Steady->>= {m = m} steady λ out.
    Steady->>= (Steady-on_ctx (transcript_add-Calm out)) λ _. Steady-on_ctx (Calm-pure {a = out})

pub vendor_reply-Steady :
    (vd_code payload : Bytes) (room : ℕ) → Follows Steady (vendor_reply vd_code payload room)
unfolding vendor_reply
vendor_reply-Steady vd_code payload room = Steady-still λ r. ground arith
