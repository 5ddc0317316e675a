-- ===== src/Kdf/Schedule.antt =====
-- wolfSPDM_DeriveFromHandshakeSecret as a chain of HKDF calls (src/spdm_kdf.c).
use wolf_spdm.Base.{ℕ, ◌≡◌, [], arith, ap, subst, inl, inr, ◌∙◌}
use wolf_spdm.Context.{Env, Bytes, Keys, Ctx, ok, Result-cases, Outcome-cases}
use wolf_spdm.Kdf.{
  hkdf_expand_label, derive_from_handshake_secret, derive_handshake_chain, codes,
  derive_key_iv_pair, req, rsp,
}
use wolf_spdm.Types.{hash_size, aead_key_size, aead_iv_size}

-- The secrets and keys of a handshake, and the HKDF-Expand-Label calls that give them, from the
-- handshake secret `hs` and TH1, in the version `v`.
pub record Schedule (env : Env) (v : ℕ) (hs th1 : Bytes) : Type 0 where
  pub q : Bytes
  pub p : Bytes
  pub qf : Bytes
  pub pf : Bytes
  pub qk : Bytes
  pub qi : Bytes
  pub pk : Bytes
  pub pi : Bytes
  pub q_lem : hkdf_expand_label env v hs (codes "req hs data") th1 hash_size ≡ ok q
  pub p_lem : hkdf_expand_label env v hs (codes "rsp hs data") th1 hash_size ≡ ok p
  pub qf_lem : hkdf_expand_label env v q (codes "finished") [] hash_size ≡ ok qf
  pub pf_lem : hkdf_expand_label env v p (codes "finished") [] hash_size ≡ ok pf
  pub qk_lem : hkdf_expand_label env v q (codes "key") [] aead_key_size ≡ ok qk
  pub qi_lem : hkdf_expand_label env v q (codes "iv") [] aead_iv_size ≡ ok qi
  pub pk_lem : hkdf_expand_label env v p (codes "key") [] aead_key_size ≡ ok pk
  pub pi_lem : hkdf_expand_label env v p (codes "iv") [] aead_iv_size ≡ ok pi

-- The keys with those of a schedule.
abbrev pub scheduled : {env : Env} {v : ℕ} {hs th1 : Bytes} → Schedule env v hs th1 → Keys → Keys
scheduled s k = record k {
  req_hs_secret = s.q;
  rsp_hs_secret = s.p;
  req_finished_key = s.qf;
  rsp_finished_key = s.pf;
  req_data_key = s.qk;
  req_data_iv = s.qi;
  rsp_data_key = s.pk;
  rsp_data_iv = s.pi;
}

module _ (env : Env) (th1 : Bytes) where
  pair_req :
      (secret : Bytes) (c c' : Ctx)
      → derive_key_iv_pair env req secret c ≡ (ok tt, c')
      → (hkdf_expand_label env c.spdm_version secret (codes "key") [] aead_key_size
          ≡ ok c'.keys.req_data_key)
        × (hkdf_expand_label env c.spdm_version secret (codes "iv") [] aead_iv_size
            ≡ ok c'.keys.req_data_iv)
        × (c' ≡ record c {
          keys = record (c.keys) {
            req_data_key = c'.keys.req_data_key;
            req_data_iv = c'.keys.req_data_iv;
          };
        })
  unfolding derive_key_iv_pair
  pair_req secret c c' e = (ground arith, ground arith, ground arith)

  pair_rsp :
      (secret : Bytes) (c c' : Ctx)
      → derive_key_iv_pair env rsp secret c ≡ (ok tt, c')
      → (hkdf_expand_label env c.spdm_version secret (codes "key") [] aead_key_size
          ≡ ok c'.keys.rsp_data_key)
        × (hkdf_expand_label env c.spdm_version secret (codes "iv") [] aead_iv_size
            ≡ ok c'.keys.rsp_data_iv)
        × (c' ≡ record c {
          keys = record (c.keys) {
            rsp_data_key = c'.keys.rsp_data_key;
            rsp_data_iv = c'.keys.rsp_data_iv;
          };
        })
  unfolding derive_key_iv_pair
  pair_rsp secret c c' e = (ground arith, ground arith, ground arith)

  -- wolfSPDM_DeriveFromHandshakeSecret that succeeds wrote the keys of a schedule, and nothing else.
  pub derive-Schedule :
      (c c' : Ctx)
      → derive_from_handshake_secret env th1 c ≡ (ok tt, c')
      → (s : Schedule env c.spdm_version c.keys.handshake_secret th1) × (c'
          ≡ record c { keys = scheduled s c.keys })
  unfolding derive_from_handshake_secret derive_handshake_chain
  derive-Schedule c c' e =
      let v = c.spdm_version in
      let hs = c.keys.handshake_secret in
      elim (Result-cases (hkdf_expand_label env v hs (codes "req hs data") th1 hash_size)) [
        | inr (x, f) ↦ absurd (ground arith)
        | inl (q, a) ↦
            elim (Result-cases (hkdf_expand_label env v hs (codes "rsp hs data") th1 hash_size)) [
              | inr (x, f) ↦ absurd (ground arith)
              | inl (p, b) ↦
                  elim (Result-cases (hkdf_expand_label env v q (codes "finished") [] hash_size)) [
                    | inr (x, f) ↦ absurd (ground arith)
                    | inl (qf, g) ↦
                        elim (Result-cases
                          (hkdf_expand_label env v p (codes "finished") [] hash_size)) [
                            | inr (x, f) ↦ absurd (ground arith)
                            | inl (pf, h) ↦
                                let c1 : Ctx = record c {
                                  keys = record (c.keys) {
                                    req_hs_secret = q;
                                    rsp_hs_secret = p;
                                    req_finished_key = qf;
                                    rsp_finished_key = pf;
                                  };
                                } in
                                elim (Outcome-cases (derive_key_iv_pair env req q c1)) [
                                  | inr (x, c2, r1) ↦ absurd (ground arith)
                                  | inl (_, c2, r1) ↦
                                      let (k1, i1, w1) = pair_req q c1 c2 r1 in
                                      let run : derive_key_iv_pair env rsp p c2 ≡ (ok tt, c') =
                                        ground arith in
                                      let (k2, i2, w2) = pair_rsp p c2 c' run in
                                      (
                                        record {
                                          q = q;
                                          p = p;
                                          qf = qf;
                                          pf = pf;
                                          qk = c2.keys.req_data_key;
                                          qi = c2.keys.req_data_iv;
                                          pk = c'.keys.rsp_data_key;
                                          pi = c'.keys.rsp_data_iv;
                                          q_lem = a;
                                          p_lem = b;
                                          qf_lem = g;
                                          pf_lem = h;
                                          qk_lem = k1;
                                          qi_lem = i1;
                                          pk_lem =
                                              subst
                                                (λ (n : ℕ).
                                                  hkdf_expand_label env n p (codes "key") []
                                                    aead_key_size
                                                  ≡ ok c'.keys.rsp_data_key)
                                                (ap (λ t. t.spdm_version) w1) k2;
                                          pi_lem =
                                              subst
                                                (λ (n : ℕ).
                                                  hkdf_expand_label env n p (codes "iv") []
                                                    aead_iv_size
                                                  ≡ ok c'.keys.rsp_data_iv)
                                                (ap (λ t. t.spdm_version) w1) i2;
                                        },
                                        w2
                                            ∙ ap
                                                (λ (t : Ctx). record t {
                                                  keys = record (t.keys) {
                                                    rsp_data_key = c'.keys.rsp_data_key;
                                                    rsp_data_iv = c'.keys.rsp_data_iv;
                                                  };
                                                })
                                                w1,
                                      )
                                ]
                          ]
                  ]
            ]
      ]

  -- Where the schedule's calls give what they give, the derivation succeeds on any context in that
  -- version and with that handshake secret.
  pub derive_scheduled :
      (d : Ctx) (v : ℕ) (hs : Bytes) (s : Schedule env v hs th1)
      → d.spdm_version ≡ v
      → d.keys.handshake_secret ≡ hs
      → derive_from_handshake_secret env th1 d ≡ (ok tt, record d { keys = scheduled s d.keys })
  unfolding derive_from_handshake_secret derive_handshake_chain derive_key_iv_pair
  derive_scheduled d v hs s version secret =
      let q = s.q_lem in
      let p = s.p_lem in
      let qf = s.qf_lem in
      let pf = s.pf_lem in
      let qk = s.qk_lem in
      let qi = s.qi_lem in let pk = s.pk_lem in let pi = s.pi_lem in ground arith
