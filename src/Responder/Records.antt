-- ===== src/Responder/Records.antt =====
-- Records between the requester and the responder (src/spdm_responder.c, src/spdm_secured.c).
use wolf_spdm.Base.{ℕ, ◌≤◌, ◌≡◌, sym, subst, false, some, length, ◌+◌, ap, arith}
use wolf_spdm.Context.{Env, Ctx, Bytes, ok}
use wolf_spdm.Responder.Clear.{swap_data_dir, resp_decrypt, resp_encrypt}
use wolf_spdm.Secured.RoundTrip.{Expects, AeadOpens, InRange}
use wolf_spdm.Secured.{encrypt_internal, decrypt_internal, decrypt_record, u64, encrypt_record}
use wolf_spdm.Secured.RoundTrip.Record.{record_round_trip}
use wolf_spdm.Secured.Sequence.{Sealed, encrypt_record-Sealed, Opened, decrypt_record-Opened}

-- Both ends of a session hold the same keys and have counted the same records.
pub record SameSession (c d : Ctx) : Type 0 where
  pub mode : d.mode ≡ c.mode
  pub session : d.session_id ≡ c.session_id
  pub req_seq : d.req_seq_num ≡ c.req_seq_num
  pub rsp_seq : d.rsp_seq_num ≡ c.rsp_seq_num
  pub req_key : d.keys.req_data_key ≡ c.keys.req_data_key
  pub rsp_key : d.keys.rsp_data_key ≡ c.keys.rsp_data_key
  pub req_iv : d.keys.req_data_iv ≡ c.keys.req_data_iv
  pub rsp_iv : d.keys.rsp_data_iv ≡ c.keys.rsp_data_iv

requests-Expects : (c d : Ctx) → SameSession c d → Expects c (swap_data_dir d)
unfolding swap_data_dir
requests-Expects c d x = record {
  mode = x.mode;
  session = x.session;
  seq = x.req_seq;
  key = x.req_key;
  iv = x.req_iv;
}

responses-Expects : (c d : Ctx) → SameSession c d → Expects (swap_data_dir d) c
unfolding swap_data_dir
responses-Expects c d x = record {
  mode = sym x.mode;
  session = sym x.session;
  seq = sym x.rsp_seq;
  key = sym x.rsp_key;
  iv = sym x.rsp_iv;
}

SameSession-request :
    (c c' d e : Ctx)
    → SameSession c d
    → c' ≡ record c { draws = c'.draws; req_seq_num = u64 (c.req_seq_num + 1) }
    → e ≡ record (swap_data_dir d) { rsp_seq_num = u64 ((swap_data_dir d).rsp_seq_num + 1) }
    → SameSession c' (swap_data_dir e)
unfolding swap_data_dir
SameSession-request c c' d e x sent got =
    rw (sent, got)
      (record {
        mode = x.mode;
        session = x.session;
        req_seq = ap (λ s. u64 (s + 1)) x.req_seq;
        rsp_seq = x.rsp_seq;
        req_key = x.req_key;
        rsp_key = x.rsp_key;
        req_iv = x.req_iv;
        rsp_iv = x.rsp_iv;
      })

SameSession-response :
    (c e d s' : Ctx)
    → SameSession c d
    → s' ≡ record (swap_data_dir d) {
      draws = s'.draws;
      req_seq_num = u64 ((swap_data_dir d).req_seq_num + 1);
    }
    → e ≡ record c { rsp_seq_num = u64 (c.rsp_seq_num + 1) }
    → SameSession e (swap_data_dir s')
unfolding swap_data_dir
SameSession-response c e d s' x sent got =
    rw (sent, got)
      (record {
        mode = x.mode;
        session = x.session;
        req_seq = x.req_seq;
        rsp_seq = ap (λ s. u64 (s + 1)) x.rsp_seq;
        req_key = x.req_key;
        rsp_key = x.rsp_key;
        req_iv = x.req_iv;
        rsp_iv = x.rsp_iv;
      })

module _ (env : Env) (opens : AeadOpens env)
    (exact : (k n : ℕ) (out : Bytes) → env.random k n ≡ some out → length out ≡ n) where
  -- A request that the requester sealed, with a session ID of 32 bits and a sequence number of 64
  -- bits, is what the responder opens, within its buffer, and the two ends agree on the session again
  -- afterwards: under an AEAD that decrypts what it encrypted and an RNG that gives as many bytes as it
  -- is asked for.
  pub request_round_trip :
      (plain : Bytes) (size room : ℕ) (c c' d : Ctx) (r : Bytes)
      → SameSession c d
      → InRange c
      → length plain ≤ room
      → encrypt_internal env plain size c ≡ (ok r, c')
      → ((resp_decrypt env r room d).0 ≡ ok plain) × SameSession c' (resp_decrypt env r room d).1
  unfolding encrypt_internal resp_decrypt decrypt_internal
  request_round_trip plain size room c c' d r x range enough sealed =
      let e = (decrypt_record env false r room (swap_data_dir d)).1 in
      let (back, next) =
        record_round_trip env false plain size room c c' (swap_data_dir d) r opens exact range
          (requests-Expects c d x) enough (λ h. absurd (cc)) sealed in
      let sent = subst (Sealed c) sealed (encrypt_record-Sealed env false plain size c) in
      let got =
        subst (λ o. Opened (swap_data_dir d) (o, e)) back
          (decrypt_record-Opened env false r room (swap_data_dir d)) in
      (back, SameSession-request c c' d e x sent got)

  -- An answer that the responder sealed, with a session ID of 32 bits and a sequence number of 64
  -- bits, is what the requester opens, within its buffer, and the two ends agree on the session again
  -- afterwards: under an AEAD that decrypts what it encrypted and an RNG that gives as many bytes as it
  -- is asked for.
  pub response_round_trip :
      (plain : Bytes) (size room : ℕ) (c d d' : Ctx) (r : Bytes)
      → SameSession c d
      → InRange (swap_data_dir d)
      → length plain ≤ room
      → resp_encrypt env plain size d ≡ (ok r, d')
      → ((decrypt_internal env r room c).0 ≡ ok plain)
        × SameSession (decrypt_internal env r room c).1 d'
  unfolding resp_encrypt encrypt_internal decrypt_internal
  response_round_trip plain size room c d d' r x range enough sealed =
      let s' = (encrypt_record env false plain size (swap_data_dir d)).1 in
      let run : encrypt_record env false plain size (swap_data_dir d) ≡ (ok r, s') = ground arith in
      let ended : d' ≡ swap_data_dir s' = ground arith in
      let e = (decrypt_record env false r room c).1 in
      let (back, next) =
        record_round_trip env false plain size room (swap_data_dir d) s' c r opens exact range
          (responses-Expects c d x) enough (λ h. absurd (cc)) run in
      let sent =
        subst (Sealed (swap_data_dir d)) run
          (encrypt_record-Sealed env false plain size (swap_data_dir d)) in
      let got = subst (λ o. Opened c (o, e)) back (decrypt_record-Opened env false r room c) in
      (back, subst (SameSession e) (sym ended) (SameSession-response c e d s' x sent got))
