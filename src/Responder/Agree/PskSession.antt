-- ===== src/Responder/Agree/PskSession.antt =====
-- What the requester and the responder share after a PSK exchange (src/spdm_psk.c,
-- src/spdm_responder.c).
use wolf_spdm.Base.{ℕ, ◌+◌, ◌*◌, ◌^◌, ◌≡◌, sym, ap, ◌∙◌, subst, some, ◌++◌, arith, length, drop}
use wolf_spdm.Context.{Ctx, Env, Bytes, ok}
use wolf_spdm.Psk.{wipe_psk, parse_psk_exchange_rsp, check_psk_responder}
use wolf_spdm.Responder.{Resp}
use wolf_spdm.Responder.Records.{SameSession}
use wolf_spdm.Responder.Exchange.{reload_psk, take_session_id, resp_session_id}
use wolf_spdm.Bytes.{get16le}
use wolf_spdm.Types.{hash_size, state_key_ex}
use wolf_spdm.Responder.Handshake.{build_psk_exchange_rsp}
use wolf_spdm.Responder.Agree.PskKeys.{KeysMade, psk_exchange_keys-Made, psk_exchange_verify-ok}
use wolf_spdm.Responder.Agree.PskExchange.{
  begun, accepted, build_psk_exchange_rsp-Parts, psk_exchange_rsp_head-ok, proof_accepted,
  parse_with_proof,
}

-- A requester and a responder that have run GET_VERSION to NEGOTIATE_ALGORITHMS with one another, hold
-- the same PSK, and are at the same point of the transcript.
pub record Together (c : Ctx) (r : Resp) : Type 0 where
  pub transcript : c.transcript ≡ r.ctx.transcript
  pub version : c.spdm_version ≡ r.ctx.spdm_version
  pub psk : c.psk.psk ≡ r.psk_store
  pub mode : r.ctx.mode ≡ c.mode
  pub req_seq : r.ctx.req_seq_num ≡ c.req_seq_num
  pub rsp_seq : r.ctx.rsp_seq_num ≡ c.rsp_seq_num

-- What the two ends share after the exchange.
pub record Agreed (c d : Ctx) : Type 0 where
  pub transcript : d.transcript ≡ c.transcript
  pub version : d.spdm_version ≡ c.spdm_version
  pub handshake_secret : d.keys.handshake_secret ≡ c.keys.handshake_secret
  pub req_finished_key : d.keys.req_finished_key ≡ c.keys.req_finished_key
  pub rsp_finished_key : d.keys.rsp_finished_key ≡ c.keys.rsp_finished_key
  pub session : SameSession c d

-- The two ends after the exchange, from the same schedule.
ends_agree :
    (env : Env) (buf head th1 verify_data : Bytes) (c : Ctx) (r : Resp) (e1 e2 e3 : Ctx)
    → Together c r
    → get16le (drop 4 buf) ≡ c.req_session_id
    → (k : KeysMade env head e1 e2 th1) → e1 ≡ record (begun buf r) { draws = e1.draws }
    → e3 ≡ record e2 { transcript = e2.transcript ++ verify_data; state = state_key_ex }
    → Agreed
        (record (accepted k.schedule head verify_data c) {
          rsp_session_id = resp_session_id;
          session_id = c.req_session_id + resp_session_id * 2 ^ 16;
          state = state_key_ex;
        })
        e3
unfolding wipe_psk reload_psk take_session_id
ends_agree env buf head th1 verify_data c r e1 e2 e3 x id k w1 w3 =
    let w2 = k.left_ in
    record {
      transcript = ground arith;
      version = ground arith;
      handshake_secret = ground arith;
      req_finished_key = ground arith;
      rsp_finished_key = ground arith;
      session = record {
        mode = ground arith;
        session = ground arith;
        req_seq = ground arith;
        rsp_seq = ground arith;
        req_key = ground arith;
        rsp_key = ground arith;
        req_iv = ground arith;
        rsp_iv = ground arith;
      };
    }

-- A requester and a responder with the same PSK, negotiated version, transcript, mode and sequence
-- numbers, and a request with the requester's session ID: if the responder answers the PSK_EXCHANGE,
-- then the requester takes the answer, and the two have the same transcript, handshake secret,
-- finished keys and session, with its ID, keys, IVs and sequence numbers; under an RNG that gives as
-- many bytes as it is asked for and HMACs of 48 bytes.
pub psk_exchange_agreement :
    (env : Env) (buf : Bytes) (room : ℕ) (c : Ctx) (r r' : Resp) (answer : Bytes)
    → ((k n : ℕ) (out : Bytes) → env.random k n ≡ some out → length out ≡ n)
    → ((k m out : Bytes) → env.hmac k m ≡ some out → length out ≡ hash_size)
    → Together c r
    → get16le (drop 4 buf) ≡ c.req_session_id
    → build_psk_exchange_rsp env buf room r ≡ (ok answer, r')
    → (c' : Ctx) × (parse_psk_exchange_rsp env answer c ≡ (ok tt, c')) × Agreed c' r'.ctx
unfolding wipe_psk reload_psk take_session_id
psk_exchange_agreement env buf room c r r' answer exact hmac48 x id e =
    let parts = build_psk_exchange_rsp-Parts env buf room r r' answer e in
    let (random, drawn, shape, w1) =
      psk_exchange_rsp_head-ok env (begun buf r) parts.e1 parts.head parts.headed in
    let k = psk_exchange_keys-Made env parts.head parts.e1 parts.e2 parts.th1 parts.keyed in
    let (proved, fits, w3) =
      psk_exchange_verify-ok env parts.th1 parts.e2 r'.ctx parts.verify_data parts.verified in
    let full = hmac48 parts.e2.keys.rsp_finished_key parts.th1 parts.verify_data proved in
    let t1 : c.transcript ≡ parts.e1.transcript = x.transcript ∙ ap (λ t. t.transcript) (sym w1) in
    let v1 : c.spdm_version ≡ parts.e1.spdm_version =
      x.version ∙ ap (λ t. t.spdm_version) (sym w1) in
    let p1 : c.psk.psk ≡ parts.e1.psk.psk = x.psk ∙ ap (λ t. t.psk.psk) (sym w1) in
    let checked =
      proof_accepted env parts.head parts.th1 parts.verify_data c parts.e1 parts.e2 r'.ctx k proved
        fits full t1 v1 p1 in
    let d0 : Ctx = begun buf r in
    let v = d0.spdm_version in
    let parsed =
      parse_with_proof env v random parts.verify_data c
        (accepted k.schedule parts.head parts.verify_data c) (exact d0.draws 32 random drawn) full
        (subst
          (λ (h : Bytes).
            check_psk_responder env (h ++ parts.verify_data) (length h) c
            ≡ (ok tt, accepted k.schedule parts.head parts.verify_data c))
          shape checked) in
    let agreed =
      ends_agree env buf parts.head parts.th1 parts.verify_data c r parts.e1 parts.e2 r'.ctx x id k
        (w1 ∙ ap (λ (n : ℕ). record (begun buf r) { draws = n }) (sym (ap (λ t. t.draws) w1))) w3 in
    let c' : Ctx = record (accepted k.schedule parts.head parts.verify_data c) {
      rsp_session_id = resp_session_id;
      session_id = c.req_session_id + resp_session_id * 2 ^ 16;
      state = state_key_ex;
    } in
    let sent = parts.sent ∙ ap (λ h. h ++ parts.verify_data) shape in
    (c', subst (λ m. parse_psk_exchange_rsp env m c ≡ (ok tt, c')) (sym sent) parsed, agreed)
