-- ===== src/Responder/Agree/PskExchange.antt =====
-- The responder's PSK_EXCHANGE_RSP and the requester that parses it (src/spdm_responder.c,
-- src/spdm_psk.c).
use wolf_spdm.Types.Code
use wolf_spdm.Base.{
  ℕ, ◌≡◌, sym, ap, ◌∙◌, false, some, [], ◌++◌, arith, length, take, drop, take_all, take-append,
  drop-append, refl, ◌+◌, ◌*◌, ◌^◌, subst, inl, inr, ◌∷◌, Option-cases, length-append,
}
use wolf_spdm.Context.{Env, Bytes, Ctx, ok, Outcome-cases}
use wolf_spdm.Psk.{check_psk_responder, wipe_psk, parse_psk_exchange_rsp, verify_offset}
use wolf_spdm.Transcript.{transcript_add, transcript_hash, sha384_hash, overflows}
use wolf_spdm.Kdf.Schedule.{Schedule}
use wolf_spdm.Kdf.{compute_verify_data}
use wolf_spdm.Responder.Agree.PskKeys.{with_psk_keys, KeysMade, derive_handshake_keys_psk-scheduled}
use wolf_spdm.Types.{hash_size, state_key_ex}
use wolf_spdm.Responder.Agree.PskFinish.{same_bytes_refl}
use wolf_spdm.Responder.{Resp}
use wolf_spdm.Responder.Handshake.{build_psk_exchange_rsp}
use wolf_spdm.Responder.Exchange.{
  psk_exchange_rsp_head, psk_exchange_keys, psk_exchange_proof, take_session_id,
  psk_exchange_verify, reload_psk, resp_session_id,
}
use wolf_spdm.Crypto.{get_random}
use wolf_spdm.Message.{check_parse_or_error_args, check_response}
use wolf_spdm.Bytes.{set16le, get16le}

-- The requester's context after it took the proof.
abbrev pub accepted :
    {env : Env} {v : ℕ} {hs th1 : Bytes} → Schedule env v hs th1 → Bytes → Bytes → Ctx → Ctx
accepted {th1 = th1} s head verify_data c =
    record (with_psk_keys s (record c { transcript = c.transcript ++ head; th1 = th1 })) {
      transcript = (c.transcript ++ head) ++ verify_data;
    }

transcript_add-fits :
    (message : Bytes) (c : Ctx)
    → overflows c.transcript message ≡ false
    → transcript_add message c ≡ (ok tt, record c { transcript = c.transcript ++ message })
unfolding transcript_add
transcript_add-fits message c fits = rw fits refl

transcript_hash-some :
    (env : Env) (c : Ctx) (th1 : Bytes)
    → env.sha384 (c.transcript ++ []) ≡ some th1
    → transcript_hash env c ≡ (ok th1, c)
unfolding transcript_hash sha384_hash
transcript_hash-some env c th1 hashed = rw hashed refl

compute_verify_data-some :
    (env : Env) (key th1 verify_data : Bytes) (c : Ctx)
    → env.hmac key th1 ≡ some verify_data
    → compute_verify_data env key th1 c ≡ (ok verify_data, c)
unfolding compute_verify_data
compute_verify_data-some env key th1 verify_data c proved = rw proved refl

-- The requester's check of a proof that the responder made with the same PSK, version and transcript.
pub proof_accepted :
    (env : Env) (head th1 verify_data : Bytes) (c d d1 d2 : Ctx)
    → (k : KeysMade env head d d1 th1) → env.hmac d1.keys.rsp_finished_key th1 ≡ some verify_data
    → overflows d1.transcript verify_data ≡ false
    → length verify_data ≡ hash_size
    → c.transcript ≡ d.transcript
    → c.spdm_version ≡ d.spdm_version
    → c.psk.psk ≡ d.psk.psk
    → check_psk_responder env (head ++ verify_data) (length head) c
      ≡ (ok tt, accepted k.schedule head verify_data c)
unfolding check_psk_responder wipe_psk
proof_accepted env head th1 verify_data c d d1 d2 k proved fits full transcript version psk =
    let s = k.schedule in
    let c1 : Ctx = record c { transcript = c.transcript ++ head; th1 = th1 } in
    let front = take-append head verify_data in
    let back : take hash_size (drop (length head) (head ++ verify_data)) ≡ verify_data =
      ap (take hash_size) (drop-append head verify_data)
      ∙ take_all hash_size verify_data (omega (arith, full)) in
    let hashed : env.sha384 ((c.transcript ++ head) ++ []) ≡ some th1 = rw transcript k.hashed in
    let fits1 : overflows c.transcript head ≡ false = rw transcript k.fits in
    let derived =
      derive_handshake_keys_psk-scheduled env th1 c1 d.spdm_version k.hs d.psk.psk s version psk
        k.held k.extracted in
    let left_ = k.left_ in
    let key : d1.keys.rsp_finished_key ≡ s.pf = ap (λ t. t.keys.rsp_finished_key) left_ in
    let proved' : env.hmac s.pf th1 ≡ some verify_data = rw key at proved in
    let grown : d1.transcript ≡ c.transcript ++ head =
      ap (λ t. t.transcript) left_ ∙ ap (λ t. t ++ head) (sym transcript) in
    let fits2 : overflows (c.transcript ++ head) verify_data ≡ false = rw grown at fits in
    let eq = same_bytes_refl verify_data in
    let c0 : Ctx = record c { transcript = c.transcript ++ head } in
    let c2 : Ctx = with_psk_keys s c1 in
    let t1 = transcript_add-fits head c fits1 in
    let t2 = transcript_hash-some env c0 th1 hashed in
    let t4 = compute_verify_data-some env s.pf th1 verify_data c2 proved' in
    let t5 = transcript_add-fits verify_data c2 fits2 in rw (front, back) (ground arith)

-- The context that the answer to `buf` is made on.
abbrev pub begun : Bytes → Resp → Ctx
begun buf r = take_session_id buf (reload_psk r).ctx

-- The parts of an answer to PSK_EXCHANGE.
pub record Parts (env : Env) (buf : Bytes) (r r' : Resp) (answer : Bytes) : Type 0 where
  pub head : Bytes
  pub th1 : Bytes
  pub verify_data : Bytes
  pub e1 : Ctx
  pub e2 : Ctx
  pub headed : psk_exchange_rsp_head env (begun buf r) ≡ (ok head, e1)
  pub keyed : psk_exchange_keys env head e1 ≡ (ok th1, e2)
  pub verified : psk_exchange_verify env th1 e2 ≡ (ok verify_data, r'.ctx)
  pub sent : answer ≡ head ++ verify_data

pub build_psk_exchange_rsp-Parts :
    (env : Env) (buf : Bytes) (room : ℕ) (r r' : Resp) (answer : Bytes)
    → build_psk_exchange_rsp env buf room r ≡ (ok answer, r')
    → Parts env buf r r' answer
unfolding build_psk_exchange_rsp psk_exchange_proof
build_psk_exchange_rsp-Parts env buf room r r' answer e =
    elim (Outcome-cases (psk_exchange_rsp_head env (begun buf r))) [
      | inr (x, e1, run) ↦ absurd (ground arith)
      | inl (head, e1, run) ↦ elim (Outcome-cases (psk_exchange_keys env head e1)) [
        | inr (x, e2, run2) ↦ absurd (ground arith)
        | inl (th1, e2, run2) ↦ elim (Outcome-cases (psk_exchange_verify env th1 e2)) [
          | inr (x, e3, run3) ↦ absurd (ground arith)
          | inl (verify_data, e3, run3) ↦
              let same : r'.ctx ≡ e3 = ground arith in
              record {
                head = head;
                th1 = th1;
                verify_data = verify_data;
                e1 = e1;
                e2 = e2;
                headed = run;
                keyed = run2;
                verified =
                    subst (λ t. psk_exchange_verify env th1 e2 ≡ (ok verify_data, t)) (sym same)
                      run3;
                sent = ground arith;
              }
        ]
      ]
    ]

-- The fixed part of the answer.
abbrev pub rsp_head : ℕ → Bytes → Bytes
rsp_head v random =
    v ∷ Code.psk_exchange_rsp ∷ 0 ∷ 0 ∷ 0xFE ∷ 0xFF ∷ 0 ∷ 0 ∷ 32 ∷ 0 ∷ 0 ∷ 0 ∷ random

pub psk_exchange_rsp_head-ok :
    (env : Env) (d e : Ctx) (head : Bytes)
    → psk_exchange_rsp_head env d ≡ (ok head, e)
    → (random : Bytes) × (env.random d.draws 32 ≡ some random)
      × (head ≡ rsp_head d.spdm_version random)
      × (e ≡ record d { draws = d.draws + 1 })
unfolding psk_exchange_rsp_head get_random set16le
psk_exchange_rsp_head-ok env d e head run = elim (Option-cases (env.random d.draws 32)) [
  | inl q ↦ absurd (ground arith)
  | inr (random, q) ↦ (random, q, ground arith, ground arith)
]

-- A response of that form is parsed by its proof.
pub parse_with_proof :
    (env : Env) (v : ℕ) (random verify_data : Bytes) (c c1 : Ctx)
    → length random ≡ 32
    → length verify_data ≡ hash_size
    → check_psk_responder env (rsp_head v random ++ verify_data) (length (rsp_head v random)) c
      ≡ (ok tt, c1)
    → parse_psk_exchange_rsp env (rsp_head v random ++ verify_data) c ≡ (
      ok tt,
      record c1 {
        rsp_session_id = resp_session_id;
        session_id = c1.req_session_id + resp_session_id * 2 ^ 16;
        state = state_key_ex;
      },
    )
unfolding parse_psk_exchange_rsp check_parse_or_error_args check_response verify_offset get16le
parse_with_proof env v random verify_data c c1 short full checked =
    let l = length-append random verify_data in
    let at : length (rsp_head v random) ≡ 44 = omega (arith, short) in
    let checked' = rw at at checked in ground arith
