-- ===== src/Standard/Certificate/Loop.antt =====
-- The loop of wolfSPDM_GetCertificate (src/spdm_standard.c).
use wolf_spdm.Base.{
  ℕ, ◌+◌, ◌-◌, ◌≤◌, ◌<◌, ◌≡◌, sym, ap, ◌∙◌, inl, inr, ◌++◌, arith, length, take, drop, zero, suc,
  ◌⊎◌, true, length-append, length-take, length-drop, subst, ◌&&◌, ltb, ◌==◌,
}
use wolf_spdm.Context.{Ctx, Env, ok, Bytes, Outcome-cases, err, fail_if, pure, ◌>>◌, Result}
use wolf_spdm.Standard.Certificate.{
  parse_certificate, cert_round, cert_request, cert_loop, cert_take,
}
use wolf_spdm.Running.{m1_add, run_add, run_update}
use wolf_spdm.Types.{max_cert_chain, cert_portion_size, Error, cert_fail}
use wolf_spdm.Message.{check_response}
use wolf_spdm.Exchange.{clear_exchange}
use wolf_spdm.Exchange.Frame.{frame}
use wolf_spdm.Exchange.Frame.Exchanges.{frame-clear_exchange}
use wolf_spdm.Secured.{u16}

m1_add-same :
    (env : Env) (req rsp : Bytes) (c c' : Ctx)
    → m1_add env req rsp c ≡ (ok tt, c')
    → (c'.certs ≡ c.certs) × (c'.transcript ≡ c.transcript)
unfolding m1_add run_add run_update
m1_add-same env req rsp c c' e = ground arith

parse_certificate-ok :
    (buf : Bytes) (c c' : Ctx) (portion remainder : ℕ)
    → parse_certificate buf c ≡ (ok (portion, remainder), c')
    → (c'.certs.cert_chain ≡ c.certs.cert_chain ++ take portion (drop 8 buf))
      × (portion ≤ length buf - 8)
      × (portion ≤ max_cert_chain - length c.certs.cert_chain)
      × (c'.transcript ≡ c.transcript)
unfolding parse_certificate check_response
parse_certificate-ok buf c c' portion remainder e =
    (ground arith, ground arith, ground arith, ground arith)

parse_certificate-err :
    (buf : Bytes) (c c' : Ctx) (e : Error)
    → parse_certificate buf c ≡ (err e, c')
    → c'.certs ≡ c.certs
unfolding parse_certificate check_response
parse_certificate-err buf c c' e run = ground arith

portion_length :
    (chain buf : Bytes) (n : ℕ)
    → n ≤ length buf - 8
    → length (chain ++ take n (drop 8 buf)) ≡ length chain + n
portion_length chain buf n h =
    let size = length-append chain (take n (drop 8 buf)) in
    let part = length-take n (drop 8 buf) in let rest = length-drop 8 buf in omega arith

-- One pass of the loop adds its portion to the chain, within the chain's buffer.
record Added (portion remainder : ℕ) (c c' : Ctx) : Type 0 where
  longer : length c'.certs.cert_chain ≡ length c.certs.cert_chain + portion
  within : portion ≤ max_cert_chain - length c.certs.cert_chain
  transcript : c'.transcript ≡ c.transcript
  moves : 0 < remainder → 0 < portion

module _ (env : Env) where
  cert_end :
      (got : ℕ × ℕ) (c c' : Ctx) (portion remainder : ℕ)
      → (fail_if (got.0 == 0 && ltb 0 got.1) cert_fail >> pure got) c
        ≡ (ok (portion, remainder), c')
      → (got.0 ≡ portion) × (got.1 ≡ remainder) × (c ≡ c') × (0 < remainder → 0 < portion)
  cert_end (p, r) c c' portion remainder e =
      (ground arith, ground arith, ground arith, λ more. ground arith)

  same_pair :
      (got : ℕ × ℕ) (portion remainder : ℕ) (c : Ctx)
      → got.0 ≡ portion
      → got.1 ≡ remainder
      → ◌≡◌ {A = Result (ℕ × ℕ) × Ctx} (ok got, c) (ok (portion, remainder), c)
  same_pair (p, r) portion remainder c e f = ground arith

  -- The steps of a pass that succeeds, after the exchange.
  record Taken (tx rx : Bytes) (portion remainder : ℕ) (c c' : Ctx) : Type 0 where
    c1 : Ctx
    parsed : parse_certificate rx c ≡ (ok (portion, remainder), c1)
    m1 : m1_add env tx (take (8 + portion) rx) c1 ≡ (ok tt, c')
    moves : 0 < remainder → 0 < portion

  cert_take-Taken :
      (tx rx : Bytes) (c c' : Ctx) (portion remainder : ℕ)
      → cert_take env tx rx c ≡ (ok (portion, remainder), c')
      → Taken tx rx portion remainder c c'
  unfolding cert_take
  cert_take-Taken tx rx c c' portion remainder e = elim (Outcome-cases (parse_certificate rx c)) [
    | inr (x, c1, r1) ↦ absurd (ground arith)
    | inl (got, c1, r1) ↦ elim (Outcome-cases (m1_add env tx (take (8 + got.0) rx) c1)) [
      | inr (x, c2, r2) ↦ absurd (ground arith)
      | inl (_, c2, r2) ↦
          let (is_portion, is_remainder, last, moves) =
            cert_end got c2 c' portion remainder (ground arith) in
          record {
            c1 = c1;
            parsed = r1 ∙ same_pair got portion remainder c1 is_portion is_remainder;
            m1 = rw (sym is_portion, sym last) r2;
            moves = moves;
          }
    ]
  ]

  cert_round-Taken :
      (slot len off : ℕ) (c c' : Ctx) (portion remainder : ℕ)
      → cert_round env slot len off c ≡ (ok (portion, remainder), c')
      → (rx : Bytes) × (d : Ctx) × (frame d ≡ frame c)
        × Taken (cert_request c.spdm_version slot off len) rx portion remainder d c'
  unfolding cert_round
  cert_round-Taken slot len off c c' portion remainder e =
      let tx = cert_request c.spdm_version slot off len in
      elim (Outcome-cases (clear_exchange env tx (8 + cert_portion_size) c)) [
        | inr (x, d, run) ↦ absurd (ground arith)
        | inl (rx, d, run) ↦ (
          rx,
          d,
          ap (λ o. frame o.1) (sym run) ∙ frame-clear_exchange env tx (8 + cert_portion_size) c,
          cert_take-Taken tx rx d c' portion remainder (ground arith),
        )
      ]

  cert_round-Added :
      (slot len off : ℕ) (c c' : Ctx) (portion remainder : ℕ)
      → cert_round env slot len off c ≡ (ok (portion, remainder), c')
      → Added portion remainder c c'
  cert_round-Added slot len off c c' portion remainder e =
      let (rx, d, kept, s) = cert_round-Taken slot len off c c' portion remainder e in
      let tx = cert_request c.spdm_version slot off len in
      let (chain, short, fits, same) = parse_certificate-ok rx d s.c1 portion remainder s.parsed in
      let (certs, same3) = m1_add-same env tx _ s.c1 c' s.m1 in
      let before = ap (λ f. f.certs) kept in
      record {
        longer =
            ap (λ k. length k.cert_chain) certs
            ∙ ap length chain
            ∙ portion_length d.certs.cert_chain rx portion short
            ∙ ap (λ k. length k.cert_chain + portion) before;
        within = subst (λ k. portion ≤ max_cert_chain - length k.cert_chain) before fits;
        transcript = same3 ∙ same ∙ ap (λ f. f.transcript) kept;
        moves = s.moves;
      }

  parse_certificate-fits :
      (buf : Bytes) (c : Ctx)
      → length c.certs.cert_chain ≤ max_cert_chain
      → length (parse_certificate buf c).1.certs.cert_chain ≤ max_cert_chain
  parse_certificate-fits buf c h = elim (Outcome-cases (parse_certificate buf c)) [
    | inr (e, d, run) ↦ let same = parse_certificate-err buf c d e run in rw (run, same) h
    | inl ((portion, remainder), d, run) ↦
        let (chain, short, fits, same) = parse_certificate-ok buf c d portion remainder run in
        let size = portion_length c.certs.cert_chain buf portion short in
        rw (run, chain, size) (omega arith)
  ]

  m1_add-certs : (req rsp : Bytes) (c : Ctx) → (m1_add env req rsp c).1.certs ≡ c.certs
  unfolding m1_add run_add run_update
  m1_add-certs req rsp c = ground arith

  -- The chain of a context is within its buffer.
  abbrev Fits : Ctx → Type 0
  Fits c = length c.certs.cert_chain ≤ max_cert_chain

  Fits-same : (c d : Ctx) → d.certs ≡ c.certs → Fits c → Fits d
  Fits-same c d same h = subst (λ k. length k.cert_chain ≤ max_cert_chain) (sym same) h

  cert_take-err :
      (tx rx : Bytes) (c d : Ctx) (e : Error)
      → parse_certificate rx c ≡ (err e, d)
      → (cert_take env tx rx c).1 ≡ d
  unfolding cert_take
  cert_take-err tx rx c d e run = ground arith

  cert_take-ok :
      (tx rx : Bytes) (c d : Ctx) (got : ℕ × ℕ)
      → parse_certificate rx c ≡ (ok got, d)
      → (cert_take env tx rx c).1.certs ≡ (m1_add env tx (take (8 + got.0) rx) d).1.certs
  unfolding cert_take
  cert_take-ok tx rx c d got run = elim (Outcome-cases (m1_add env tx (take (8 + got.0) rx) d)) [
    | inr (x, c2, r2) ↦ ground arith
    | inl (_, c2, r2) ↦ ground arith
  ]

  cert_take-Fits : (tx rx : Bytes) (c : Ctx) → Fits c → Fits (cert_take env tx rx c).1
  cert_take-Fits tx rx c h =
      let stored = parse_certificate-fits rx c h in
      elim (Outcome-cases (parse_certificate rx c)) [
        | inr (x, c1, r1) ↦
            Fits-same c1 (cert_take env tx rx c).1
              (ap (λ d. d.certs) (cert_take-err tx rx c c1 x r1)) (subst (λ p. Fits p.1) r1 stored)
        | inl (got, c1, r1) ↦
            Fits-same c1 (cert_take env tx rx c).1
              (cert_take-ok tx rx c c1 got r1 ∙ m1_add-certs tx (take (8 + got.0) rx) c1)
              (subst (λ p. Fits p.1) r1 stored)
      ]

  cert_round-Fits : (slot len off : ℕ) (c : Ctx) → Fits c → Fits (cert_round env slot len off c).1
  unfolding cert_round
  cert_round-Fits slot len off c h =
      let tx = cert_request c.spdm_version slot off len in
      let asked = clear_exchange env tx (8 + cert_portion_size) c in
      let kept = ap (λ f. f.certs) (frame-clear_exchange env tx (8 + cert_portion_size) c) in
      let p = cert_round env slot len off c in
      elim (Outcome-cases asked) [
        | inr (x, d, run) ↦
            let same : p ≡ (err x, d) = ground arith in
            Fits-same c p.1 (ap (λ o. o.1.certs) (same ∙ ap (λ y. (err x, y.1)) (sym run)) ∙ kept) h
        | inl (rx, d, run) ↦
            let same : p ≡ cert_take env tx rx d = ground arith in
            Fits-same (cert_take env tx rx d).1 p.1 (ap (λ o. o.1.certs) same)
              (cert_take-Fits tx rx d (Fits-same c d (ap (λ o. o.1.certs) (sym run) ∙ kept) h))
      ]

  -- The loop of get_certificate, on a chain within its buffer and with more fuel than there is room
  -- in it, never runs out of fuel: every pass but the last adds to the chain. However it ends, the
  -- chain is still within its buffer.
  pub cert_loop_ends :
      (f slot len off : ℕ) (c : Ctx)
      → length c.certs.cert_chain ≤ max_cert_chain
      → max_cert_chain < f + length c.certs.cert_chain
      → ((c' : Ctx) × (cert_loop env f slot len off c ≡ (ok true, c'))
          × (length c'.certs.cert_chain ≤ max_cert_chain)
          × (c'.transcript ≡ c.transcript))
        ⊎ ((e : Error) × (c' : Ctx) × (cert_loop env f slot len off c ≡ (err e, c'))
            × (length c'.certs.cert_chain ≤ max_cert_chain))
  unfolding cert_loop
  cert_loop_ends zero slot len off c h room = absurd (omega arith)
  cert_loop_ends (suc f) slot len off c h room =
      let small = cert_round-Fits slot len off c h in
      elim (Outcome-cases (cert_round env slot len off c)) [
        | inr (x, c1, run) ↦ inr (x, c1, ground arith, subst (λ p. Fits p.1) run small)
        | inl ((p, zero), c1, run) ↦
            let added = cert_round-Added slot len off c c1 p 0 run in
            let longer = added.longer in
            let within = added.within in inl (c1, ground arith, omega arith, added.transcript)
        | inl ((p, suc r), c1, run) ↦
            let added = cert_round-Added slot len off c c1 p (suc r) run in
            let longer = added.longer in
            let within = added.within in
            let moves = added.moves (omega arith) in
            elim (cert_loop_ends f slot len (u16 (off + p)) c1 (omega arith) (omega arith)) [
              | inl (c2, rest, fits, same) ↦ inl (c2, ground arith, fits, same ∙ added.transcript)
              | inr (x, c2, rest, fits) ↦ inr (x, c2, ground arith, fits)
            ]
      ]
