-- ===== src/Exchange/RollBack.antt =====
-- The roll-back of wolfSPDM_ExchangeMsg (src/spdm_session.c).
use wolf_spdm.Context.{Bytes, Ctx}
use wolf_spdm.Base.{
  ◌≡◌, refl, true, false, [], ◌∷◌, ◌++◌, append-nil, arith, ltb, length, length-append, take-append,
}
use wolf_spdm.Exchange.{roll_back}

-- roll_back cuts a transcript that only grew from a mark back to what it was at the mark.
pub roll_back-transcript :
    (c : Ctx) (before added : Bytes)
    → c.transcript ≡ before ++ added
    → (roll_back (length before) c).transcript ≡ before
unfolding roll_back
roll_back-transcript c before [] e =
    let shut : ltb (length before) (length c.transcript) ≡ false =
      rw (e, append-nil) (ground arith) in
    rw (shut, e, append-nil) refl
roll_back-transcript c before (x ∷ added) e =
    let open_ : ltb (length before) (length c.transcript) ≡ true =
      rw (e, length-append) (ground arith) in
    rw (open_, e, take-append) refl
