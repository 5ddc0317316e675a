-- ===== src/Responder/Follows/Absorbs.antt =====
-- Relations that one command of a message decides: what comes before and after it is absorbed
-- (src/spdm_responder.c).
use wolf_spdm.Context.{Result, ok, err}
use wolf_spdm.Responder.Follows.{Follows, bind}
use wolf_spdm.Base.{◌≡◌, refl}

-- `Q` takes in steps of `B` on both sides.
pub record Absorbs {S : Type 0} (B Q : S → S → Type 0) : Type 0 where
  pub embed : (s t : S) → B s t → Q s t
  pub left : (s t u : S) → B s t → Q t u → Q s u
  pub right : (s t u : S) → Q s t → B t u → Q s u

module _ {S : Type 0} (B Q : S → S → Type 0) (absorbs : Absorbs B Q) where
  pub Follows-embed : {A : Type 0} {m : S → Result A × S} → Follows B m → Follows Q m
  Follows-embed {m = m} base = record { follows = λ s. absorbs.embed s (m s).1 (base.follows s) }

  after_outcome :
      {A D : Type 0} (s : S) (p : Result A × S) (f : A → S → Result D × S)
      → B s p.1
      → ((a : A) → Follows Q (f a))
      → Q s (bind (λ t. p) f s).1
  after_outcome s (ok a, t) f first then_ = absorbs.left s t (f a t).1 first ((then_ a).follows t)
  after_outcome s (err e, t) f first then_ = absorbs.embed s t first

  -- What comes first is a step of `B`.
  pub Follows-after :
      {A D : Type 0} {m : S → Result A × S} {f : A → S → Result D × S}
      → Follows B m
      → ((a : A) → Follows Q (f a))
      → Follows Q (bind m f)
  Follows-after {m = m} {f = f} first then_ = record {
    follows = λ s. after_outcome s (m s) f (first.follows s) then_;
  }

  run_outcome :
      {A D : Type 0} (s : S) (p : Result A × S) (f : A → S → Result D × S)
      → B s p.1
      → ((a : A) → p.0 ≡ ok a → Follows Q (f a))
      → Q s (bind (λ t. p) f s).1
  run_outcome s (ok a, t) f first then_ =
      absorbs.left s t (f a t).1 first ((then_ a refl).follows t)
  run_outcome s (err e, t) f first then_ = absorbs.embed s t first

  -- What comes first is a step of `B` from `s`, and the rest may use what it returned.
  pub after_run :
      {A D : Type 0} (s : S) (m : S → Result A × S) (f : A → S → Result D × S)
      → B s (m s).1
      → ((a : A) → (m s).0 ≡ ok a → Follows Q (f a))
      → Q s (bind m f s).1
  after_run s m f first then_ = run_outcome s (m s) f first then_

  before_outcome :
      {A D : Type 0} (s : S) (p : Result A × S) (f : A → S → Result D × S)
      → Q s p.1
      → ((a : A) → Follows B (f a))
      → Q s (bind (λ t. p) f s).1
  before_outcome s (ok a, t) f first then_ = absorbs.right s t (f a t).1 first ((then_ a).follows t)
  before_outcome s (err e, t) f first then_ = first

  pub before_at :
      {A D : Type 0} (s : S) (m : S → Result A × S) (f : A → S → Result D × S)
      → Q s (m s).1
      → ((a : A) → Follows B (f a))
      → Q s (bind m f s).1
  before_at s m f first then_ = before_outcome s (m s) f first then_

  -- What comes last is a step of `B`.
  pub Follows-before :
      {A D : Type 0} {m : S → Result A × S} {f : A → S → Result D × S}
      → Follows Q m
      → ((a : A) → Follows B (f a))
      → Follows Q (bind m f)
  Follows-before {m = m} {f = f} first then_ = record {
    follows = λ s. before_outcome s (m s) f (first.follows s) then_;
  }
