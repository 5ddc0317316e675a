-- ===== src/Responder/Follows.antt =====
-- How the functions of src/spdm_responder.c change the responder: relations between the states
-- before and after, and their rules over the monads.
pub mod Absorbs
pub mod Clear
pub mod Message
pub mod Vendor
pub mod Secured
use wolf_spdm.Context
use wolf_spdm.Responder
use wolf_spdm.Base.{
  ◌≡◌, refl, sym, ◌∙◌, subst, Bool, true, false, List, if◌then◌else◌, Option, none, some, ◌⊎◌, inl,
  inr,
}
use wolf_spdm.Context.{Ctx, M, Bytes, Result, ok, err}
use wolf_spdm.Responder.{Resp, R, on_ctx, modify_resp, gets_resp}
use wolf_spdm.Types.{state_connected, Error}

-- Whatever `m` returns, the state after it is related to the state before.
pub record Follows {S A : Type 0} (Q : S → S → Type 0) (m : S → Result A × S) : Type 0 where
  pub follows : (s : S) → Q s (m s).1

-- A relation that composes.
pub record IsPreorder {S : Type 0} (Q : S → S → Type 0) : Type 0 where
  pub reflexive : (s : S) → Q s s
  pub transitive : (s t u : S) → Q s t → Q t u → Q s u

-- The bind of both monads.
abbrev pub bind : {S A B : Type 0} → (S → Result A × S) → (A → S → Result B × S) → S → Result B × S
bind m f s = let (x, s') = m s in elim x [ ok a ↦ f a s' | err e ↦ (err e, s') ]

module _ {S : Type 0} (Q : S → S → Type 0) (order : IsPreorder Q) where
  Follows-outcome :
      {A B : Type 0} (s : S) (p : Result A × S) (f : A → S → Result B × S)
      → Q s p.1
      → ((a : A) → Follows Q (f a))
      → Q s (bind (λ t. p) f s).1
  Follows-outcome s (ok a, t) f first then_ =
      order.transitive s t (f a t).1 first ((then_ a).follows t)
  Follows-outcome s (err e, t) f first then_ = first

  pub Follows-bind :
      {A B : Type 0} {m : S → Result A × S} {f : A → S → Result B × S}
      → Follows Q m
      → ((a : A) → Follows Q (f a))
      → Follows Q (bind m f)
  Follows-bind {m = m} {f = f} first then_ = record {
    follows = λ s. Follows-outcome s (m s) f (first.follows s) then_;
  }

  -- What writes nothing.
  pub Follows-still : {A : Type 0} {m : S → Result A × S} → ((s : S) → (m s).1 ≡ s) → Follows Q m
  Follows-still {m = m} still = record {
    follows = λ s. subst (Q s) (sym (still s)) (order.reflexive s);
  }

pub Follows-if :
    {S A : Type 0} {Q : S → S → Type 0} (b : Bool) {m n : S → Result A × S}
    → Follows Q m
    → Follows Q n
    → Follows Q (if b then m else n)
Follows-if true km kn = km
Follows-if false km kn = kn

pub Follows-if-true :
    {S A : Type 0} {Q : S → S → Type 0} (b : Bool) {m : S → Result A × S} (n : S → Result A × S)
    → b ≡ true
    → Follows Q m
    → Follows Q (if b then m else n)
Follows-if-true true n h km = km
Follows-if-true false n h km = absurd (cc)

-- A run succeeds or fails.
pub run_cases :
    {S A : Type 0} (p : Result A × S)
    → ((a : A) × (p ≡ (ok a, p.1))) ⊎ ((e : Error) × (p ≡ (err e, p.1)))
run_cases (ok a, s) = inl (a, refl)
run_cases (err e, s) = inr (e, refl)

-- The inner context keeps its identities, and a session does not begin.
pub record Calm (c d : Ctx) : Type 0 where
  pub identity : d.identity ≡ c.identity
  pub calm : d.state ≡ state_connected → c.state ≡ state_connected

pub Calm-IsPreorder : IsPreorder Calm
Calm-IsPreorder = record {
  reflexive = λ c. record { identity = refl; calm = λ h. h };
  transitive =
      λ c d e p q. record { identity = q.identity ∙ p.identity; calm = λ h. p.calm (q.calm h) };
}

-- What a responder keeps but for its vendor commands.
pub record Held : Type 0 where
  pub tpm_log : List Bytes
  pub spdm_only_lock : Bool
  pub id_priv_key : Bytes
  pub id_pub_key : Bytes
  pub has_id_key : Bool
  pub psk_store : Bytes
  pub clear_auth_digest : Bytes
  pub clear_auth_set : Bool
  pub psk_provisioned : Bool
  pub initialized : Bool

abbrev pub held : Resp → Held
held r = record {
  tpm_log = r.tpm_log;
  spdm_only_lock = r.spdm_only_lock;
  id_priv_key = r.id_priv_key;
  id_pub_key = r.id_pub_key;
  has_id_key = r.has_id_key;
  psk_store = r.psk_store;
  clear_auth_digest = r.clear_auth_digest;
  clear_auth_set = r.clear_auth_set;
  psk_provisioned = r.psk_provisioned;
  initialized = r.initialized;
}

pub record Steady (r s : Resp) : Type 0 where
  pub held : held s ≡ held r
  pub ctx : Calm r.ctx s.ctx

pub Steady-IsPreorder : IsPreorder Steady
Steady-IsPreorder = record {
  reflexive = λ r. record { held = refl; ctx = Calm-IsPreorder.reflexive r.ctx };
  transitive = λ r s t p q. record {
    held = q.held ∙ p.held;
    ctx = Calm-IsPreorder.transitive r.ctx s.ctx t.ctx p.ctx q.ctx;
  };
}

-- A calm function of the inner context is a steady one of the responder.
pub Steady-on_ctx : {A : Type 0} {m : M A} → Follows Calm m → Follows Steady (on_ctx m)
Steady-on_ctx {m = m} calm = record {
  follows = λ r. record { held = refl; ctx = calm.follows r.ctx };
}

-- The rules at these relations.
pub Calm->>= :
    {A B : Type 0} {m : M A} {f : A → M B}
    → Follows Calm m
    → ((a : A) → Follows Calm (f a))
    → Follows Calm (Context.◌>>=◌ m f)
Calm->>= first then_ = Follows-bind Calm Calm-IsPreorder first then_

pub Steady->>= :
    {A B : Type 0} {m : R A} {f : A → R B}
    → Follows Steady m
    → ((a : A) → Follows Steady (f a))
    → Follows Steady (Responder.◌>>=◌ m f)
Steady->>= first then_ = Follows-bind Steady Steady-IsPreorder first then_

pub Calm-still : {A : Type 0} {m : M A} → ((c : Ctx) → (m c).1 ≡ c) → Follows Calm m
Calm-still still = Follows-still Calm Calm-IsPreorder still

pub Steady-still : {A : Type 0} {m : R A} → ((r : Resp) → (m r).1 ≡ r) → Follows Steady m
Steady-still still = Follows-still Steady Steady-IsPreorder still

pub Calm-gets : {A : Type 0} {f : Ctx → A} → Follows Calm (Context.gets f)
Calm-gets = record { follows = Calm-IsPreorder.reflexive }

pub Calm-pure : {A : Type 0} {a : A} → Follows Calm (Context.pure a)
Calm-pure = record { follows = Calm-IsPreorder.reflexive }

pub Calm-lift : {A : Type 0} {r : Result A} → Follows Calm (Context.lift r)
Calm-lift = record { follows = Calm-IsPreorder.reflexive }

pub Calm-fail_if : (test : Bool) (e : Error) → Follows Calm (Context.fail_if test e)
Calm-fail_if test e = record { follows = Calm-IsPreorder.reflexive }

pub Calm-or_fail : {A : Type 0} (o : Option A) (e : Error) → Follows Calm (Context.or_fail o e)
Calm-or_fail none e = record { follows = Calm-IsPreorder.reflexive }
Calm-or_fail (some a) e = record { follows = Calm-IsPreorder.reflexive }

pub Calm-modify : {f : Ctx → Ctx} → ((c : Ctx) → Calm c (f c)) → Follows Calm (Context.modify f)
Calm-modify calm = record { follows = calm }

pub Steady-gets : {A : Type 0} {f : Resp → A} → Follows Steady (gets_resp f)
Steady-gets = record { follows = Steady-IsPreorder.reflexive }

pub Steady-modify :
    {f : Resp → Resp} → ((r : Resp) → Steady r (f r)) → Follows Steady (modify_resp f)
Steady-modify steady = record { follows = steady }
