-- ===== src/Exchange/Frame.antt =====
-- The part of a context that exchanges do not write (src/spdm_chunk.c, src/spdm_secured.c), and how
-- to follow it through the monad.
pub mod Exchanges
use wolf_spdm.Context.{
  Bytes, Ctx, ok, err, M, Keys, ◌>>=◌, Result, Identity, Limits, pure, or_fail, gets, lift, modify,
  fail_if, Psk, Certs,
}
use wolf_spdm.Base.{ℕ, ◌≡◌, refl, ◌∙◌, Bool, Option, true, false, none, some, if◌then◌else◌}
use wolf_spdm.Types.{Mode, Error, Run}

-- The part of a context that exchanges do not write.
pub record Frame : Type 0 where
  pub state : ℕ
  pub mode : Mode
  pub spdm_version : ℕ
  pub ephemeral : Option ℕ
  pub transcript : Bytes
  pub cert_chain_hash : Bytes
  pub th1 : Bytes
  pub keys : Keys
  pub session_id : ℕ
  pub identity : Identity
  pub limits : Limits
  pub psk : Psk
  pub certs : Certs
  pub m1_state : Run
  pub m1_hash : Bytes

abbrev pub frame : Ctx → Frame
frame c = record {
  state = c.state;
  mode = c.mode;
  spdm_version = c.spdm_version;
  ephemeral = c.ephemeral;
  transcript = c.transcript;
  cert_chain_hash = c.cert_chain_hash;
  th1 = c.th1;
  keys = c.keys;
  session_id = c.session_id;
  identity = c.identity;
  limits = c.limits;
  psk = c.psk;
  certs = c.certs;
  m1_state = c.attest.m1_state;
  m1_hash = c.attest.m1_hash;
}

-- `m` writes nothing of the frame.
pub record Keeps {A : Type 0} (m : M A) : Type 0 where
  pub kept : (c : Ctx) → frame (m c).1 ≡ frame c

pub Keeps-outcome :
    {A B : Type 0} (p : Result A × Ctx) (f : A → M B)
    → ((a : A) → Keeps (f a))
    → frame (◌>>=◌ {B = B} (λ c. p) f p.1).1 ≡ frame p.1
Keeps-outcome (ok a, d) f then_ = (then_ a).kept d
Keeps-outcome (err e, d) f then_ = refl

pub Keeps->>= :
    {A B : Type 0} {m : M A} {f : A → M B} → Keeps m → ((a : A) → Keeps (f a)) → Keeps (m >>= f)
Keeps->>= {m = m} {f = f} first then_ = record {
  kept = λ c. Keeps-outcome (m c) f then_ ∙ first.kept c;
}

pub Keeps-if : {A : Type 0} (b : Bool) {m n : M A} → Keeps m → Keeps n → Keeps (if b then m else n)
Keeps-if true km kn = km
Keeps-if false km kn = kn

pub frame-if :
    {A : Type 0} (b : Bool) (p q : Result A × Ctx) (c : Ctx)
    → frame p.1 ≡ frame c
    → frame q.1 ≡ frame c
    → frame (if b then p else q).1 ≡ frame c
frame-if true p q c first second = first
frame-if false p q c first second = second

pub Keeps-gets : {A : Type 0} {f : Ctx → A} → Keeps (gets f)
Keeps-gets = record { kept = λ c. refl }

pub Keeps-lift : {A : Type 0} {r : Result A} → Keeps (lift r)
Keeps-lift = record { kept = λ c. refl }

pub Keeps-fail_if : (test : Bool) (e : Error) → Keeps (fail_if test e)
Keeps-fail_if test e = record { kept = λ c. refl }

pub Keeps-modify : (f : Ctx → Ctx) → ((c : Ctx) → frame (f c) ≡ frame c) → Keeps (modify f)
Keeps-modify f same = record { kept = same }

pub Keeps-or_fail : {A : Type 0} (o : Option A) (e : Error) → Keeps (or_fail o e)
Keeps-or_fail none e = record { kept = λ c. refl }
Keeps-or_fail (some a) e = record { kept = λ c. refl }

pub Keeps-none :
    (done : Option Bytes) {m : M (Option Bytes)}
    → Keeps m
    → Keeps (elim done as (λ o. M (Option Bytes)) [ some rsp ↦ pure (some rsp) | none ↦ m ])
Keeps-none (some rsp) km = record { kept = λ c. refl }
Keeps-none none km = km

pub Keeps-more :
    (last : Bool) (acc : Bytes) (m : M (Option Bytes))
    → Keeps m
    → Keeps (elim last as (λ b. M (Option Bytes)) [ true ↦ pure (some acc) | false ↦ m ])
Keeps-more true acc m km = record { kept = λ c. refl }
Keeps-more false acc m km = km
