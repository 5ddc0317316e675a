-- ===== src/Context.antt =====
-- struct WOLFSPDM_CTX of src/spdm_internal.h, what the library calls outside itself (wolfCrypt and
-- the I/O callback), and the monad of functions that take the context and return a status.
-- A pointer argument of the source is a value here, so its NULL guards have no counterpart. A
-- buffer with its length is the list of its bytes. `none` of a callback or of a wolfCrypt call is
-- a nonzero return code.
use wolf_spdm.Base.{
  ℕ, List, Option, none, some, Bool, true, false, if◌then◌else◌, ◌≡◌, refl, ◌⊎◌, inl, inr, ap,
}
use wolf_spdm.Types.{Mode, auto, nuvoton, nations, nations_psk, tcg, Error, Run}

abbrev pub Bytes : Type 0
Bytes = List ℕ

-- wolfCrypt and the transport. `io` is given the requests sent before (newest first), the request
-- and the size of the receive buffer; `random`, `ecc_make_key` and `ecc_sign` the number of earlier
-- draws from the RNG; `aes_set_key` is wc_AesInit with wc_AesGcmSetKey.
-- A key pair is a number that only these functions read.
pub record Env : Type 0 where
  pub io : List Bytes → Bytes → ℕ → Option Bytes
  pub init_rng : Bool
  pub random : ℕ → ℕ → Option Bytes
  pub sha384 : Bytes → Option Bytes
  pub sha384_init : Bool
  pub sha384_update : Bytes → Bytes → Bool
  pub hmac : Bytes → Bytes → Option Bytes
  pub hkdf_extract : Bytes → Bytes → Option Bytes
  pub hkdf_expand : Bytes → Bytes → ℕ → Option Bytes
  pub aes_set_key : Bytes → Bool
  pub aes_gcm_encrypt : Bytes → Bytes → Bytes → Bytes → Option (Bytes × Bytes)
  pub aes_gcm_decrypt : Bytes → Bytes → Bytes → Bytes → Bytes → Option Bytes
  pub ecc_make_key : ℕ → Option ℕ
  pub ecc_export_public_raw : ℕ → Option (Bytes × Bytes)
  pub ecc_shared_secret : ℕ → Bytes → Bytes → Option Bytes
  pub ecc_verify : Bytes → Bytes → Bytes → Option Bool
  pub ecc_sign : ℕ → Bytes → Bytes → Bytes → Option (Bytes × Bytes)

-- The derived secrets and the session keys.
pub record Keys : Type 0 where
  pub shared_secret : Bytes
  pub handshake_secret : Bytes
  pub req_hs_secret : Bytes
  pub rsp_hs_secret : Bytes
  pub req_finished_key : Bytes
  pub rsp_finished_key : Bytes
  pub req_data_key : Bytes
  pub rsp_data_key : Bytes
  pub req_data_iv : Bytes
  pub rsp_data_iv : Bytes
  pub req_app_secret : Bytes
  pub rsp_app_secret : Bytes

-- The configured transport: the callback's presence, the state behind `ioUserCtx` (the requests
-- so far, newest first) and the TCG binding fields.
pub record Wire : Type 0 where
  pub has_io : Bool
  pub history : List Bytes
  pub connection_handle : ℕ
  pub fips_indicator : ℕ

-- The identity keys of both sides.
pub record Identity : Type 0 where
  pub rsp_pub_key : Bytes
  pub has_rsp_pub_key : Bool
  pub rsp_key_from_cert : Bool
  pub req_priv_key : Bytes
  pub req_pub_key : Bytes
  pub has_req_key_pair : Bool
  pub req_pub_key_tpmt : Bytes

-- What the standard requester negotiated.
pub record Limits : Type 0 where
  pub rsp_caps : ℕ
  pub data_transfer_size : ℕ
  pub max_spdm_msg_size : ℕ
  pub vca_len : ℕ
  pub current_slot_id : ℕ

-- What wolfSPDM_SetPSK stores; an empty key is none.
pub record Psk : Type 0 where
  pub psk : Bytes
  pub hint : Bytes

-- The certificate chain of the responder and what it is checked against.
pub record Certs : Type 0 where
  pub slot_mask : ℕ
  pub cert_chain : Bytes
  pub trusted_ca : Bytes
  pub allow_untrusted : Bool

-- The measurement and challenge transcripts; `l1l2_hash` and `m1_hash` are what the running hashes
-- have taken in.
pub record Attest : Type 0 where
  pub l1l2_state : Run
  pub l1l2_hash : Bytes
  pub m1_state : Run
  pub m1_hash : Bytes
  pub meas_record : Bytes
  pub meas_block_count : ℕ

-- `ephemeral` is the key pair while `ephemeralKeyInit` is set. `draws` is the state of the RNG.
-- `transcript` is the first `transcriptLen` bytes of the buffer of that name.
pub record Ctx : Type 0 where
  pub state : ℕ
  pub mode : Mode
  pub wire : Wire
  pub rng_initialized : Bool
  pub draws : ℕ
  pub max_version : ℕ
  pub spdm_version : ℕ
  pub last_peer_error_code : ℕ
  pub ephemeral : Option ℕ
  pub transcript : Bytes
  pub cert_chain_hash : Bytes
  pub th1 : Bytes
  pub th2 : Bytes
  pub keys : Keys
  pub req_seq_num : ℕ
  pub rsp_seq_num : ℕ
  pub req_session_id : ℕ
  pub rsp_session_id : ℕ
  pub session_id : ℕ
  pub mut_auth_requested : ℕ
  pub req_slot_id_param : ℕ
  pub identity : Identity
  pub limits : Limits
  pub psk : Psk
  pub certs : Certs
  pub chunk_handle : ℕ
  pub attest : Attest
  pub initialized : Bool

pub data Result (A : Type 0) : Type 0 where
  ok : A → Result A
  err : Error → Result A

-- A function of the library: it takes the context, and returns a status with the context.
abbrev pub M : Type 0 → Type 0
M A = Ctx → Result A × Ctx

infixl 5 ◌>>=◌ ◌>>◌
abbrev pub ◌>>=◌ : {A B : Type 0} → M A → (A → M B) → M B
◌>>=◌ m f c = let (r, c') = m c in elim r [ ok a ↦ f a c' | err e ↦ (err e, c') ]

abbrev pub ◌>>◌ : {B : Type 0} → M (Unit {0}) → M B → M B
m >> k = m >>= λ _. k

abbrev pub pure : {A : Type 0} → A → M A
pure a c = (ok a, c)

abbrev pub fail : {A : Type 0} → Error → M A
fail e c = (err e, c)

abbrev pub lift : {A : Type 0} → Result A → M A
lift r c = (r, c)

-- `if (test) return e;`
abbrev pub fail_if : Bool → Error → M (Unit {0})
fail_if test e c = (if test then err e else ok tt, c)

abbrev pub gets : {A : Type 0} → (Ctx → A) → M A
gets f c = (ok (f c), c)

abbrev pub modify : (Ctx → Ctx) → M (Unit {0})
modify f c = (ok tt, f c)

-- `m`, and then `f` on the context whether `m` failed or not.
abbrev pub always : {A : Type 0} → M A → (Ctx → Ctx) → M A
always m f c = let (r, c') = m c in (r, f c')

-- The outcome of a wolfCrypt call.
abbrev pub or_fail : {A : Type 0} → Option A → Error → M A
or_fail none e = fail e
or_fail (some a) e = pure a

-- wolfSPDM_IsTcgMode: the vendor modes select TCG framing and pinned keys.
abbrev pub is_tcg_mode : Mode → Bool
is_tcg_mode auto = false
is_tcg_mode nuvoton = true
is_tcg_mode nations = true
is_tcg_mode nations_psk = true
is_tcg_mode tcg = true

-- A run of `m` succeeds or fails.
pub Outcome-cases :
    {A : Type 0} (p : Result A × Ctx)
    → ((a : A) × (c : Ctx) × (p ≡ (ok a, c))) ⊎ ((e : Error) × (c : Ctx) × (p ≡ (err e, c)))
Outcome-cases (ok a, c) = inl (a, c, refl)
Outcome-cases (err e, c) = inr (e, c, refl)

-- What `m >>= f` does after such a run.
pub bind_ok :
    {A B : Type 0} (m : M A) (f : A → M B) (c d : Ctx) (a : A)
    → m c ≡ (ok a, d)
    → (m >>= f) c ≡ f a d
bind_ok {B = B} m f c d a run = ap (λ p. ◌>>=◌ {B = B} (λ x. p) f c) run

pub bind_err :
    {A B : Type 0} (m : M A) (f : A → M B) (c d : Ctx) (e : Error)
    → m c ≡ (err e, d)
    → (m >>= f) c ≡ (err e, d)
bind_err {B = B} m f c d e run = ap (λ p. ◌>>=◌ {B = B} (λ x. p) f c) run

pub Result-cases :
    {A : Type 0} (r : Result A) → ((a : A) × (r ≡ ok a)) ⊎ ((e : Error) × (r ≡ err e))
Result-cases (ok a) = inl (a, refl)
Result-cases (err e) = inr (e, refl)
