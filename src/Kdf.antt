-- ===== src/Kdf.antt =====
-- src/spdm_kdf.c: HKDF-Expand with the SPDM label format, and the key schedule built on it.
pub mod Schedule
use Prim.Native.Char.{code}
use Prim.Native.String.{String}
use wolf_spdm.Base.{
  ℕ, ◌+◌, ◌/◌, ◌%◌, [], ◌∷◌, ◌++◌, Bool, ◌||◌, ltb, leb, length, replicate, none, some,
  if◌then◌else◌,
}
use wolf_spdm.Types.{hash_size, aead_key_size, aead_iv_size, buffer_small, crypto_fail}
use wolf_spdm.Context.{
  Bytes, Env, Ctx, Result, ok, err, M, modify, gets, or_fail, lift, ◌>>=◌, ◌>>◌,
}
use wolf_spdm.Transcript.{transcript_hash}

-- The bytes of a C string literal.
abbrev pub codes : String → Bytes
codes String.[] = []
codes (String.◌∷◌ c s) = code c ∷ codes s

abbrev pub zeros : ℕ → Bytes
zeros n = replicate n 0

-- A message direction: which half of the key material a step works on.
pub data Dir : Type 0 where
  req rsp : Dir

abbrev pub set_data_key : Dir → Bytes → Ctx → Ctx
set_data_key req k c = record c { keys = record (c.keys) { req_data_key = k } }
set_data_key rsp k c = record c { keys = record (c.keys) { rsp_data_key = k } }

abbrev pub set_data_iv : Dir → Bytes → Ctx → Ctx
set_data_iv req k c = record c { keys = record (c.keys) { req_data_iv = k } }
set_data_iv rsp k c = record c { keys = record (c.keys) { rsp_data_iv = k } }

abbrev pub app_secret : Dir → Ctx → Bytes
app_secret req c = c.keys.req_app_secret
app_secret rsp c = c.keys.rsp_app_secret

abbrev pub set_app_secret : Dir → Bytes → Ctx → Ctx
set_app_secret req k c = record c { keys = record (c.keys) { req_app_secret = k } }
set_app_secret rsp k c = record c { keys = record (c.keys) { rsp_app_secret = k } }

-- `if (rc != WOLFSPDM_SUCCESS) { cleanup }` at the end of a chain.
abbrev pub on_error : {A : Type 0} → M A → (Ctx → Ctx) → M A
on_error m cleanup c =
    let (r, c') = m c in elim r [ ok a ↦ (ok a, c') | err e ↦ (err e, cleanup c') ]

-- The version-specific prefix of BinConcat.
unfoldable pub bin_concat_prefix : ℕ → Bytes
bin_concat_prefix version =
    if leb 0x14 version
    then codes "spdm1.4 "
    else (if leb 0x13 version then codes "spdm1.3 " else codes "spdm1.2 ")

-- `info` of wolfSPDM_HkdfExpandLabel: Length (2, LE), prefix, label, context.
unfoldable pub bin_concat : ℕ → ℕ → Bytes → Bytes → Bytes
bin_concat version out_size label context =
    out_size % 256 ∷ out_size / 256 % 256 ∷ (bin_concat_prefix version ++ (label ++ context))

-- The size of the buffer `info`.
abbrev pub info_size : ℕ
info_size = 128

-- Wipes the material that wolfSPDM_DeriveFromHandshakeSecret may have derived.
unfoldable pub wipe_handshake_keys : Ctx → Ctx
wipe_handshake_keys c = record c {
  keys = record (c.keys) {
    req_hs_secret = zeros hash_size;
    rsp_hs_secret = zeros hash_size;
    req_finished_key = zeros hash_size;
    rsp_finished_key = zeros hash_size;
    req_data_key = zeros aead_key_size;
    rsp_data_key = zeros aead_key_size;
    req_data_iv = zeros aead_iv_size;
    rsp_data_iv = zeros aead_iv_size;
  };
}

module _ (env : Env) where
  -- wolfSPDM_HkdfExpandLabel; an absent context is the empty one.
  unfoldable pub hkdf_expand_label : ℕ → Bytes → Bytes → Bytes → ℕ → Result Bytes
  hkdf_expand_label version secret label context out_size =
      if ltb info_size (length label)
        || (ltb info_size (length context) || ltb info_size (2 + 8 + length label + length context))
      then err buffer_small
      else elim (env.hkdf_expand secret (bin_concat version out_size label context) out_size) [
        | none ↦ err crypto_fail
        | some k ↦ ok k
      ]

  -- wolfSPDM_ComputeVerifyData.
  unfoldable pub compute_verify_data : Bytes → Bytes → M Bytes
  compute_verify_data finished_key th_hash = or_fail (env.hmac finished_key th_hash) crypto_fail

  -- wolfSPDM_DeriveKeyIvPair into the data key and IV of one direction.
  unfoldable pub derive_key_iv_pair : Dir → Bytes → M (Unit {0})
  derive_key_iv_pair d secret = do
    version ← gets λ c. c.spdm_version
    key ← lift (hkdf_expand_label version secret (codes "key") [] aead_key_size)
    modify (set_data_key d key)
    iv ← lift (hkdf_expand_label version secret (codes "iv") [] aead_iv_size)
    modify (set_data_iv d iv)

  -- The chain of wolfSPDM_DeriveFromHandshakeSecret before its wipe.
  unfoldable pub derive_handshake_chain : Bytes → M (Unit {0})
  derive_handshake_chain th1_hash = do
    v ← gets λ c. c.spdm_version
    hs ← gets λ c. c.keys.handshake_secret
    q ← lift (hkdf_expand_label v hs (codes "req hs data") th1_hash hash_size)
    modify λ c. record c { keys = record (c.keys) { req_hs_secret = q } }
    p ← lift (hkdf_expand_label v hs (codes "rsp hs data") th1_hash hash_size)
    modify λ c. record c { keys = record (c.keys) { rsp_hs_secret = p } }
    qf ← lift (hkdf_expand_label v q (codes "finished") [] hash_size)
    modify λ c. record c { keys = record (c.keys) { req_finished_key = qf } }
    pf ← lift (hkdf_expand_label v p (codes "finished") [] hash_size)
    modify λ c. record c { keys = record (c.keys) { rsp_finished_key = pf } }
    derive_key_iv_pair req q
    derive_key_iv_pair rsp p

  -- wolfSPDM_DeriveFromHandshakeSecret.
  unfoldable pub derive_from_handshake_secret : Bytes → M (Unit {0})
  derive_from_handshake_secret th1_hash =
      on_error (derive_handshake_chain th1_hash) wipe_handshake_keys

  -- wolfSPDM_DeriveHandshakeKeys: the salt is all zeros.
  unfoldable pub derive_handshake_keys : Bytes → M (Unit {0})
  derive_handshake_keys th1_hash = do
    shared ← gets λ c. c.keys.shared_secret
    hs ← or_fail (env.hkdf_extract (zeros hash_size) shared) crypto_fail
    modify λ c. record c { keys = record (c.keys) { handshake_secret = hs } }
    derive_from_handshake_secret th1_hash

  -- wolfSPDM_DeriveAppDataKeys.
  unfoldable pub derive_app_data_keys : M (Unit {0})
  derive_app_data_keys = do
    th2_hash ← transcript_hash env
    v ← gets λ c. c.spdm_version
    hs ← gets λ c. c.keys.handshake_secret
    salt ← lift (hkdf_expand_label v hs (codes "derived") [] hash_size)
    master ← or_fail (env.hkdf_extract salt (zeros hash_size)) crypto_fail
    q ← lift (hkdf_expand_label v master (codes "req app data") th2_hash hash_size)
    p ← lift (hkdf_expand_label v master (codes "rsp app data") th2_hash hash_size)
    derive_key_iv_pair req q
    derive_key_iv_pair rsp p
    modify λ c. record c {
      keys = record (c.keys) { req_app_secret = q; rsp_app_secret = p };
      req_seq_num = 0;
      rsp_seq_num = 0;
    }

  -- wolfSPDM_UpdateDirection.
  unfoldable pub update_direction : Dir → M (Unit {0})
  update_direction d = do
    v ← gets λ c. c.spdm_version
    current ← gets (app_secret d)
    next ← lift (hkdf_expand_label v current (codes "traffic upd") [] hash_size)
    derive_key_iv_pair d next
    modify (set_app_secret d next)

  -- wolfSPDM_DeriveUpdatedKeys.
  unfoldable pub derive_updated_keys : Bool → M (Unit {0})
  derive_updated_keys update_all = do
    update_direction req
    (if update_all then update_direction rsp else modify (λ c. c))
