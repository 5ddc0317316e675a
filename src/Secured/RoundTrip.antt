-- ===== src/Secured/RoundTrip.antt =====
-- The AES-GCM steps of wolfSPDM_EncryptRecord and wolfSPDM_DecryptRecord at the two ends of a
-- session (src/spdm_secured.c).
pub mod Mctp
pub mod Tcg
pub mod Record
use wolf_spdm.Context.{Bytes, Env, Ctx, ok}
use wolf_spdm.Base.{◌^◌, ◌<◌, ◌≡◌, inl, inr, true, some, ◌++◌, arith, Option-cases, length}
use wolf_spdm.Secured.{seal_record, open_record}
use wolf_spdm.Types.{aead_tag_size}
use wolf_spdm.Bytes.{build_iv}

-- AES-GCM as wolfCrypt documents it: a 16-byte tag, a ciphertext as long as the plaintext, and
-- decryption under the same key, IV and associated data that gives the plaintext back.
abbrev pub AeadOpens : Env → Type 0
AeadOpens env =
    (key iv aad plain ct tag : Bytes)
    → env.aes_gcm_encrypt key iv aad plain ≡ some (ct, tag)
    → (length ct ≡ length plain)
      × (length tag ≡ aead_tag_size)
      × (env.aes_gcm_decrypt key iv aad ct tag ≡ some plain)

-- `d` expects the next record of `c`: the other end of its session.
pub record Expects (c d : Ctx) : Type 0 where
  pub mode : d.mode ≡ c.mode
  pub session : d.session_id ≡ c.session_id
  pub seq : d.rsp_seq_num ≡ c.req_seq_num
  pub key : d.keys.rsp_data_key ≡ c.keys.req_data_key
  pub iv : d.keys.rsp_data_iv ≡ c.keys.req_data_iv

-- The ranges of the session ID and of the sequence number.
pub record InRange (c : Ctx) : Type 0 where
  pub session : c.session_id < 2 ^ 32
  pub seq : c.req_seq_num < 2 ^ 64

-- What `seal_record` made of a plaintext.
pub seal_record-eq-ok :
    (env : Env) (header plain : Bytes) (c : Ctx) {r : Bytes} {c' : Ctx}
    → seal_record env header plain c ≡ (ok r, c')
    → (ct : Bytes) × (tag : Bytes) × (env.aes_set_key c.keys.req_data_key ≡ true)
      × (env.aes_gcm_encrypt c.keys.req_data_key
            (build_iv c.keys.req_data_iv c.req_seq_num)
            header
            plain
          ≡ some (ct, tag))
      × (r ≡ header ++ (ct ++ tag))
unfolding seal_record
seal_record-eq-ok env header plain c e =
    elim (Option-cases (
      env.aes_gcm_encrypt c.keys.req_data_key (build_iv c.keys.req_data_iv c.req_seq_num) header
        plain)) [
          | inl failed ↦ absurd (ground arith)
          | inr ((ct, tag), found) ↦ (ct, tag, ground arith, found, ground arith)
        ]

-- `open_record` on the other end gives the plaintext, and moves its sequence number.
pub open_record-seal :
    (env : Env) (header plain ct tag : Bytes) (c d : Ctx)
    → Expects c d
    → env.aes_set_key c.keys.req_data_key ≡ true
    → env.aes_gcm_decrypt c.keys.req_data_key
        (build_iv c.keys.req_data_iv c.req_seq_num)
        header
        ct
        tag
      ≡ some plain
    → (open_record env header ct tag c.req_seq_num d).0 ≡ ok plain
unfolding open_record
open_record-seal env header plain ct tag c d x set found = rw (x.key, x.iv, set, found)
