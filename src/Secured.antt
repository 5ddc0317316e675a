-- ===== src/Secured.antt =====
-- src/spdm_secured.c: secured records in the MCTP and in the TCG format, and one exchange of them.
-- A record is Header || Ciphertext || Tag, and the header is the AEAD's associated data.
pub mod Sequence
pub mod Parts
pub mod RoundTrip
pub mod Nonce
use wolf_spdm.Base.{
  ℕ, ◌+◌, ◌-◌, ◌%◌, ◌^◌, [], ◌∷◌, ◌++◌, Bool, ◌||◌, ◌&&◌, not, ltb, ◌!=◌, length, take, drop,
  get_or, false, if◌then◌else◌,
}
use wolf_spdm.Types.{
  xfer_msg_size, aead_tag_size, aead_overhead, secured_pad, mctp_message_type_spdm, buffer_small,
  sequence, crypto_fail, decrypt_fail, session_invalid,
}
use wolf_spdm.Context.{
  Bytes, Env, Ctx, Result, ok, err, M, fail_if, modify, gets, or_fail, pure, is_tcg_mode, ◌>>=◌,
  ◌>>◌,
}
use wolf_spdm.Bytes.{set16le, get16le, set32le, get32le, set64le, get64le, build_iv}
use wolf_spdm.Crypto.{get_random}
use wolf_spdm.Transport.{send_receive}

-- `(word16)x` and a word64 counter.
abbrev pub u16 : ℕ → ℕ
u16 x = x % 2 ^ 16

abbrev pub u64 : ℕ → ℕ
u64 x = x % 2 ^ 64

-- The padding of a TCG record's plaintext to a multiple of the AES block.
unfoldable pub tcg_pad_len : ℕ → ℕ
tcg_pad_len app_data_len = u16 ((16 - u16 (2 + app_data_len) % 16) % 16)

-- SessionID (4), sequence number (8), Length (2).
unfoldable pub tcg_record_header : Ctx → ℕ → Bytes
tcg_record_header c record_len =
    set32le c.session_id ++ (set64le c.req_seq_num ++ set16le record_len)

-- SessionID (4), sequence number (2), Length (2).
unfoldable pub mctp_record_header : Ctx → ℕ → Bytes
mctp_record_header c record_len =
    set32le c.session_id ++ (set16le (u16 c.req_seq_num) ++ set16le record_len)

-- AppDataLen (2), then the message, with its type byte in front unless it carries one.
unfoldable pub mctp_plaintext : Bool → Bytes → Bytes
mctp_plaintext app_msg plain =
    let body = if app_msg then plain else mctp_message_type_spdm ∷ plain in
    set16le (u16 (length body)) ++ body

module _ (env : Env) where
  -- The AES-GCM step of wolfSPDM_EncryptRecord, under the request key, IV and sequence number.
  unfoldable pub seal_record : Bytes → Bytes → M Bytes
  seal_record header plain_buf = do
    c ← gets λ c. c
    fail_if (not (env.aes_set_key c.keys.req_data_key)) crypto_fail
    sealed ←
        or_fail
          (env.aes_gcm_encrypt c.keys.req_data_key (build_iv c.keys.req_data_iv c.req_seq_num)
            header plain_buf)
          crypto_fail
    modify λ c. record c { req_seq_num = u64 (c.req_seq_num + 1) }
    pure (header ++ (sealed.0 ++ sealed.1))

  -- The TCG branch of wolfSPDM_EncryptRecord, into a buffer of `out_size` bytes.
  unfoldable pub encrypt_tcg : Bytes → ℕ → M Bytes
  encrypt_tcg plain out_size = do
    let app_data_len = u16 (length plain)
    let pad_len = tcg_pad_len app_data_len
    let enc_payload_size = u16 (u16 (2 + app_data_len) + pad_len)
    fail_if (ltb out_size (14 + enc_payload_size + aead_tag_size)) buffer_small
    padding ← (if ltb 0 pad_len then get_random env pad_len else pure [])
    c ← gets λ c. c
    seal_record (tcg_record_header c (u16 (enc_payload_size + aead_tag_size)))
        (set16le app_data_len ++ (plain ++ padding))

  -- The MCTP branch of wolfSPDM_EncryptRecord.
  unfoldable pub encrypt_mctp : Bool → Bytes → ℕ → M Bytes
  encrypt_mctp app_msg plain out_size = do
    let app_data_len = u16 (if app_msg then length plain else 1 + length plain)
    let enc_data_len = u16 (2 + app_data_len)
    let record_len = u16 (enc_data_len + aead_tag_size)
    c ← gets λ c. c
    fail_if (ltb 0xFFFF c.req_seq_num) sequence
    fail_if (ltb out_size (8 + record_len)) buffer_small
    seal_record (mctp_record_header c record_len) (mctp_plaintext app_msg plain)

  -- wolfSPDM_EncryptRecord.
  unfoldable pub encrypt_record : Bool → Bytes → ℕ → M Bytes
  encrypt_record app_msg plain out_size = do
    fail_if (ltb xfer_msg_size (length plain)) buffer_small
    mode ← gets λ c. c.mode
    (if is_tcg_mode mode then encrypt_tcg plain out_size else encrypt_mctp app_msg plain out_size)

  -- The AES-GCM step of wolfSPDM_DecryptRecord. The sequence number moves on with the tag verified.
  unfoldable pub open_record : Bytes → Bytes → Bytes → ℕ → M Bytes
  open_record header ciphertext tag seq_num = do
    keys ← gets λ c. c.keys
    fail_if (not (env.aes_set_key keys.rsp_data_key)) crypto_fail
    decrypted ←
        or_fail
          (env.aes_gcm_decrypt keys.rsp_data_key (build_iv keys.rsp_data_iv seq_num) header
            ciphertext tag)
          decrypt_fail
    modify λ c. record c { rsp_seq_num = u64 (c.rsp_seq_num + 1) }
    pure decrypted

-- The application data in the payload of a TCG record, for a buffer of `out_size` bytes.
unfoldable pub tcg_payload : Bytes → ℕ → Result Bytes
tcg_payload decrypted out_size =
    let n = get16le decrypted in
    if ltb (length decrypted) 2
    then err buffer_small
    else (if ltb (length decrypted) (2 + n) || ltb out_size n
        then err buffer_small
        else ok (take n (drop 2 decrypted)))

-- The same of an MCTP record; the type byte is checked and dropped unless the caller takes it.
unfoldable pub mctp_payload : Bool → Bytes → ℕ → Result Bytes
mctp_payload app_msg decrypted out_size =
    let n = get16le decrypted in
    let type_size = if app_msg then 0 else 1 in
    if ltb (length decrypted) 2
    then err buffer_small
    else (if ltb n 1 || (ltb (length decrypted) (2 + n) || ltb out_size (n - type_size))
        then err buffer_small
        else (if not app_msg && get_or decrypted 2 0 != mctp_message_type_spdm
            then err decrypt_fail
            else ok (take (n - type_size) (drop (2 + type_size) decrypted))))

-- The buffers `encBuf` and `rxBuf` of wolfSPDM_SecuredXfer.
abbrev pub record_buf_size : ℕ
record_buf_size = xfer_msg_size + aead_overhead

-- The buffer `decrypted`.
abbrev pub decrypted_size : ℕ
decrypted_size = xfer_msg_size + secured_pad

module _ (env : Env) where
  -- The TCG branch of wolfSPDM_DecryptRecord.
  unfoldable pub decrypt_tcg : Bytes → ℕ → M Bytes
  decrypt_tcg enc out_size = do
    fail_if (ltb (length enc) (14 + aead_tag_size)) buffer_small
    c ← gets λ c. c
    let rsp_len = get16le (drop 12 enc)
    let cipher_len = rsp_len - aead_tag_size
    fail_if (get32le enc != c.session_id) session_invalid
    fail_if (get64le (drop 4 enc) != c.rsp_seq_num) sequence
    fail_if (ltb rsp_len aead_tag_size || ltb (length enc) (14 + rsp_len)) buffer_small
    fail_if (ltb decrypted_size cipher_len) buffer_small
    decrypted ←
        open_record env (take 14 enc) (take cipher_len (drop 14 enc))
          (take aead_tag_size (drop (14 + cipher_len) enc)) (get64le (drop 4 enc))
    (λ c. (tcg_payload decrypted out_size, c))

  -- The MCTP branch of wolfSPDM_DecryptRecord: Length covers exactly the rest of the record.
  unfoldable pub decrypt_mctp : Bool → Bytes → ℕ → M Bytes
  decrypt_mctp app_msg enc out_size = do
    fail_if (ltb (length enc) (8 + aead_tag_size)) buffer_small
    c ← gets λ c. c
    let rsp_len = get16le (drop 6 enc)
    let cipher_len = rsp_len - aead_tag_size
    fail_if (get32le enc != c.session_id) session_invalid
    fail_if (get16le (drop 4 enc) != c.rsp_seq_num) sequence
    fail_if (ltb rsp_len aead_tag_size || length enc != 8 + rsp_len) buffer_small
    fail_if (ltb decrypted_size cipher_len) buffer_small
    decrypted ←
        open_record env (take 8 enc) (take cipher_len (drop 8 enc))
          (take aead_tag_size (drop (8 + cipher_len) enc)) (get16le (drop 4 enc))
    (λ c. (mctp_payload app_msg decrypted out_size, c))

  -- wolfSPDM_DecryptRecord.
  unfoldable pub decrypt_record : Bool → Bytes → ℕ → M Bytes
  decrypt_record app_msg enc out_size = do
    mode ← gets λ c. c.mode
    (if is_tcg_mode mode then decrypt_tcg enc out_size else decrypt_mctp app_msg enc out_size)

  -- wolfSPDM_EncryptInternal and wolfSPDM_DecryptInternal.
  unfoldable pub encrypt_internal : Bytes → ℕ → M Bytes
  encrypt_internal = encrypt_record env false

  unfoldable pub decrypt_internal : Bytes → ℕ → M Bytes
  decrypt_internal = decrypt_record false

  -- wolfSPDM_SecuredXfer.
  unfoldable pub secured_xfer : Bytes → ℕ → M Bytes
  secured_xfer cmd rsp_size = do
    sealed ← encrypt_internal cmd record_buf_size
    rx ← send_receive env sealed record_buf_size
    decrypt_internal rx rsp_size
