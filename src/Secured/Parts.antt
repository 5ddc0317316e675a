-- ===== src/Secured/Parts.antt =====
-- The parts of a secured record: what the headers and the payload carry, and where a record splits.
use wolf_spdm.Context.{Bytes, Ctx, ok}
use wolf_spdm.Base.{
  ℕ, suc, ◌+◌, ◌*◌, ◌/◌, ◌%◌, ◌^◌, ◌≤◌, ◌<◌, ◌≡◌, refl, Bool, true, false, ◌++◌, arith, length,
  take, drop, length-append, take_all, take-append, take_of_length, drop_of_length, drop-add,
}
use wolf_spdm.Secured.{
  mctp_record_header, tcg_record_header, tcg_payload, mctp_payload, mctp_plaintext, u16,
}
use wolf_spdm.Types.{aead_tag_size, xfer_msg_size}
use wolf_spdm.Bytes.{set16le, set32le, get16le, set64le, get32le, get64le}

pub length-mctp_header : (c : Ctx) (len : ℕ) → length (mctp_record_header c len) ≡ 8
unfolding mctp_record_header set32le set16le
length-mctp_header c len = refl

pub length-tcg_header : (c : Ctx) (len : ℕ) → length (tcg_record_header c len) ≡ 14
unfolding tcg_record_header set32le set64le set16le
length-tcg_header c len = refl

-- The fields of an MCTP header, in front of any bytes.
pub mctp_header_fields :
    (c : Ctx) (len : ℕ) (rest : Bytes)
    → c.session_id < 2 ^ 32
    → c.req_seq_num < 2 ^ 16
    → len < 2 ^ 16
    → (get32le (mctp_record_header c len ++ rest) ≡ c.session_id)
      × (get16le (drop 4 (mctp_record_header c len ++ rest)) ≡ c.req_seq_num)
      × (get16le (drop 6 (mctp_record_header c len ++ rest)) ≡ len)
unfolding mctp_record_header set32le set16le get32le get16le
mctp_header_fields c len rest hs hq hl = omega arith

-- The fields of a TCG header.
pub tcg_header_fields :
    (c : Ctx) (len : ℕ) (rest : Bytes)
    → c.session_id < 2 ^ 32
    → c.req_seq_num < 2 ^ 64
    → len < 2 ^ 16
    → (get32le (tcg_record_header c len ++ rest) ≡ c.session_id)
      × (get64le (drop 4 (tcg_record_header c len ++ rest)) ≡ c.req_seq_num)
      × (get16le (drop 12 (tcg_record_header c len ++ rest)) ≡ len)
unfolding tcg_record_header set32le set64le set16le get32le get64le get16le
tcg_header_fields c len rest hs hq hl = omega arith

-- Header, ciphertext and tag come apart again at their lengths.
pub split_record :
    {h n : ℕ} (header ct tag : Bytes)
    → length header ≡ h
    → length ct ≡ n
    → length tag ≡ aead_tag_size
    → (take h (header ++ (ct ++ tag)) ≡ header)
      × (take n (drop h (header ++ (ct ++ tag))) ≡ ct)
      × (take aead_tag_size (drop (h + n) (header ++ (ct ++ tag))) ≡ tag)
      × (length (header ++ (ct ++ tag)) ≡ h + (n + aead_tag_size))
split_record {h} {n} header ct tag hh hn ht =
    let body : drop h (header ++ (ct ++ tag)) ≡ ct ++ tag = drop_of_length header (ct ++ tag) hh in
    (
      take_of_length header (ct ++ tag) hh,
      rw body (take_of_length ct tag hn),
      rw (drop-add h n, body, drop_of_length ct tag hn) (take_all aead_tag_size tag (omega arith)),
      omega (arith, length-append header (ct ++ tag), length-append ct tag),
    )

-- The payload of an MCTP record gives the message back: one that fits the buffer, and is not empty
-- if it has to carry its own type byte.
pub mctp_payload-plaintext :
    (app_msg : Bool) (plain : Bytes) (size : ℕ)
    → length plain ≤ xfer_msg_size
    → length plain ≤ size
    → (app_msg ≡ true → 0 < length plain)
    → mctp_payload app_msg (mctp_plaintext app_msg plain) size ≡ ok plain
unfolding mctp_payload mctp_plaintext set16le get16le
mctp_payload-plaintext true plain size fits room full =
    let n : u16 (length plain) % 256 + 256 * (u16 (length plain) / 256 % 256) ≡ length plain =
      omega arith in
    rw n (ground (arith, full refl, take_all (length plain) plain (omega arith)))
mctp_payload-plaintext false plain size fits room full =
    let n : u16 (suc (length plain)) % 256 + 256 * (u16 (suc (length plain)) / 256 % 256)
        ≡ suc (length plain) =
      omega arith in
    rw n (ground (arith, take_all (length plain) plain (omega arith)))

-- The payload of a TCG record drops the padding.
pub tcg_payload-plaintext :
    (plain padding : Bytes) (size : ℕ)
    → length plain ≤ xfer_msg_size
    → length plain ≤ size
    → tcg_payload (set16le (u16 (length plain)) ++ (plain ++ padding)) size ≡ ok plain
unfolding tcg_payload set16le get16le
tcg_payload-plaintext plain padding size fits room =
    let n : u16 (length plain) % 256 + 256 * (u16 (length plain) / 256 % 256) ≡ length plain =
      omega arith in
    rw n (ground (arith, take-append plain padding, length-append plain padding))
