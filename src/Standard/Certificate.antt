-- ===== src/Standard/Certificate.antt =====
-- GET_DIGESTS and GET_CERTIFICATE of src/spdm_standard.c.
pub mod Loop
use wolf_spdm.Base.{
  ℕ, Bool, ◌&&◌, zero, suc, ◌+◌, ◌-◌, ◌%◌, ◌^◌, true, false, not, ◌||◌, [], ◌∷◌, ◌++◌, ltb, leb,
  ◌==◌, ◌!=◌, if◌then◌else◌, length, get_or, take, drop,
}
use wolf_spdm.Types.Code
use wolf_spdm.Types.{
  cert_portion_size, cert_chain_hdr_size, cert_fail, invalid_arg, max_cert_chain, state_cert,
  buffer_small,
}
use wolf_spdm.Context.{Bytes, Env, M, Ctx, ◌>>◌, ◌>>=◌, pure, gets, fail_if, modify}
use wolf_spdm.Bytes.{set16le, get16le}
use wolf_spdm.Standard.{forget_cert_key}
use wolf_spdm.Secured.{u16}
use wolf_spdm.Exchange.{clear_exchange}
use wolf_spdm.Transcript.{sha384_hash, transcript_add}
use wolf_spdm.Running.{m1_add}
use wolf_spdm.Message.{check_response}

-- wolfSPDM_ParseDigests.
unfoldable pub parse_digests : Bytes → M (Unit {0})
parse_digests buf = do
  fail_if (ltb (length buf) 4) invalid_arg
  check_response buf Code.digests cert_fail
  modify λ c. record c { certs = record (c.certs) { slot_mask = get_or buf 3 0 } }

-- wolfSPDM_ParseCertificate: PortionLength and RemainderLength, with the portion stored.
unfoldable pub parse_certificate : Bytes → M (ℕ × ℕ)
parse_certificate buf = do
  fail_if (ltb (length buf) 4) invalid_arg
  check_response buf Code.certificate cert_fail
  slot ← gets λ c. c.limits.current_slot_id
  fail_if (ltb (length buf) 8 || get_or buf 2 0 % 16 != slot) cert_fail
  let portion = get16le (drop 4 buf)
  chain ← gets λ c. c.certs.cert_chain
  fail_if (ltb (length buf - 8) portion || ltb (max_cert_chain - length chain) portion) buffer_small
  modify
      λ c. record c { certs = record (c.certs) { cert_chain = chain ++ take portion (drop 8 buf) } }
  pure (portion, get16le (drop 6 buf))

-- `reqLen`: a CERTIFICATE response must fit the responder's DataTransferSize.
unfoldable pub cert_req_len : ℕ → ℕ
cert_req_len size =
    if size != 0 && ltb size (cert_portion_size + 8)
    then (size + 2 ^ 16 - 8) % 2 ^ 16
    else cert_portion_size

-- GET_CERTIFICATE for `len` bytes from `offset`.
unfoldable pub cert_request : ℕ → ℕ → ℕ → ℕ → Bytes
cert_request version slot offset len =
    version ∷ Code.get_certificate ∷ slot ∷ 0 ∷ (set16le offset ++ set16le len)

-- The chain header's length field must be that of the whole chain.
unfoldable pub bad_chain_header : Bytes → Bool
bad_chain_header chain = leb (length chain) cert_chain_hdr_size || get16le chain != length chain

module _ (env : Env) where
  -- wolfSPDM_GetDigests.
  unfoldable pub get_digests : M (Unit {0})
  get_digests = do
    version ← gets λ c. c.spdm_version
    let tx : Bytes = version ∷ Code.get_digests ∷ 0 ∷ 0 ∷ []
    rx ← clear_exchange env tx 512
    parse_digests rx
    m1_add env tx rx

  -- What a pass of the loop of wolfSPDM_GetCertificate makes of the response.
  unfoldable pub cert_take : Bytes → Bytes → M (ℕ × ℕ)
  cert_take tx rx = do
    got ← parse_certificate rx
    m1_add env tx (take (8 + got.0) rx)
    fail_if (got.0 == 0 && ltb 0 got.1) cert_fail
    pure got

  -- One pass of the loop of wolfSPDM_GetCertificate.
  unfoldable pub cert_round : ℕ → ℕ → ℕ → M (ℕ × ℕ)
  cert_round slot len offset = do
    version ← gets λ c. c.spdm_version
    let tx = cert_request version slot offset len
    rx ← clear_exchange env tx (8 + cert_portion_size)
    cert_take tx rx

  -- The loop of wolfSPDM_GetCertificate; `false` is out of fuel.
  unfoldable pub cert_loop : ℕ → ℕ → ℕ → ℕ → M Bool
  cert_loop zero slot len offset = pure false
  cert_loop (suc f) slot len offset = do
    got ← cert_round slot len offset
    elim (got.1 == 0) [ true ↦ pure true | false ↦ cert_loop f slot len (u16 (offset + got.0)) ]

  -- What wolfSPDM_GetCertificate does before its loop.
  unfoldable pub start_chain : ℕ → Ctx → Ctx
  start_chain slot c = forget_cert_key (record c {
    limits = record (c.limits) { current_slot_id = slot };
    certs = record (c.certs) { cert_chain = [] };
  })

  -- What wolfSPDM_GetCertificate does with the whole chain: Ct goes into the transcript.
  unfoldable pub end_chain : M (Unit {0})
  end_chain = do
    chain ← gets λ c. c.certs.cert_chain
    fail_if (bad_chain_header chain) cert_fail
    hash ← sha384_hash env chain [] []
    modify λ c. record c { cert_chain_hash = hash }
    transcript_add hash
    modify λ c. record c { state = state_cert }

  -- wolfSPDM_GetCertificate, with one pass for each byte that the chain may have.
  unfoldable pub get_certificate : ℕ → M (Unit {0})
  get_certificate slot = do
    fail_if (ltb 7 slot) invalid_arg
    size ← gets λ c. c.limits.data_transfer_size
    modify (start_chain slot)
    done ← cert_loop (suc max_cert_chain) slot (cert_req_len size) 0
    fail_if (not done) cert_fail
    end_chain
