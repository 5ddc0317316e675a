-- ===== src/Standard/Vca/Limits.antt =====
-- The sizes that wolfSPDM_ParseCapabilities accepts and wolfSPDM_GetCertificate uses
-- (src/spdm_standard.c).
use wolf_spdm.Base.{ℕ, ◌+◌, ◌≤◌, ◌<◌, ◌≡◌, arith}
use wolf_spdm.Standard.Vca.{parse_capabilities}
use wolf_spdm.Standard.Certificate.{cert_req_len}
use wolf_spdm.Message.{check_response}
use wolf_spdm.Context.{Bytes, Ctx, ok}

cert_req_len-le : (size : ℕ) → 42 ≤ size → (0 < cert_req_len size) × (8 + cert_req_len size ≤ size)
unfolding cert_req_len
cert_req_len-le size h = ground arith

-- After a CAPABILITIES that parse_capabilities accepts, the responder's DataTransferSize is at least
-- 42 and at most its MaxSPDMmsgSize, and a CERTIFICATE response with the header and the portion that
-- get_certificate asks for, at least one byte, fits the DataTransferSize.
pub parse_capabilities_fits :
    (buf : Bytes) (c c' : Ctx)
    → parse_capabilities buf c ≡ (ok tt, c')
    → (42 ≤ c'.limits.data_transfer_size)
      × (c'.limits.data_transfer_size ≤ c'.limits.max_spdm_msg_size)
      × (0 < cert_req_len c'.limits.data_transfer_size)
      × (8 + cert_req_len c'.limits.data_transfer_size ≤ c'.limits.data_transfer_size)
unfolding parse_capabilities check_response
parse_capabilities_fits buf c c' e =
    let least : 42 ≤ c'.limits.data_transfer_size = ground arith in
    let most : c'.limits.data_transfer_size ≤ c'.limits.max_spdm_msg_size = ground arith in
    let (more, fits) = cert_req_len-le c'.limits.data_transfer_size least in
    (least, most, more, fits)
