-- ===== src/Standard.antt =====
-- src/spdm_standard.c: the standard requester. Here what its parts share and its configuration.
pub mod Vca
pub mod Certificate
pub mod Chain
pub mod Connect
use wolf_spdm.Base.{ℕ, Bool, ◌&&◌, false, not, [], ltb, ◌==◌, ◌!=◌, if◌then◌else◌, length}
use wolf_spdm.Context.{Bytes, M, Ctx, modify, ◌>>=◌, ◌>>◌, fail_if}
use wolf_spdm.Types.{invalid_arg, max_trusted_ca, buffer_small}

-- A responder key that was taken from a certificate chain is dropped; a pinned one stays.
unfoldable pub forget_cert_key : Ctx → Ctx
forget_cert_key c =
    if c.identity.rsp_key_from_cert
    then record c {
      identity = record (c.identity) {
        has_rsp_pub_key = false;
        rsp_key_from_cert = false;
        rsp_pub_key = [];
      };
    }
    else c

-- wolfSPDM_SetTrustedCAs.
unfoldable pub set_trusted_cas : Bytes → M (Unit {0})
set_trusted_cas der_certs = do
  fail_if (length der_certs == 0) invalid_arg
  fail_if (ltb max_trusted_ca (length der_certs)) buffer_small
  modify λ c. record c { certs = record (c.certs) { trusted_ca = der_certs } }

-- wolfSPDM_AllowUntrustedCerts.
unfoldable pub allow_untrusted_certs : Bool → M (Unit {0})
allow_untrusted_certs allow =
    modify λ c. record c { certs = record (c.certs) { allow_untrusted = allow } }

-- wolfSPDM_SetKeyExchangePref without ML-KEM: a KEM cannot be asked for.
unfoldable pub set_key_exchange_pref : Bool → ℕ → M (Unit {0})
set_key_exchange_pref adv_dhe kem_mask = do
  fail_if (not adv_dhe && kem_mask == 0) invalid_arg
  fail_if (kem_mask != 0) invalid_arg
