-- ===== src/Tests/Sessions.antt =====
-- Negotiation, the key schedule and teardown on the concrete environment.
use wolf_spdm.Context.{Bytes, Ctx, ok}
use wolf_spdm.Base.{
  ℕ, ◌+◌, ◌≤◌, ◌≡◌, refl, true, false, some, [], ◌∷◌, ◌++◌, arith, length, drop, replicate, take,
  ◌≢◌,
}
use wolf_spdm.Message.Signing.{
  verify_rsp_sig, build_signed_msg, build_signed_hash, signing_prefixes, signing_prefix,
}
use wolf_spdm.Tests.{toy_ctx, toy_env}
use wolf_spdm.Lifecycle.{set_requester_session_id, bad_session_id}
use wolf_spdm.Types.{state_version, hash_size, state_key_ex, ecc_sig_size}
use wolf_spdm.Transport.{is_clear}
use wolf_spdm.Message.Version.{parse_version, entry_count, max_ver, highest_version, improves}
use wolf_spdm.Kdf.{
  derive_handshake_keys, compute_verify_data, bin_concat, bin_concat_prefix, hkdf_expand_label,
  derive_key_iv_pair, derive_handshake_chain, derive_from_handshake_secret, derive_handshake_chain,
  hkdf_expand_label, derive_key_iv_pair,
}
use wolf_spdm.Message.Version.Negotiation.{Offers, IsSupported, parse_version_negotiates}
use wolf_spdm.Message.{check_parse_or_error_args, check_response}
use wolf_spdm.Bytes.{set32le, same_bytes, get16le}
use wolf_spdm.Crypto.{extract_ecc_point, verify_signature, compute_shared_secret, left_pad_to_size}
use wolf_spdm.Transcript.{sha384_hash, transcript_add, overflows, transcript_hash}
use wolf_spdm.Lifecycle.Teardown.{session_id-is_clear}
use wolf_spdm.Message.KeyExchange.{parse_key_exchange_rsp, sig_offset, check_responder}
use wolf_spdm.Message.KeyExchange.Authentic.{Signed, parse_key_exchange_rsp_authentic}

-- VERSION with SPDM 1.1 and 1.2.
abbrev toy_version : Bytes
toy_version = 0x10 ∷ 0x04 ∷ 0 ∷ 0 ∷ 0 ∷ 2 ∷ 0 ∷ 0x11 ∷ 0 ∷ 0x12 ∷ []

toy_parse :
    parse_version toy_version toy_ctx
    ≡ (ok tt, record (toy_ctx) { state = state_version; spdm_version = 0x12 })
unfolding parse_version check_parse_or_error_args check_response entry_count max_ver highest_version
    improves
toy_parse = refl

parse_version_negotiates_example :
    (state_version ≡ state_version)
    × Offers (drop 6 toy_version) (entry_count toy_version) 0x12
    × IsSupported (max_ver toy_ctx) 0x12
    × ((v : ℕ)
        → Offers (drop 6 toy_version) (entry_count toy_version) v
        → IsSupported (max_ver toy_ctx) v
        → v ≤ 0x12)
parse_version_negotiates_example =
    parse_version_negotiates toy_version toy_ctx
      (record (toy_ctx) { state = state_version; spdm_version = 0x12 }) toy_parse

toy_session_id : set_requester_session_id 1 toy_ctx ≡ (ok tt, toy_ctx)
unfolding set_requester_session_id bad_session_id
toy_session_id = refl

session_id-is_clear_example : is_clear (set32le toy_ctx.session_id ++ []) ≡ false
session_id-is_clear_example =
    session_id-is_clear toy_ctx toy_ctx toy_ctx 1 2 [] toy_session_id refl (omega arith)

-- A requester with a pinned responder key.
abbrev toy_pinned : Ctx
toy_pinned = record (toy_ctx) {
  identity = record (toy_ctx.identity) { rsp_pub_key = replicate 96 2; has_rsp_pub_key = true };
}

-- KEY_EXCHANGE_RSP without opaque data, for a requester that holds an ephemeral key.
abbrev toy_rsp : Bytes
toy_rsp =
    0x12
    ∷ 0x64
    ∷ 0
    ∷ 0
    ∷ 2
    ∷ 0
    ∷ 0
    ∷ 0
    ∷ (replicate 32 0 ++ (replicate 96 3 ++ (0 ∷ 0 ∷ (replicate 96 1 ++ replicate 48 48))))

abbrev toy_keyed : Ctx
toy_keyed = record (toy_pinned) { ephemeral = some 0 }

toy_committed : (parse_key_exchange_rsp toy_env toy_rsp toy_keyed).1.state ≡ state_key_ex
unfolding parse_key_exchange_rsp check_parse_or_error_args check_response sig_offset check_responder
    transcript_add overflows transcript_hash sha384_hash verify_rsp_sig build_signed_hash
    build_signed_msg verify_signature extract_ecc_point compute_shared_secret left_pad_to_size
    derive_handshake_keys derive_from_handshake_secret derive_handshake_chain derive_key_iv_pair
    hkdf_expand_label compute_verify_data same_bytes get16le signing_prefixes signing_prefix
    bin_concat bin_concat_prefix
toy_committed = refl

toy_uncommitted : toy_keyed.state ≢ state_key_ex
toy_uncommitted = omega arith

parse_key_exchange_rsp_authentic_example :
    ((parse_key_exchange_rsp toy_env toy_rsp toy_keyed).0 ≡ ok tt)
    × (sig_offset toy_rsp + ecc_sig_size + hash_size ≤ length toy_rsp)
    × (digest : Bytes) × (toy_env.sha384 (toy_keyed.transcript ++ take (sig_offset toy_rsp) toy_rsp)
        ≡ some digest)
    × Signed toy_env toy_keyed digest (take ecc_sig_size (drop (sig_offset toy_rsp) toy_rsp))
parse_key_exchange_rsp_authentic_example =
    parse_key_exchange_rsp_authentic toy_env toy_rsp toy_keyed toy_uncommitted toy_committed
