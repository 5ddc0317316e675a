-- ===== src/Lifecycle/Status.antt =====
-- The rest of the public API of src/spdm_context.c: release, caller-provided storage, the getters and
-- the error strings.
use Prim.Native.String.{String}
use wolf_spdm.Base.{ℕ, Bool, ltb}
use wolf_spdm.Context.{Env, Ctx, M, Result, ok, err, fail_if, ◌>>◌}
use wolf_spdm.Lifecycle.{zero_ctx, init, get_negotiated_version}
use wolf_spdm.Types.{Mode, Error, buffer_small}

-- wolfSPDM_Free: what the context holds is zero afterwards, whatever it was.
unfoldable pub free : Ctx → Ctx
free c = zero_ctx

-- wolfSPDM_InitStatic into `size` bytes, where a context has `ctx_size`.
unfoldable pub init_static : ℕ → Env → ℕ → M (Unit {0})
init_static ctx_size env size = do fail_if (ltb size ctx_size) buffer_small; init env

-- wolfSPDM_HasIO.
unfoldable pub has_io : Ctx → Bool
has_io c = c.wire.has_io

-- wolfSPDM_GetLastPeerError.
unfoldable pub get_last_peer_error : Ctx → ℕ
get_last_peer_error c = c.last_peer_error_code

-- wolfSPDM_GetMode.
unfoldable pub get_mode : Ctx → Mode
get_mode c = c.mode

-- wolfSPDM_GetVersion_Negotiated.
unfoldable pub get_version_negotiated : Ctx → ℕ
get_version_negotiated c = get_negotiated_version c

-- wolfSPDM_GetConnectionHandle.
unfoldable pub get_connection_handle : Ctx → ℕ
get_connection_handle c = c.wire.connection_handle

-- wolfSPDM_GetFipsIndicator.
unfoldable pub get_fips_indicator : Ctx → ℕ
get_fips_indicator c = c.wire.fips_indicator

-- wolfSPDM_GetErrorString on the codes that the library returns.
unfoldable pub error_string : Error → String
error_string Error.invalid_arg = "Invalid argument"
error_string Error.buffer_small = "Buffer too small"
error_string Error.bad_state = "Invalid state"
error_string Error.version_mismatch = "Version mismatch"
error_string Error.crypto_fail = "Crypto operation failed"
error_string Error.bad_signature = "Bad signature"
error_string Error.bad_hmac = "HMAC verification failed"
error_string Error.io_fail = "I/O failure"
error_string Error.timeout = "Timeout"
error_string Error.peer_error = "Peer error response"
error_string Error.decrypt_fail = "Decryption failed"
error_string Error.sequence = "Sequence number error"
error_string Error.not_connected = "Not connected"
error_string Error.already_init = "Already initialized"
error_string Error.no_memory = "Memory allocation failed"
error_string Error.session_invalid = "Invalid session"
error_string Error.key_exchange = "Key exchange failed"
error_string Error.not_available = "Feature not compiled in"
error_string Error.framing = "Framing violation"
error_string Error.not_impl = "Not implemented"
error_string Error.cert_fail = "Certificate check failed"
error_string Error.caps_mismatch = "Capability mismatch"
error_string Error.algo_mismatch = "Algorithm mismatch"
error_string Error.cert_parse = "Certificate parse failed"
error_string Error.key_update = "Key update failed"
error_string Error.measurement = "Measurement response invalid"
error_string Error.challenge = "Challenge response invalid"
error_string Error.chunk = "Chunked transfer failed"

unfoldable pub get_error_string : Result (Unit {0}) → String
get_error_string (ok _) = "Success"
get_error_string (err e) = error_string e
