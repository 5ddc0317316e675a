-- ===== src/Message.antt =====
-- The shared builders, parsers and argument checks of src/spdm_msg.c, and its keep-alive messages.
-- A builder is given the size of its buffer and returns the message; a parser returns nothing and
-- changes the context.
pub mod Commit
pub mod Version
pub mod Signing
pub mod KeyExchange
pub mod Finish
use wolf_spdm.Base.{
  ℕ, [], ◌∷◌, Bool, ◌||◌, ◌&&◌, ltb, leb, ◌==◌, ◌!=◌, length, get_or, if◌then◌else◌,
}
use wolf_spdm.Types.Code
use wolf_spdm.Types.{version_10, Error, invalid_arg, buffer_small, peer_error, key_update}
use wolf_spdm.Context.{Bytes, Env, ok, err, M, fail_if, gets, pure, ◌>>=◌, ◌>>◌}
use wolf_spdm.Crypto.{get_random}

-- wolfSPDM_BuildGetVersion: GET_VERSION always uses version 1.0.
unfoldable pub build_get_version : ℕ → M Bytes
build_get_version size = do
  fail_if (ltb size 4) buffer_small
  pure (version_10 ∷ Code.get_version ∷ 0 ∷ 0 ∷ [])

-- wolfSPDM_BuildSimpleMsg.
unfoldable pub build_simple_msg : ℕ → ℕ → M Bytes
build_simple_msg msg_code size = do
  fail_if (ltb size 4) buffer_small
  version ← gets λ c. c.spdm_version
  pure (version ∷ msg_code ∷ 0 ∷ 0 ∷ [])

-- wolfSPDM_BuildEndSession and wolfSPDM_BuildHeartbeat.
unfoldable pub build_end_session : ℕ → M Bytes
build_end_session = build_simple_msg Code.end_session

unfoldable pub build_heartbeat : ℕ → M Bytes
build_heartbeat = build_simple_msg Code.heartbeat

-- wolfSPDM_CheckError without its output.
unfoldable pub check_error : Bytes → Bool
check_error buf = leb 4 (length buf) && get_or buf 1 0 == Code.error

-- SPDM_CHECK_PARSE_OR_ERROR_ARGS: a 4-byte SPDM ERROR passes so that the response check reports it.
unfoldable pub check_parse_or_error_args : Bytes → ℕ → M (Unit {0})
check_parse_or_error_args buf min_size =
    fail_if (ltb (length buf) 4 || (ltb (length buf) min_size && get_or buf 1 0 != Code.error))
      invalid_arg

-- SPDM_CHECK_RESPONSE.
unfoldable pub check_response : Bytes → ℕ → Error → M (Unit {0})
check_response buf expected fallback c =
    if get_or buf 1 0 != expected
    then (if check_error buf
        then (err peer_error, record c { last_peer_error_code = get_or buf 2 0 })
        else (err fallback, c))
    else (ok tt, c)

-- wolfSPDM_ParseHeartbeatAck.
unfoldable pub parse_heartbeat_ack : Bytes → M (Unit {0})
parse_heartbeat_ack buf = do
  fail_if (ltb (length buf) 4) invalid_arg
  check_response buf Code.heartbeat_ack peer_error
  version ← gets λ c. c.spdm_version
  fail_if (length buf != 4 || get_or buf 0 0 != version) peer_error

-- wolfSPDM_ParseKeyUpdateAck.
unfoldable pub parse_key_update_ack : Bytes → ℕ → ℕ → M (Unit {0})
parse_key_update_ack buf operation tag = do
  fail_if (ltb (length buf) 4) invalid_arg
  check_response buf Code.key_update_ack key_update
  version ← gets λ c. c.spdm_version
  fail_if
      (length buf != 4
        || (get_or buf 0 0 != version || (get_or buf 2 0 != operation || get_or buf 3 0 != tag)))
      key_update

-- wolfSPDM_BuildKeyUpdate: the message, and the random tag that its ACK must echo.
unfoldable pub build_key_update : Env → ℕ → ℕ → M (Bytes × ℕ)
build_key_update env size operation = do
  fail_if (ltb size 4) buffer_small
  tag ← get_random env 1
  version ← gets λ c. c.spdm_version
  pure (version ∷ Code.key_update ∷ operation ∷ get_or tag 0 0 ∷ [], get_or tag 0 0)
