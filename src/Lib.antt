-- ===== src/Lib.antt =====
-- wolfSPDM: a requester for SPDM 1.2 to 1.4 sessions, over MCTP or the TCG binding, and a responder
-- for the TCG binding.
--
-- The program keeps one context per connection. A handshake (GET_VERSION, the
-- negotiation and certificates of the standard profile, KEY_EXCHANGE and FINISH, or PSK_EXCHANGE)
-- adds each message to a transcript, derives the session keys from its hash, and leaves a session
-- whose requests go out as AES-GCM records under a sequence number for each direction. Messages
-- that do not fit one transfer are chunked. The modules follow the sources:
--
--   Base         names passed on from the libraries, Boolean tests on numbers, byte lists.
--   Types        wolfspdm/spdm_types.h, wolfspdm/spdm_error.h, wolfspdm/spdm_tcg.h: constants, modes
--                and error codes; Types/Code has the request and response codes.
--   Context      struct WOLFSPDM_CTX of src/spdm_internal.h as a record, what the library calls
--                outside itself as the record Env, and the monad M of functions that take the
--                context and return a status with the context.
--   Bytes        the byte-order helpers, wolfSPDM_BuildIV and wolfSPDM_ConstCompare of
--                src/spdm_internal.h.
--   Transcript   src/spdm_transcript.c.
--   Transport    wolfSPDM_SendReceive of src/spdm_context.c and the framing of src/spdm_tcg.c.
--   Crypto       src/spdm_crypto.c for P-384 and SHA-384.
--   Kdf          src/spdm_kdf.c: the key schedule.
--   Secured      the records of src/spdm_secured.c: sealing, opening and one exchange of them.
--   Chunk        CHUNK_SEND and CHUNK_GET of src/spdm_chunk.c.
--   Exchange     wolfSPDM_ClearExchange, wolfSPDM_SecuredExchange and wolfSPDM_ExchangeMsg.
--   Message      the builders and parsers of src/spdm_msg.c, with child modules for VERSION, the
--                signatures, KEY_EXCHANGE and FINISH.
--   Running      the running L1/L2 and M1 hashes of src/spdm_attest.c.
--   Lifecycle    the rest of src/spdm_context.c: creation, configuration, connect and disconnect, in
--                Status the getters, the release and the error strings.
--   Session      src/spdm_session.c: the handshake steps, heartbeat and key update.
--   AppData      the application-data API of src/spdm_secured.c.
--   Standard     src/spdm_standard.c, the standard requester: Vca for GET_CAPABILITIES and
--                NEGOTIATE_ALGORITHMS, Certificate for GET_DIGESTS and GET_CERTIFICATE, Chain for
--                the validation of the chain, Connect for the handshake.
--   Attest       the rest of src/spdm_attest.c: Measurements and Challenge.
--   Psk          src/spdm_psk.c.
--   Tcg          the vendor-defined messages of src/spdm_tcg.c, and in Handshake its handshake.
--   Vendor       the TPM vendor adapters in src/vendor.
--   Connect      wolfSPDM_Connect of src/spdm_context.c over the three handshakes.
--   Responder    src/spdm_responder.c: its context with the operations on it; in Clear the answers to
--                the negotiation and the records at its end, in Exchange and Handshake the key
--                exchanges and the two finishes, in Command the vendor-defined commands, in Dispatch
--                the dispatchers and wolfSPDM_RespHandleMessage. Follows has the rules by which a
--                relation between the contexts before and after goes through the dispatchers; Agree
--                and Records set the responder against the requester.
--   Tests        a concrete environment and the theorems at concrete inputs.
--
-- A C function wolfSPDM_FooBar is foo_bar here, with the error codes as values: `ok` for
-- WOLFSPDM_SUCCESS and `err` for the others. A large function is split where its parts have a name
-- of their own: wolfSPDM_EncryptRecord into its two formats and the AES-GCM step, the chunk loops
-- into one round and the loop, wolfSPDM_ParseKeyExchangeRsp into its checks, the responder's proof
-- and the commit.
--
-- The model's conventions. A buffer with its length is the list of its bytes, and a size limit is a
-- number; a NULL guard has no counterpart. Integers are natural numbers with the wrap-around of
-- their C type written out. The I/O callback is a function of the requests sent before, the request
-- and the room, so that a peer may answer the same request in different ways; wolfCrypt's functions
-- are parameters too, and `none` is a nonzero return code. What the theorems rely on of them is a
-- hypothesis of the theorem. The chunk loops run on fuel: CHUNK_SEND on one round more than the
-- request has bytes, which is enough since each round sends at least one byte, and CHUNK_GET on one
-- round more than the buffer has bytes, which is enough since each chunk has at least one byte. The
-- GET_CERTIFICATE loop has one pass more than the chain's buffer has bytes, and the walk over the
-- chain as much fuel as the chain has bytes. wolfCrypt's certificate parser is the record Asn of
-- Standard/Chain. The responder's TPM callback is the parameter Tpm, a function of the commands given
-- to it before, the command and the room; the monad R is M with the responder's context.
--
-- The build modelled has the TCG binding, the vendor adapters, PSK mode, certificates,
-- measurements, challenge, chunking, heartbeat and key update on, and ML-DSA and ML-KEM off.
-- Not modelled: the ML-DSA and ML-KEM code; debug output, heap allocation, and the wiping of local and
-- scratch buffers, which no caller can observe.
pub mod Base
pub mod Types
pub mod Context
pub mod Bytes
pub mod Transcript
pub mod Transport
pub mod Crypto
pub mod Kdf
pub mod Secured
pub mod Chunk
pub mod Exchange
pub mod Message
pub mod Lifecycle
pub mod Running
pub mod Standard
pub mod Attest
pub mod Psk
pub mod Tcg
pub mod Vendor
pub mod Responder
pub mod Connect
pub mod Session
pub mod AppData
pub mod Tests
