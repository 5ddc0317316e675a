-- ===== src/Types/Code.antt =====
-- The request and response codes of wolfspdm/spdm_types.h.
use wolf_spdm.Base.{ℕ}

abbrev pub get_version : ℕ
get_version = 0x84

abbrev pub version : ℕ
version = 0x04

abbrev pub key_exchange : ℕ
key_exchange = 0xE4

abbrev pub key_exchange_rsp : ℕ
key_exchange_rsp = 0x64

abbrev pub finish : ℕ
finish = 0xE5

abbrev pub finish_rsp : ℕ
finish_rsp = 0x65

abbrev pub end_session : ℕ
end_session = 0xEC

abbrev pub end_session_ack : ℕ
end_session_ack = 0x6C

abbrev pub error : ℕ
error = 0x7F

abbrev pub heartbeat : ℕ
heartbeat = 0xE8

abbrev pub heartbeat_ack : ℕ
heartbeat_ack = 0x68

abbrev pub key_update : ℕ
key_update = 0xE9

abbrev pub key_update_ack : ℕ
key_update_ack = 0x69

abbrev pub chunk_send : ℕ
chunk_send = 0x85

abbrev pub chunk_get : ℕ
chunk_get = 0x86

abbrev pub chunk_send_ack : ℕ
chunk_send_ack = 0x05

abbrev pub chunk_response : ℕ
chunk_response = 0x06

abbrev pub get_capabilities : ℕ
get_capabilities = 0xE1

abbrev pub capabilities : ℕ
capabilities = 0x61

abbrev pub negotiate_algorithms : ℕ
negotiate_algorithms = 0xE3

abbrev pub algorithms : ℕ
algorithms = 0x63

abbrev pub get_digests : ℕ
get_digests = 0x81

abbrev pub digests : ℕ
digests = 0x01

abbrev pub get_certificate : ℕ
get_certificate = 0x82

abbrev pub certificate : ℕ
certificate = 0x02

abbrev pub get_measurements : ℕ
get_measurements = 0xE0

abbrev pub measurements : ℕ
measurements = 0x60

abbrev pub challenge : ℕ
challenge = 0x83

abbrev pub challenge_auth : ℕ
challenge_auth = 0x03

abbrev pub psk_exchange : ℕ
psk_exchange = 0xE6

abbrev pub psk_exchange_rsp : ℕ
psk_exchange_rsp = 0x66

abbrev pub psk_finish : ℕ
psk_finish = 0xE7

abbrev pub psk_finish_rsp : ℕ
psk_finish_rsp = 0x67

abbrev pub vendor_defined_request : ℕ
vendor_defined_request = 0xFE
