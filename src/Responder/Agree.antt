-- ===== src/Responder/Agree.antt =====
-- The requester and the responder of one connection agree (src/spdm_responder.c with src/spdm_msg.c,
-- src/spdm_tcg.c and src/spdm_psk.c).
pub mod Negotiation
pub mod PskFinish
pub mod PskKeys
pub mod PskExchange
pub mod PskSession
