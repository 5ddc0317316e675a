-- ===== src/Exchange/Frame/Exchanges.antt =====
-- The exchanges, from one transfer up to wolfSPDM_ClearExchange and wolfSPDM_SecuredExchange
-- (src/spdm_context.c, src/spdm_chunk.c, src/spdm_secured.c).
use wolf_spdm.Context.{Bytes, Ctx, ok, Env, is_tcg_mode}
use wolf_spdm.Base.{
  ℕ, ◌≡◌, refl, Bool, arith, zero, suc, ◌+◌, true, false, [], leb, length, ◌&&◌, ltb, ◌!=◌, ◌%◌,
  not, ◌==◌, get_or, min,
}
use wolf_spdm.Types.{chunk, not_connected, data_transfer_size_max, peer_error, max_msg_size}
use wolf_spdm.Secured.{
  decrypt_record, encrypt_record, encrypt_tcg, decrypt_tcg, encrypt_mctp, decrypt_mctp, seal_record,
  open_record, secured_xfer, encrypt_internal, decrypt_internal, record_buf_size,
}
use wolf_spdm.Transport.{send_receive, tcg_send_receive, call_io, tcg_unframe}
use wolf_spdm.Crypto.{get_random}
use wolf_spdm.Chunk.{
  chunk_send_round, chunk_xfer, chunk_get_loop, chunk_exchange, chunk_send_loop, chunk_get_round,
  chunk_send_ack, chunk_peer_error, chunk_request, chunk_send, chunk_copy_out, chunk_get,
  chunk_limit, is_large_response, chunk_on, chunk_seq_ok, chunk_get_msg, chunk_send_msg, chunk_take,
  chunk_accept,
}
use wolf_spdm.Exchange.{secured_exchange, clear_exchange, no_session, close_run}
use wolf_spdm.Exchange.Frame.{
  Keeps, frame, frame-if, Keeps->>=, Keeps-lift, Keeps-if, Keeps-more, Keeps-or_fail, Keeps-none,
  Keeps-gets, Keeps-fail_if, Keeps-modify,
}

module _ (env : Env) where
  pub Keeps-send_receive : (tx : Bytes) (room : ℕ) → Keeps (send_receive env tx room)
  unfolding send_receive tcg_send_receive call_io tcg_unframe
  Keeps-send_receive tx room = record { kept = λ c. ground arith }

  pub Keeps-encrypt_record :
      (app_msg : Bool) (plain : Bytes) (size : ℕ) → Keeps (encrypt_record env app_msg plain size)
  unfolding encrypt_record encrypt_tcg encrypt_mctp seal_record get_random
  Keeps-encrypt_record app_msg plain size = record { kept = λ c. ground arith }

  frame-open_record :
      (header ct tag : Bytes) (seq : ℕ) (c : Ctx)
      → frame (open_record env header ct tag seq c).1 ≡ frame c
  unfolding open_record
  frame-open_record header ct tag seq c = ground arith

  Keeps-decrypt_tcg : (enc : Bytes) (size : ℕ) → Keeps (decrypt_tcg env enc size)
  unfolding decrypt_tcg
  Keeps-decrypt_tcg enc size = record { kept = λ c. grind (arith, frame-open_record) }

  Keeps-decrypt_mctp :
      (app_msg : Bool) (enc : Bytes) (size : ℕ) → Keeps (decrypt_mctp env app_msg enc size)
  unfolding decrypt_mctp
  Keeps-decrypt_mctp app_msg enc size = record { kept = λ c. grind (arith, frame-open_record) }

  pub Keeps-decrypt_record :
      (app_msg : Bool) (enc : Bytes) (size : ℕ) → Keeps (decrypt_record env app_msg enc size)
  unfolding decrypt_record
  Keeps-decrypt_record app_msg enc size = Keeps->>= (Keeps-gets {f = λ c. c.mode}) λ mode.
      Keeps-if (is_tcg_mode mode) (Keeps-decrypt_tcg enc size) (Keeps-decrypt_mctp app_msg enc size)

  pub Keeps-secured_xfer : (cmd : Bytes) (size : ℕ) → Keeps (secured_xfer env cmd size)
  unfolding secured_xfer encrypt_internal decrypt_internal
  Keeps-secured_xfer cmd size = Keeps->>= (Keeps-encrypt_record false cmd record_buf_size) λ sealed.
      Keeps->>= (Keeps-send_receive sealed record_buf_size) λ rx. Keeps-decrypt_record false rx size

  Keeps-chunk_xfer :
      (secured : Bool) (req : Bytes) (size : ℕ) → Keeps (chunk_xfer env secured req size)
  unfolding chunk_xfer
  Keeps-chunk_xfer secured req size =
      Keeps-if secured (Keeps-secured_xfer req size) (Keeps-send_receive req size)

  Keeps-chunk_send_ack :
      (version handle seq : ℕ) (all_sent : Bool) (room : ℕ) (ack : Bytes)
      → Keeps (chunk_send_ack version handle seq all_sent room ack)
  unfolding chunk_send_ack chunk_peer_error chunk_copy_out
  Keeps-chunk_send_ack version handle seq all_sent room ack = record { kept = λ c. ground arith }

  Keeps-chunk_peer_error : (msg : Bytes) → Keeps (chunk_peer_error msg)
  unfolding chunk_peer_error
  Keeps-chunk_peer_error msg = record { kept = λ c. ground arith }

  Keeps-chunk_send_round :
      (secured : Bool) (limit handle : ℕ) (req : Bytes) (room sent seq : ℕ)
      → Keeps (chunk_send_round env secured limit handle req room sent seq)
  unfolding chunk_send_round
  Keeps-chunk_send_round secured limit handle req room sent seq =
      Keeps->>= (Keeps-gets {f = λ c. c.spdm_version}) λ version.
        Keeps->>= (Keeps-fail_if (not (chunk_seq_ok version seq)) chunk) λ checked.
          Keeps->>=
            (Keeps-chunk_xfer secured
              (chunk_send_msg version handle req sent seq (chunk_take limit (length req) sent seq))
              data_transfer_size_max)
            λ ack.
              Keeps-chunk_send_ack version handle seq
                (sent + chunk_take limit (length req) sent seq == length req) room ack

  Keeps-chunk_send_loop :
      (f : ℕ) (secured : Bool) (limit handle : ℕ) (req : Bytes) (room sent seq : ℕ)
      → Keeps (chunk_send_loop env f secured limit handle req room sent seq)
  unfolding chunk_send_loop
  Keeps-chunk_send_loop zero secured limit handle req room sent seq = Keeps-lift
  Keeps-chunk_send_loop (suc f) secured limit handle req room sent seq =
      Keeps->>= (Keeps-chunk_send_round secured limit handle req room sent seq) λ done.
        Keeps-none done (
          Keeps-chunk_send_loop f secured limit handle req room
            (sent + chunk_take limit (length req) sent seq) (seq + 1))

  Keeps-chunk_get_round :
      (secured : Bool) (handle room total : ℕ) (acc : Bytes) (seq : ℕ)
      → Keeps (chunk_get_round env secured handle room total acc seq)
  unfolding chunk_get_round
  Keeps-chunk_get_round secured handle room total acc seq =
      Keeps->>= (Keeps-gets {f = λ c. c.spdm_version}) λ version.
        Keeps->>= (Keeps-fail_if (not (chunk_seq_ok version seq)) chunk) λ checked.
          Keeps->>=
            (Keeps-chunk_xfer secured (chunk_get_msg version handle seq) data_transfer_size_max)
            λ msg. Keeps->>= (Keeps-chunk_peer_error msg) λ peer.
              Keeps->>= (Keeps-fail_if peer peer_error)
                λ passed. Keeps-lift {r = chunk_accept version handle room seq total acc msg}

  Keeps-chunk_get_loop :
      (f : ℕ) (secured : Bool) (handle room total : ℕ) (acc : Bytes) (seq : ℕ)
      → Keeps (chunk_get_loop env f secured handle room total acc seq)
  unfolding chunk_get_loop
  Keeps-chunk_get_loop zero secured handle room total acc seq = Keeps-lift
  Keeps-chunk_get_loop (suc f) secured handle room total acc seq =
      Keeps->>= (Keeps-chunk_get_round secured handle room total acc seq) λ got.
        Keeps-more got.2 got.1 (chunk_get_loop env f secured handle room got.0 got.1 (seq + 1))
          (Keeps-chunk_get_loop f secured handle room got.0 got.1 (seq + 1))

  Keeps-chunk_send :
      (secured : Bool) (limit : ℕ) (req : Bytes) (room : ℕ)
      → Keeps (chunk_send env secured limit req room)
  unfolding chunk_send
  Keeps-chunk_send secured limit req room =
      Keeps->>= (Keeps-gets {f = λ c. c.chunk_handle}) λ handle.
        Keeps->>=
          (Keeps-modify (λ c. record c { chunk_handle = (c.chunk_handle + 1) % 256 }) (λ c. refl))
          λ moved.
            Keeps->>= (Keeps-chunk_send_loop (suc (length req)) secured limit handle req room 0 0)
              λ done. Keeps-or_fail done chunk

  Keeps-chunk_get : (secured : Bool) (handle room : ℕ) → Keeps (chunk_get env secured handle room)
  unfolding chunk_get
  Keeps-chunk_get secured handle room =
      Keeps->>=
        (Keeps-chunk_get_loop (suc (min room max_msg_size)) secured handle (min room max_msg_size) 0
          [] 0)
        λ done. Keeps-or_fail done chunk

  Keeps-chunk_request :
      (secured : Bool) (req : Bytes) (room : ℕ) → Keeps (chunk_request env secured req room)
  unfolding chunk_request
  Keeps-chunk_request secured req room = record {
    kept = λ c.
        frame-if (leb (length req) (chunk_limit c)) _ _ c
          ((Keeps-chunk_xfer secured req room).kept c)
          (frame-if (c.limits.max_spdm_msg_size != 0 && ltb c.limits.max_spdm_msg_size (length req))
            _ _ c refl ((Keeps-chunk_send secured (chunk_limit c) req room).kept c));
  }

  pub Keeps-chunk_exchange :
      (secured : Bool) (req : Bytes) (room : ℕ) → Keeps (chunk_exchange env secured req room)
  unfolding chunk_exchange
  Keeps-chunk_exchange secured req room = Keeps->>= (Keeps-chunk_request secured req room) λ rsp.
      Keeps->>= (Keeps-gets {f = λ c. c.spdm_version}) λ version.
        Keeps-if (is_large_response version rsp) (Keeps-chunk_get secured (get_or rsp 4 0) room)
          (Keeps-lift {r = ok rsp})

  -- clear_exchange, whichever way it ends, leaves the state, the mode, the version, the ephemeral key,
  -- the transcript, Ct, TH1, the keys, the session ID, the identity keys, the peer's limits, the PSK,
  -- the certificates and M1 alone.
  pub frame-clear_exchange :
      (req : Bytes) (room : ℕ) (c : Ctx) → frame (clear_exchange env req room c).1 ≡ frame c
  unfolding clear_exchange
  frame-clear_exchange req room c =
      frame-if (chunk_on c) _ _ c ((Keeps-chunk_exchange false req room).kept c)
        (frame-if _ _ _ c refl ((Keeps-send_receive req room).kept c))

  -- secured_exchange, whichever way it ends, leaves the same alone.
  pub frame-secured_exchange :
      (cmd : Bytes) (size : ℕ) (c : Ctx) → frame (secured_exchange env cmd size c).1 ≡ frame c
  unfolding secured_exchange
  frame-secured_exchange cmd size =
      (Keeps->>= (Keeps-gets {f = no_session}) λ closed.
        Keeps->>= (Keeps-fail_if closed not_connected) λ passed.
          Keeps->>=
            (Keeps-modify
              (λ c. record c {
                attest = record (c.attest) { l1l2_state = close_run c.attest.l1l2_state };
              })
              (λ c. refl))
            λ moved. Keeps->>= (Keeps-gets {f = chunk_on}) λ chunked.
              Keeps-if chunked (Keeps-chunk_exchange true cmd size)
                (Keeps-secured_xfer cmd size)).kept
