-- ===== src/Tests/Chunks.antt =====
-- Chunked transfers, exchanges and the transcript on the concrete environment.
use wolf_spdm.Context.{Bytes, ok}
use wolf_spdm.Base.{ℕ, suc, ◌≤◌, min, ◌≡◌, ◌≢◌, false, none, [], ◌∷◌, arith, length}
use wolf_spdm.Exchange.Frame.Exchanges.{frame-clear_exchange, frame-secured_exchange}
use wolf_spdm.Exchange.Frame.{frame}
use wolf_spdm.Chunk.{chunk_get_loop, chunk_send_loop, chunk_get}
use wolf_spdm.Exchange.{secured_exchange, clear_exchange}
use wolf_spdm.Tests.{toy_ctx, toy_env}
use wolf_spdm.Types.{max_msg_size}
use wolf_spdm.Chunk.Send.{chunk_send_loop_ends}
use wolf_spdm.Chunk.Get.{chunk_get_bounded}

abbrev one : Bytes
one = 1 ∷ []

abbrev nothing : ℕ
nothing = 0

chunk_get_bounded_example :
    ((chunk_get_loop toy_env
        (suc (min 10 max_msg_size))
        false
        0
        (min 10 max_msg_size)
        0
        []
        0
        toy_ctx).0
      ≢ ok none)
    × ((msg : Bytes)
        → (chunk_get toy_env false 0 10 toy_ctx).0 ≡ ok msg
        → (length msg ≤ 10) × (length msg ≤ max_msg_size))
chunk_get_bounded_example = chunk_get_bounded toy_env false 0 10 toy_ctx

chunk_send_loop_ends_example :
    (chunk_send_loop toy_env 3 false 32 0 (1 ∷ 2 ∷ 3 ∷ []) 10 0 0 toy_ctx).0 ≢ ok none
chunk_send_loop_ends_example =
    chunk_send_loop_ends toy_env 3 false 32 0 (1 ∷ 2 ∷ 3 ∷ []) 10 0 0 toy_ctx (omega arith)
      (omega arith) (omega arith) (omega arith)

frame-clear_exchange_example : frame (clear_exchange toy_env (1 ∷ []) 10 toy_ctx).1 ≡ frame toy_ctx
frame-clear_exchange_example = frame-clear_exchange toy_env (1 ∷ []) 10 toy_ctx

frame-secured_exchange_example :
    frame (secured_exchange toy_env (1 ∷ []) 10 toy_ctx).1 ≡ frame toy_ctx
frame-secured_exchange_example = frame-secured_exchange toy_env (1 ∷ []) 10 toy_ctx
