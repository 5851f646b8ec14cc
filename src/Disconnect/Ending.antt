-- ===== src/Disconnect/Ending.antt =====
-- The last DISCONNECT packet of a client.
use async_mqtt.Base.{false, ℕ, zero, suc, true, ◌≡◌, ◌∙◌, ap, List, [], ◌∷◌, ◌++◌, append_assoc}
use async_mqtt.ControlPacket.{ControlPacket}
use async_mqtt.Replies.{Error, success, try_again}
use async_mqtt.Errors.{io}
use async_mqtt.Disconnect.{
  Call, async_send_terminal, async_shutdown, cancel, completes, on_disconnect, done, handle, run,
}

-- So many times try_again, then the packet was written and the stream was shut down with a code.
unfoldable pub losing : ℕ → Error → List Error
losing zero ec = success ∷ ec ∷ []
losing (suc n) ec = try_again ∷ losing n ec

unfoldable pub sends : ℕ → ControlPacket → List Call
sends zero disconnect = []
sends (suc n) disconnect = async_send_terminal disconnect.packet ∷ sends n disconnect

-- A terminal DISCONNECT packet is sent again after every loss of the connection until it is written;
-- then the stream is shut down, the client is cancelled, and the operation completes with the code of
-- the shutdown.
pub run-losing :
    (n : ℕ) (ec : Error) (disconnect : ControlPacket) (calls : List Call)
    → run true (losing n ec) (on_disconnect disconnect, calls) ≡ (
      done,
      calls ++ (sends n disconnect ++ (async_shutdown ∷ cancel ∷ completes false (io ec) ∷ [])),
    )
unfolding run losing sends handle
run-losing zero ec disconnect calls =
    ap (λ cs. (done, cs)) (append_assoc calls (async_shutdown ∷ []) _)
run-losing (suc n) ec disconnect calls =
    run-losing n ec disconnect (calls ++ (async_send_terminal disconnect.packet ∷ []))
    ∙ ap (λ cs. (done, cs)) (append_assoc calls (async_send_terminal disconnect.packet ∷ []) _)
