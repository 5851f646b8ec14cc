-- ===== src/Tests/Background.antt =====
-- Disconnecting and the operations behind a client, at concrete answers.
use async_mqtt.Base.{true, false, ◌≡◌, [], ◌∷◌, ◌++◌, All, none, arith}
use async_mqtt.Codec.Property.{connack_props, connect_props, disconnect_props}
use async_mqtt.Context.{Context}
use async_mqtt.ControlPacket.{ControlPacket}
use async_mqtt.Replies.{Replies, success, try_again}
use async_mqtt.Errors.{io}
use async_mqtt.Disconnect
use async_mqtt.Disconnect.{
  DisconnectContext, max_packet_size, on_disconnect, done, async_shutdown, cancel, completes,
}
use async_mqtt.Disconnect.Limits.{IsWithin, disconnect-IsWithin}
use async_mqtt.Disconnect.Ending.{losing, sends, run-losing}
use async_mqtt.Operation.{stored_at}
use async_mqtt.Tests.Library.{library}

abbrev last_words : DisconnectContext
last_words = record { reason_code = 0; props = disconnect_props; terminal = true }

disconnect-IsWithin_example :
    All
      (IsWithin (max_packet_size connack_props))
      (Disconnect.run true
        (try_again ∷ success ∷ success ∷ [])
        (Disconnect.perform library connack_props last_words)).1
unfolding stored_at
disconnect-IsWithin_example =
    disconnect-IsWithin library connack_props last_words (try_again ∷ success ∷ success ∷ [])
      (omega arith)

abbrev farewell : ControlPacket
farewell = record { packet_id = 0; packet = 0xE0 ∷ 2 ∷ 0 ∷ 0 ∷ [] }

run-losing_example : Disconnect.run true (losing 2 success) (on_disconnect farewell, []) ≡ (
  done,
  [] ++ (sends 2 farewell ++ (async_shutdown ∷ cancel ∷ completes false (io success) ∷ [])),
)
run-losing_example = run-losing 2 success farewell []

abbrev context : Context
context = record {
  creds = record { client_id = 99 ∷ []; username = none; password = none };
  will_msg = none;
  keep_alive = 60;
  co_props = connect_props;
  ca_props = connack_props;
  state = 0;
  auth_method = [];
}

abbrev no_replies : Replies
no_replies = record { handlers = []; fast_replies = [] }
