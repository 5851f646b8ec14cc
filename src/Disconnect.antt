-- ===== src/Disconnect.antt =====
-- include/boost/mqtt5/impl/disconnect_op.hpp: the operation that sends a DISCONNECT packet.
--
-- A stage is named by the tag of the next handler. The properties of the CONNACK packet and what the
-- sender and the stream answer are arguments.
pub mod Limits
pub mod Ending
use async_mqtt.Base.{
  ℕ, Bool, true, false, not, ◌||◌, List, [], ◌∷◌, ◌++◌, ltb, if◌then◌else◌, Option, none, some,
}
use async_mqtt.Utf8.{validate_mqtt_utf8, is_valid_result}
use async_mqtt.Codec.Library.{Boost}
use async_mqtt.Codec.Property.{
  Prop, reason_string, user_property, disconnect_props, maximum_packet_size,
}
use async_mqtt.Codec.Messages.{encode_disconnect}
use async_mqtt.ControlPacket.{ControlPacket, of_no_pid, size}
use async_mqtt.Replies.{Error, success, operation_aborted, try_again, no_recovery}
use async_mqtt.Errors.{ErrorCode, io, client, malformed_packet, refused}
use async_mqtt.Operation.{text_at, pairs_at, number_at, value_or, default_max_send_size}
use async_mqtt.PublishSend.Validate.{absent_or, all_pairs}

-- `disconnect_ctx`
pub record DisconnectContext : Type 0 where
  pub reason_code : ℕ
  pub props : List Prop
  pub terminal : Bool

pub data Call : Type 0 where
  async_send_terminal : (wire_data : List ℕ) → Call
  async_shutdown cancel : Call
  completes : (immediate : Bool) → ErrorCode → Call

pub data Stage : Type 0 where
  on_disconnect : (disconnect : ControlPacket) → Stage
  on_shutdown done : Stage

abbrev pub Next : Type 0
Next = Stage × List Call

unfoldable pub validate_disconnect : List Prop → ErrorCode
validate_disconnect props =
    if not (absent_or (λ u. is_valid_result (validate_mqtt_utf8 u)) (text_at reason_string props))
    then client malformed_packet
    else (if not (all_pairs (pairs_at user_property props))
        then client malformed_packet
        else io success)

abbrev pub complete : ErrorCode → Next
complete ec = (done, completes false ec ∷ [])

abbrev pub complete_immediate : ErrorCode → Next
complete_immediate ec = (done, completes true ec ∷ [])

abbrev pub send_disconnect : ControlPacket → Next
send_disconnect disconnect = (on_disconnect disconnect, async_send_terminal disconnect.packet ∷ [])

unfoldable pub disconnect_of : Boost → (reason_code : ℕ) → List Prop → ControlPacket
disconnect_of lib reason_code props = of_no_pid (encode_disconnect lib reason_code props)

abbrev pub max_packet_size : List Prop → ℕ
max_packet_size connack = value_or (number_at maximum_packet_size connack) default_max_send_size

unfoldable pub perform : Boost → (connack : List Prop) → DisconnectContext → Next
perform lib connack c =
    if refused (validate_disconnect c.props)
    then complete_immediate (validate_disconnect c.props)
    else (let disconnect = disconnect_of lib c.reason_code c.props in
        if ltb (max_packet_size connack) (size disconnect)
        then send_disconnect (disconnect_of lib c.reason_code disconnect_props)
        else send_disconnect disconnect)

abbrev pub sent : (terminal : Bool) → ControlPacket → Error → Next
sent terminal disconnect operation_aborted = complete (io operation_aborted)
sent terminal disconnect no_recovery = complete (io operation_aborted)
sent terminal disconnect try_again =
    if terminal then send_disconnect disconnect else complete (io success)
sent terminal disconnect _ = (on_shutdown, async_shutdown ∷ [])

abbrev pub closed : (terminal : Bool) → Error → Next
closed terminal ec =
    if terminal then (done, cancel ∷ completes false (io ec) ∷ []) else complete (io ec)

-- `operator()` by the stage.
unfoldable pub handle : (terminal : Bool) → Error → Stage → Next
handle terminal ec (on_disconnect disconnect) = sent terminal disconnect ec
handle terminal ec on_shutdown = closed terminal ec
handle terminal ec done = (done, [])

-- The calls under a sequence of answers, behind those that were made.
unfoldable pub run : (terminal : Bool) → List Error → Next → Next
run terminal [] now = now
run terminal (ec ∷ more) (stage, calls) =
    let (next, made) = handle terminal ec stage in run terminal more (next, calls ++ made)
