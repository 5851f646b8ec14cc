-- ===== src/Background/ReadMessage.antt =====
-- include/boost/mqtt5/impl/read_message_op.hpp: the loop that reads the packets which are no replies.
--
-- `receives` and `re_authenticates` are the operations that publish_rec_op and re_auth_op begin.
-- `undefined` is where a decoder leaves the packet, a table of reason codes ends, or BOOST_ASSERT fails.
use async_mqtt.Base.{ℕ, ◌*◌, ◌/◌, List, [], ◌∷◌, length, ◌==◌, if◌then◌else◌, Option}
use async_mqtt.Codec.Cursor.{Res, ok, fail, fault}
use async_mqtt.Codec.Library.{Boost}
use async_mqtt.Codec.Property.{Prop}
use async_mqtt.Codec.MessageDecoders.{decode_publish, decode_disconnect, decode_auth}
use async_mqtt.PublishReceive.{Message}
use async_mqtt.ReasonCodes.{
  ReasonCode, Lookup, found, nullopt, past_end, disconnect, to_reason_code,
}
use async_mqtt.ReasonCodes
use async_mqtt.Replies.{Error, success, no_recovery}
use async_mqtt.Errors.{ErrorCode, io, client, malformed_packet, failed}

pub data Call : Type 0 where
  async_assemble cancel async_shutdown completes undefined : Call
  receives : Message → Call
  re_authenticates : (code : ℕ) → List Prop → Call
  logs_disconnect : ReasonCode → Call
  async_disconnect : (reason : ℕ) → Call

pub data Stage : Type 0 where
  on_message on_disconnect done unknown : Stage

abbrev pub Next : Type 0
Next = Stage × List Call

abbrev pub perform : Next
perform = (on_message, async_assemble ∷ [])

abbrev pub complete : Next
complete = (done, completes ∷ [])

abbrev pub on_malformed_packet : Next
on_malformed_packet = (on_disconnect, async_disconnect ReasonCodes.malformed_packet.code ∷ [])

abbrev pub lost : Next
lost = (unknown, undefined ∷ [])

-- A call before those that follow.
abbrev pub first : Call → Next → Next
first c (stage, calls) = (stage, c ∷ calls)

abbrev pub published : Res (List ℕ × Option ℕ × ℕ × List Prop × List ℕ) → Next
published (ok (topic, packet_id, flags, props, payload) rest) =
    first
      (receives (record {
        topic = topic;
        packet_id = packet_id;
        flags = flags;
        props = props;
        payload = payload;
      }))
      perform
published fail = on_malformed_packet
published fault = lost

abbrev pub logged : Lookup → Next
logged (found rc) = (on_disconnect, logs_disconnect rc ∷ async_shutdown ∷ [])
logged nullopt =
    (on_disconnect, logs_disconnect ReasonCodes.unspecified_error ∷ async_shutdown ∷ [])
logged past_end = lost

abbrev pub disconnected : Res (ℕ × List Prop) → Next
disconnected (ok (code, props) rest) = logged (to_reason_code disconnect code)
disconnected fail = on_malformed_packet
disconnected fault = lost

abbrev pub authenticated : Res (ℕ × List Prop) → Next
authenticated (ok (code, props) rest) = first (re_authenticates code props) perform
authenticated fail = on_malformed_packet
authenticated fault = lost

-- `[first, last)` is `body`.
unfoldable pub dispatch : Boost → (control_byte : ℕ) → List ℕ → Next
dispatch lib control_byte body =
    let code = control_byte / 16 * 16 in
    if code == 0x30
    then published (decode_publish lib control_byte (length body) body)
    else (if code == 0xE0
        then disconnected (decode_disconnect lib (length body) body)
        else (if code == 0xF0 then authenticated (decode_auth lib (length body) body) else lost))

unfoldable pub handle_message : Boost → ErrorCode → (control_byte : ℕ) → List ℕ → Next
handle_message lib (client malformed_packet) control_byte body = on_malformed_packet
handle_message lib (client _) control_byte body = complete
handle_message lib (io success) control_byte body = dispatch lib control_byte body
handle_message lib (io no_recovery) control_byte body = first cancel complete
handle_message lib (io _) control_byte body = complete

unfoldable pub handle_disconnect : Error → Next
handle_disconnect ec = if failed ec then complete else perform
