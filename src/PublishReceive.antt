-- ===== src/PublishReceive.antt =====
-- include/boost/mqtt5/impl/publish_rec_op.hpp: the operation that acknowledges a received PUBLISH
-- packet, and stores its message for the application.
--
-- The stages are named by the tags of the next handler; behind the last one the message is `stored`, or
-- the operation is `dropped`, and `unknown` is where nothing is known of what the code does.
pub mod Protocol
use async_mqtt.Base.{
  ℕ, ◌/◌, ◌%◌, List, [], ◌∷◌, ◌++◌, length, ◌==◌, if◌then◌else◌, Option, none, some,
}
use async_mqtt.Codec.Library.{Boost}
use async_mqtt.Codec.Property.{Prop, puback_props, pubrec_props, pubcomp_props}
use async_mqtt.Codec.Messages.{encode_puback, encode_pubrec, encode_pubcomp}
use async_mqtt.Codec.MessageDecoders.{decode_pubrel}
use async_mqtt.ControlPacket.{ControlPacket, of_with_pid}
use async_mqtt.ReasonCodes.{pubrel}
use async_mqtt.Replies.{Error}
use async_mqtt.Errors.{failed, is_try_again}
use async_mqtt.Operation.{
  Effect, async_send, async_wait_reply, async_disconnect, channel_store, Decoded, valid, malformed,
  undefined, read_code,
}

-- decoders::publish_message
pub record Message : Type 0 where
  pub topic : List ℕ
  pub packet_id : Option ℕ
  pub flags : ℕ
  pub props : List Prop
  pub payload : List ℕ

pub data Stage : Type 0 where
  on_puback stored dropped unknown : Stage
  on_pubrec on_pubcomp : ControlPacket → Stage
  on_pubrel : (packet_id : ℕ) → Stage

abbrev pub Next : Type 0
Next = Stage × List (Effect Message)

-- What a handler is called with.
pub record Answer : Type 0 where
  pub ec : Error
  pub reply : List ℕ

abbrev pub disconnecting : Next → Next
disconnecting (stage, calls) = (stage, async_disconnect 0x81 ∷ calls)

module _ (lib : Boost) (message : Message) where
  abbrev pub store_message : Next
  store_message = (stored, channel_store message ∷ [])

  abbrev pub puback_of : ℕ → ControlPacket
  puback_of packet_id = of_with_pid (λ pid. encode_puback lib pid 0 puback_props) packet_id

  abbrev pub pubrec_of : ℕ → ControlPacket
  pubrec_of packet_id = of_with_pid (λ pid. encode_pubrec lib pid 0 pubrec_props) packet_id

  abbrev pub pubcomp_of : ℕ → ControlPacket
  pubcomp_of packet_id = of_with_pid (λ pid. encode_pubcomp lib pid 0 pubcomp_props) packet_id

  abbrev pub send_puback : ControlPacket → Next
  send_puback puback = (on_puback, async_send puback.packet 0 0 ∷ [])

  abbrev pub send_pubrec : ControlPacket → Next
  send_pubrec pubrec = (on_pubrec pubrec, async_send pubrec.packet 0 0 ∷ [])

  abbrev pub wait_pubrel : ℕ → Next
  wait_pubrel packet_id = (on_pubrel packet_id, async_wait_reply 0x60 packet_id ∷ [])

  abbrev pub send_pubcomp : ControlPacket → Next
  send_pubcomp pubcomp = (on_pubcomp pubcomp, async_send pubcomp.packet 0 0 ∷ [])

  -- `*packet_id`, which a decoded PUBLISH packet has unless its QoS is 0.
  abbrev pub acknowledge : (ℕ → Next) → Option ℕ → Next
  acknowledge send (some packet_id) = send packet_id
  acknowledge send none = (unknown, [])

  unfoldable pub perform : Next
  perform =
      let qos_bits = message.flags / 2 % 4 in
      if qos_bits == 3
      then disconnecting (dropped, [])
      else if qos_bits == 0
      then store_message
      else if qos_bits == 1
      then acknowledge (λ pid. send_puback (puback_of pid)) message.packet_id
      else acknowledge (λ pid. send_pubrec (pubrec_of pid)) message.packet_id

  -- `operator()(on_puback, ...)`
  unfoldable pub handle_puback : Error → Next
  handle_puback ec = if failed ec then (dropped, []) else store_message

  -- `operator()(on_pubrec, ...)`
  unfoldable pub handle_pubrec : Error → ControlPacket → Next
  handle_pubrec ec packet = if failed ec then (dropped, []) else wait_pubrel packet.packet_id

  abbrev pub pubrel_read : ℕ → Decoded → Next
  pubrel_read packet_id (valid rc props) = send_pubcomp (pubcomp_of packet_id)
  pubrel_read packet_id malformed = disconnecting (wait_pubrel packet_id)
  pubrel_read packet_id undefined = (unknown, [])

  -- `operator()(on_pubrel, ...)`
  unfoldable pub handle_pubrel : Error → List ℕ → ℕ → Next
  handle_pubrel ec reply packet_id =
      if is_try_again ec
      then wait_pubrel packet_id
      else if failed ec
      then (dropped, [])
      else pubrel_read packet_id (read_code pubrel (decode_pubrel lib (length reply) reply))

  -- `operator()(on_pubcomp, ...)`
  unfoldable pub handle_pubcomp : Error → ControlPacket → Next
  handle_pubcomp ec packet =
      if is_try_again ec
      then wait_pubrel packet.packet_id
      else if failed ec
      then (dropped, [])
      else store_message

  unfoldable pub handle : Answer → Stage → Next
  handle a on_puback = handle_puback a.ec
  handle a (on_pubrec p) = handle_pubrec a.ec p
  handle a (on_pubrel pid) = handle_pubrel a.ec a.reply pid
  handle a (on_pubcomp p) = handle_pubcomp a.ec p
  handle a stored = (stored, [])
  handle a dropped = (dropped, [])
  handle a unknown = (unknown, [])

  -- The calls under a sequence of answers, behind those that were made.
  unfoldable pub run : List Answer → Next → Next
  run [] now = now
  run (a ∷ more) (stage, effects) =
      let (next, calls) = handle a stage in run more (next, effects ++ calls)
