-- ===== src/Subscribe.antt =====
-- include/boost/mqtt5/impl/subscribe_op.hpp and unsubscribe_op.hpp: one exchange of a packet for its
-- acknowledgement, with a reason code for each topic.
--
-- The two classes differ in what a `Kind` holds, and in their validation. The stages are named by
-- the tags of subscribe_op; those of unsubscribe_op correspond to them.
pub mod Validate
pub mod Exchange
pub mod Identifiers
use async_mqtt.Base.{
  ℕ, zero, suc, ◌+◌, Bool, true, false, not, ◌&&◌, ◌||◌, List, [], ◌∷◌, ◌++◌, ltb, length, ◌==◌,
  if◌then◌else◌, Option, none, some,
}
use async_mqtt.Codec.Library.{Boost}
use async_mqtt.Codec.Cursor.{Res, ok, fail, fault}
use async_mqtt.Codec.Property.{Prop, suback_props, unsuback_props, maximum_packet_size}
use async_mqtt.Codec.Messages.{SubscribeTopic, encode_subscribe, encode_unsubscribe}
use async_mqtt.Codec.MessageDecoders.{decode_suback, decode_unsuback}
use async_mqtt.ControlPacket.{ControlPacket, of_with_pid, size}
use async_mqtt.ReasonCodes.{
  Category, ReasonCode, Lookup, found, nullopt, past_end, suback, unsuback, empty, is_error,
  to_reason_code,
}
use async_mqtt.Replies.{Error, success, operation_aborted}
use async_mqtt.Errors.{
  ErrorCode, io, client, failed, is_try_again, refused, pid_overrun, invalid_topic,
  packet_too_large,
}
use async_mqtt.Operation.{
  Effect, async_send, async_wait_reply, async_disconnect, free_pid, session_subscriptions,
  completes, Service, allocate_pid, number_at, value_or, default_max_send_size,
}
use async_mqtt.Subscribe.Validate.{validate_subscribe, validate_unsubscribe}

-- A reason code for each topic, and the properties of the acknowledgement.
abbrev pub Result : Type 0
Result = List ReasonCode × List Prop

pub data Stage : Type 0 where
  on_subscribe on_suback : ControlPacket → Stage
  done unknown : Stage

abbrev pub Next : Type 0
Next = Stage × List (Effect Result)

-- The acknowledgement, and whether the session takes note of a success.
pub record Kind : Type 0 where
  pub code : ℕ
  pub category : Category
  pub decode : ℕ → List ℕ → Res (List Prop × List ℕ)
  pub no_props : List Prop
  pub notes_session : Bool

abbrev pub subscribe_kind : Boost → Kind
subscribe_kind lib = record {
  code = 0x90;
  category = suback;
  decode = decode_suback lib;
  no_props = suback_props;
  notes_session = true;
}

abbrev pub unsubscribe_kind : Boost → Kind
unsubscribe_kind lib = record {
  code = 0xB0;
  category = unsuback;
  decode = decode_unsuback lib;
  no_props = unsuback_props;
  notes_session = false;
}

-- `std::vector<reason_code>(n, reason_codes::empty)`
abbrev pub empties : ℕ → List ReasonCode
empties zero = []
empties (suc n) = empty ∷ empties n

abbrev pub any_success : List ReasonCode → Bool
any_success [] = false
any_success (rc ∷ rcs) = not (is_error rc) || any_success rcs

-- `reason_codes.empty() && _num_topics`
abbrev pub codes_or_empties : ℕ → List ReasonCode → List ReasonCode
codes_or_empties num_topics [] = empties num_topics
codes_or_empties num_topics (rc ∷ rcs) = rc ∷ rcs

-- The codes that the packet may carry; nothing is known when a search leaves the table.
unfoldable pub to_reason_codes : Category → List ℕ → Option (List ReasonCode)
to_reason_codes cat [] = some []
to_reason_codes cat (code ∷ codes) = elim (to_reason_codes cat codes) [
  | none ↦ none
  | some rcs ↦ elim (to_reason_code cat code) [
    | found rc ↦ some (rc ∷ rcs)
    | nullopt ↦ some rcs
    | past_end ↦ none
  ]
]

-- What a handler is called with: whether the operation was cancelled before, the subscriptions_present
-- bit of the session, the error and the bytes of the reply.
pub record Answer : Type 0 where
  pub cancelled : Bool
  pub subscriptions_present : Bool
  pub ec : Error
  pub reply : List ℕ

module _ (kind : Kind) (num_topics : ℕ) where
  abbrev pub complete_immediate : ErrorCode → ℕ → Next
  complete_immediate ec pid =
      if pid == 0
      then (done, completes true ec (empties num_topics, kind.no_props) ∷ [])
      else (done, free_pid pid false ∷ completes true ec (empties num_topics, kind.no_props) ∷ [])

  abbrev pub session_note : Bool → List ReasonCode → List (Effect Result)
  session_note present rcs =
      if kind.notes_session && (not present && any_success rcs)
      then session_subscriptions true ∷ []
      else []

  abbrev pub complete_with : Bool → ErrorCode → ℕ → List ReasonCode → List Prop → Next
  complete_with present ec pid rcs props = (
    done,
    session_note present rcs ++ (free_pid pid false ∷ completes false ec (rcs, props) ∷ []),
  )

  unfoldable pub complete : Bool → ErrorCode → ℕ → List ReasonCode → List Prop → Next
  complete present ec pid rcs props =
      complete_with present ec pid (codes_or_empties num_topics rcs) props

  abbrev pub send_subscribe : ControlPacket → Next
  send_subscribe packet = (on_subscribe packet, async_send packet.packet 0 0 ∷ [])

  unfoldable pub resend_subscribe : Answer → ControlPacket → Next
  resend_subscribe a packet =
      if a.cancelled
      then complete a.subscriptions_present (io operation_aborted) packet.packet_id [] kind.no_props
      else send_subscribe packet

  -- `operator()(on_subscribe, ...)`
  unfoldable pub handle_subscribe : Answer → ControlPacket → Next
  handle_subscribe a packet =
      if is_try_again a.ec
      then resend_subscribe a packet
      else if failed a.ec
      then complete a.subscriptions_present (io a.ec) packet.packet_id [] kind.no_props
      else (on_suback packet, async_wait_reply kind.code packet.packet_id ∷ [])

  abbrev pub malformed : Answer → ControlPacket → Next
  malformed a packet =
      let (stage, calls) = resend_subscribe a packet in (stage, async_disconnect 0x81 ∷ calls)

  abbrev pub codes_read : Answer → ControlPacket → List Prop → Option (List ReasonCode) → Next
  codes_read a packet props none = (unknown, [])
  codes_read a packet props (some rcs) =
      if length rcs == num_topics
      then complete a.subscriptions_present (io success) packet.packet_id rcs props
      else malformed a packet

  abbrev pub suback_read : Answer → ControlPacket → Res (List Prop × List ℕ) → Next
  suback_read a packet (ok (props, codes) rest) =
      codes_read a packet props (to_reason_codes kind.category codes)
  suback_read a packet fail = malformed a packet
  suback_read a packet fault = (unknown, [])

  -- `operator()(on_suback, ...)`
  unfoldable pub handle_suback : Answer → ControlPacket → Next
  handle_suback a packet =
      if is_try_again a.ec
      then resend_subscribe a packet
      else if failed a.ec
      then complete a.subscriptions_present (io a.ec) packet.packet_id [] kind.no_props
      else suback_read a packet (kind.decode (length a.reply) a.reply)

  unfoldable pub handle : Answer → Stage → Next
  handle a (on_subscribe p) = handle_subscribe a p
  handle a (on_suback p) = handle_suback a p
  handle a done = (done, [])
  handle a unknown = (unknown, [])

  -- The calls that the operation makes under a sequence of answers, behind those that it has made.
  unfoldable pub run : List Answer → Next → Next
  run [] now = now
  run (a ∷ more) (stage, effects) =
      let (next, calls) = handle a stage in run more (next, effects ++ calls)

  -- `perform` behind the validation, and behind the allocation.
  abbrev pub send_fitting : List Prop → ControlPacket → Next
  send_fitting connack packet =
      if ltb (value_or (number_at maximum_packet_size connack) default_max_send_size) (size packet)
      then complete_immediate (client packet_too_large) packet.packet_id
      else send_subscribe packet

  abbrev pub perform_with : ErrorCode → (ℕ → List ℕ) → ℕ × Service → Next × Service
  perform_with ec encode (pid, s) =
      if pid == 0
      then (complete_immediate (client pid_overrun) pid, s)
      else if num_topics == 0
      then (complete_immediate (client invalid_topic) pid, s)
      else if refused ec
      then (complete_immediate ec pid, s)
      else (send_fitting s.connack (of_with_pid encode pid), s)

-- `perform` of subscribe_op and of unsubscribe_op.
unfoldable pub perform_subscribe :
    Boost → List SubscribeTopic → List Prop → Service → Next × Service
perform_subscribe lib topics props s =
    perform_with (subscribe_kind lib) (length topics) (validate_subscribe s.connack topics props)
      (λ pid. encode_subscribe lib pid topics props) (allocate_pid s)

unfoldable pub perform_unsubscribe : Boost → List (List ℕ) → List Prop → Service → Next × Service
perform_unsubscribe lib topics props s =
    perform_with (unsubscribe_kind lib) (length topics) (validate_unsubscribe topics props)
      (λ pid. encode_unsubscribe lib pid topics props) (allocate_pid s)
