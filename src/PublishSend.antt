-- ===== src/PublishSend.antt =====
-- include/boost/mqtt5/impl/publish_send_op.hpp: the operation that sends a PUBLISH packet and, by
-- its QoS, waits for what the broker answers.
--
-- Between two handlers the operation is in the stage named by the tag of the next one, with the
-- packet that is bound to it; `done` is after the completion, and `undefined` where nothing is known
-- of what the code does. A handler returns the next stage and the calls that it makes.
pub mod Validate
pub mod Protocol
pub mod Ledger
pub mod Exchange
pub mod Checks
pub mod Texts
pub mod Delivery
use async_mqtt.Base.{
  ℕ, ◌+◌, Bool, true, false, List, [], ◌∷◌, ◌++◌, ltb, length, ◌==◌, if◌then◌else◌, Option, none,
  some,
}
use async_mqtt.Codec.Library.{Boost}
use async_mqtt.Codec.Property.{Prop, puback_props, pubcomp_props, pubrel_props, maximum_packet_size}
use async_mqtt.Codec.Messages.{
  Qos, at_most_once, at_least_once, exactly_once, encode_publish, encode_pubrel,
}
use async_mqtt.Codec.MessageDecoders.{decode_puback, decode_pubrec, decode_pubcomp}
use async_mqtt.ControlPacket.{ControlPacket, of_with_pid, size, set_dup}
use async_mqtt.ReasonCodes.{ReasonCode, puback, pubrec, pubcomp, empty, is_error}
use async_mqtt.Replies.{Error, success, operation_aborted}
use async_mqtt.Errors.{
  ErrorCode, io, client, failed, is_try_again, refused, pid_overrun, packet_too_large,
}
use async_mqtt.Operation.{
  Effect, async_send, async_wait_reply, async_disconnect, free_pid, completes, Service,
  allocate_pid, service_next_serial, apply_effects, Decoded, valid, malformed, undefined, read_code,
  number_at, value_or, default_max_send_size,
}
use async_mqtt.PublishSend.Validate.{validate_publish}

-- A reason code and the properties of the last reply, but for QoS 0.
abbrev pub Result : Type 0
Result = Option (ReasonCode × List Prop)

pub data Stage : Type 0 where
  on_publish on_puback on_pubrec on_pubrel on_pubcomp : ControlPacket → Stage
  done unknown : Stage

abbrev pub Next : Type 0
Next = Stage × List (Effect Result)

abbrev pub disconnecting : Next → Next
disconnecting (stage, effects) = (stage, async_disconnect 0x81 ∷ effects)

-- `on_publish_props_type`
abbrev pub empty_result : Qos → Result
empty_result at_most_once = none
empty_result at_least_once = some (empty, puback_props)
empty_result exactly_once = some (empty, pubcomp_props)

abbrev pub complete : Qos → ErrorCode → ℕ → Result → Next
complete at_most_once ec pid result = (done, completes false ec none ∷ [])
complete at_least_once ec pid result = (done, free_pid pid true ∷ completes false ec result ∷ [])
complete exactly_once ec pid result = (done, free_pid pid true ∷ completes false ec result ∷ [])

abbrev pub complete_immediate : Qos → ErrorCode → ℕ → Next
complete_immediate at_most_once ec pid = (done, completes true ec none ∷ [])
complete_immediate q ec pid =
    if pid == 0
    then (done, completes true ec (empty_result q) ∷ [])
    else (done, free_pid pid false ∷ completes true ec (empty_result q) ∷ [])

-- `send_flag::throttled * (qos_type != qos_e::at_most_once)`
abbrev pub publish_flags : Qos → ℕ
publish_flags at_most_once = 0
publish_flags at_least_once = 1
publish_flags exactly_once = 1

module _ (lib : Boost) (qos : Qos) (serial_num : ℕ) where
  abbrev pub send_publish : ControlPacket → Next
  send_publish publish =
      (on_publish publish, async_send publish.packet serial_num (publish_flags qos) ∷ [])

  abbrev pub resend_publish : Bool → ControlPacket → Next
  resend_publish cancelled publish =
      if cancelled
      then complete qos (io operation_aborted) publish.packet_id (empty_result qos)
      else send_publish publish

  abbrev pub wait_reply : Qos → ControlPacket → Next
  wait_reply at_most_once publish = (done, completes false (io success) none ∷ [])
  wait_reply at_least_once publish =
      (on_puback publish, async_wait_reply 0x40 publish.packet_id ∷ [])
  wait_reply exactly_once publish =
      (on_pubrec publish, async_wait_reply 0x50 publish.packet_id ∷ [])

  -- `operator()(on_publish, ...)`
  unfoldable pub handle_publish : Bool → Error → ControlPacket → Next
  handle_publish cancelled ec publish =
      if is_try_again ec
      then resend_publish cancelled publish
      else if failed ec
      then complete qos (io ec) publish.packet_id (empty_result qos)
      else wait_reply qos publish

  abbrev pub puback_read : Bool → ControlPacket → Decoded → Next
  puback_read cancelled publish (valid rc props) =
      complete qos (io success) publish.packet_id (some (rc, props))
  puback_read cancelled publish malformed =
      disconnecting (resend_publish cancelled (set_dup publish))
  puback_read cancelled publish undefined = (unknown, [])

  -- `operator()(on_puback, ...)`
  unfoldable pub handle_puback : Bool → Error → List ℕ → ControlPacket → Next
  handle_puback cancelled ec reply publish =
      if is_try_again ec
      then resend_publish cancelled (set_dup publish)
      else if failed ec
      then complete qos (io ec) publish.packet_id (empty_result qos)
      else puback_read cancelled publish (read_code puback (decode_puback lib (length reply) reply))

  -- `send_flag::throttled * throttled | send_flag::prioritized`
  abbrev pub send_pubrel : ControlPacket → Bool → Next
  send_pubrel pubrel throttled =
      (on_pubrel pubrel, async_send pubrel.packet serial_num (if throttled then 3 else 2) ∷ [])

  abbrev pub pubrel_of : ℕ → ControlPacket
  pubrel_of packet_id = of_with_pid (λ pid. encode_pubrel lib pid 0 pubrel_props) packet_id

  abbrev pub pubrec_read : Bool → ControlPacket → Decoded → Next
  pubrec_read cancelled publish (valid rc props) =
      if is_error rc
      then complete qos (io success) publish.packet_id (some (rc, pubcomp_props))
      else send_pubrel (pubrel_of publish.packet_id) false
  pubrec_read cancelled publish malformed =
      disconnecting (resend_publish cancelled (set_dup publish))
  pubrec_read cancelled publish undefined = (unknown, [])

  -- `operator()(on_pubrec, ...)`
  unfoldable pub handle_pubrec : Bool → Error → List ℕ → ControlPacket → Next
  handle_pubrec cancelled ec reply publish =
      if is_try_again ec
      then resend_publish cancelled (set_dup publish)
      else if failed ec
      then complete qos (io ec) publish.packet_id (empty_result qos)
      else pubrec_read cancelled publish (read_code pubrec (decode_pubrec lib (length reply) reply))

  -- `operator()(on_pubrel, ...)`
  unfoldable pub handle_pubrel : Error → ControlPacket → Next
  handle_pubrel ec pubrel =
      if is_try_again ec
      then send_pubrel pubrel true
      else if failed ec
      then complete qos (io ec) pubrel.packet_id (empty_result qos)
      else (on_pubcomp pubrel, async_wait_reply 0x70 pubrel.packet_id ∷ [])

  abbrev pub pubcomp_read : ControlPacket → Decoded → Next
  pubcomp_read pubrel (valid rc props) =
      complete qos (io success) pubrel.packet_id (some (rc, pubcomp_props))
  pubcomp_read pubrel malformed = disconnecting (send_pubrel pubrel true)
  pubcomp_read pubrel undefined = (unknown, [])

  -- `operator()(on_pubcomp, ...)`
  unfoldable pub handle_pubcomp : Error → List ℕ → ControlPacket → Next
  handle_pubcomp ec reply pubrel =
      if is_try_again ec
      then send_pubrel pubrel true
      else if failed ec
      then complete qos (io ec) pubrel.packet_id (empty_result qos)
      else pubcomp_read pubrel (read_code pubcomp (decode_pubcomp lib (length reply) reply))

-- What the handler of a stage is called with, and whether the operation was cancelled before.
pub record Answer : Type 0 where
  pub cancelled : Bool
  pub ec : Error
  pub reply : List ℕ

unfoldable pub handle : Boost → Qos → ℕ → Answer → Stage → Next
handle lib qos n a (on_publish p) = handle_publish lib qos n a.cancelled a.ec p
handle lib qos n a (on_puback p) = handle_puback lib qos n a.cancelled a.ec a.reply p
handle lib qos n a (on_pubrec p) = handle_pubrec lib qos n a.cancelled a.ec a.reply p
handle lib qos n a (on_pubrel p) = handle_pubrel lib qos n a.ec p
handle lib qos n a (on_pubcomp p) = handle_pubcomp lib qos n a.ec a.reply p
handle lib qos n a done = (done, [])
handle lib qos n a unknown = (unknown, [])

-- The calls that the operation makes under a sequence of answers, behind those that it has made.
unfoldable pub run : Boost → Qos → ℕ → List Answer → Next → Next
run lib qos n [] now = now
run lib qos n (a ∷ more) (stage, effects) =
    let (next, calls) = handle lib qos n a stage in run lib qos n more (next, effects ++ calls)

-- `perform` behind the allocation of the packet identifier.
abbrev pub publish_of_size : Boost → Qos → ℕ → ControlPacket → Service → Next × Service
publish_of_size lib qos n publish s =
    if ltb (value_or (number_at maximum_packet_size s.connack) default_max_send_size) (size publish)
    then (complete_immediate qos (client packet_too_large) publish.packet_id, s)
    else (send_publish lib qos n publish, s)

abbrev pub perform_with :
    Boost
    → Qos
    → (topic payload : List ℕ) → (retain : Bool) → List Prop
    → ℕ
    → Service
    → Next × Service
perform_with lib qos topic payload retain props packet_id s =
    let ec = validate_publish s.connack qos topic payload retain props in
    if refused ec
    then (complete_immediate qos ec packet_id, s)
    else let (n, after) = service_next_serial s in
      publish_of_size lib qos n
        (of_with_pid (λ pid. encode_publish lib pid topic payload qos retain false props) packet_id)
        after

abbrev pub allocated :
    Boost
    → Qos
    → (topic payload : List ℕ) → (retain : Bool) → List Prop
    → ℕ × Service
    → Next × Service
allocated lib qos topic payload retain props (packet_id, s) =
    if packet_id == 0
    then (complete_immediate qos (client pid_overrun) packet_id, s)
    else perform_with lib qos topic payload retain props packet_id s

-- `perform`
unfoldable pub perform :
    Boost → Qos → (topic payload : List ℕ) → (retain : Bool) → List Prop → Service → Next × Service
perform lib at_most_once topic payload retain props s =
    perform_with lib at_most_once topic payload retain props 0 s
perform lib at_least_once topic payload retain props s =
    allocated lib at_least_once topic payload retain props (allocate_pid s)
perform lib exactly_once topic payload retain props s =
    allocated lib exactly_once topic payload retain props (allocate_pid s)

-- The handlers for a sequence of answers, behind `perform`, with the serial number that it took.
abbrev pub answered : Boost → Qos → List Answer → Next × Service → Next × Service
answered lib qos answers (now, after) = (run lib qos after.last_serial_num answers now, after)

unfoldable pub exchange :
    Boost
    → Qos
    → (topic payload : List ℕ) → (retain : Bool) → List Prop
    → List Answer
    → Service
    → Next × Service
exchange lib qos topic payload retain props answers s =
    answered lib qos answers (perform lib qos topic payload retain props s)
