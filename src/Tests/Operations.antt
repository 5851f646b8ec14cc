-- ===== src/Tests/Operations.antt =====
-- The operations of a client at concrete messages and answers.
use async_mqtt.Base.{
  none, true, false, not, ◌&&◌, ◌||◌, ◌≡◌, ◌≢◌, ◌↔◌, refl, List, [], ◌∷◌, All, ◌<◌, ◌==◌,
  if◌then◌else◌, some, arith,
}
use mathlib.Core.List.{Memᴰ}
use async_mqtt.PacketId.{init, is_free, allocate}
use async_mqtt.PacketId.Invariant.{init-IsValid}
use async_mqtt.Codec.Property.{
  content_type, text_value, Prop, pubcomp_props, pubrec_props, topic_alias, topic_alias_maximum,
  single, u16_value,
}
use async_mqtt.Codec.Messages.{at_most_once, at_least_once, exactly_once, SubscribeTopic, send}
use async_mqtt.Codec.MessageDecoders.{decode_puback, decode_pubrec, decode_pubcomp}
use async_mqtt.ControlPacket.{ControlPacket}
use async_mqtt.ReasonCodes.{
  ReasonCode, Lookup, found, past_end, puback, no_matching_subscribers, packet_identifier_not_found,
  lower_bound, to_reason_code, valid_codes, is_error,
}
use async_mqtt.ReasonCodes
use async_mqtt.ReasonCodes.Tables.{to_reason_code_lem}
use async_mqtt.Replies.{success}
use async_mqtt.Errors.{refused}
use async_mqtt.Operation.{stored_at, Service, apply_effects, read_code}
use async_mqtt.PublishSend.{exchange, run, send_publish, on_publish}
use async_mqtt.PublishSend
use async_mqtt.PublishSend.Validate.{validate_publish}
use async_mqtt.PublishSend.Protocol.{Leads, fresh}
use async_mqtt.PublishSend.Ledger.{completions, is_done}
use async_mqtt.PublishSend.Exchange.{publish_packet, run-Leads, exchange-free_ids}
use async_mqtt.PublishSend.Texts.{validate_publish-text, Permitted}
use async_mqtt.Utf8.Encoding.{utf8_text, utf8}
use async_mqtt.PublishSend.Delivery.{
  completed, Delivers, losses, written, lost, replied, exchange-Delivers,
}
use async_mqtt.Subscribe
use async_mqtt.Subscribe.Exchange.{Trace, run-Trace}
use async_mqtt.Subscribe.Identifiers
use async_mqtt.Subscribe.Identifiers.{perform-free_ids}
use async_mqtt.PublishReceive
use async_mqtt.PublishReceive.Protocol
use async_mqtt.Codec.MessageDecoders.{decode_pubrel}
use async_mqtt.ControlPacket.{of_with_pid}
use async_mqtt.Tests.Library.{library}

to_reason_code_lem_example :
    ((rc : ReasonCode)
      → (to_reason_code puback 0x10 ≡ found rc) ↔ (Memᴰ rc (valid_codes puback) × (rc.code ≡ 0x10)))
    × ((to_reason_code puback 0x10 ≡ past_end)
        ↔ All (λ (rc : ReasonCode). rc.code < 0x10) (valid_codes puback))
to_reason_code_lem_example = to_reason_code_lem puback 0x10

-- A broker can make the search read behind the table.
behind_the_table : to_reason_code puback 0xff ≡ past_end
unfolding to_reason_code lower_bound
behind_the_table = refl

abbrev service : Service
service = record {
  free_ids = init;
  last_serial_num = 0;
  connack = [];
  subscriptions_present = false;
}

-- Written, then lost before the reply, written again, and answered.
abbrev answers : List PublishSend.Answer
answers = written ∷ lost ∷ written ∷ replied [] ∷ []

confirmed : at_least_once ≢ at_most_once
confirmed e = ground arith

exchange-free_ids_example :
    let ((stage, calls), after) =
      exchange library at_least_once (b't' ∷ []) [] false [] answers service in
    (completions calls ≡ (if is_done stage then 1 else 0))
    × (is_free 1 (apply_effects calls after).free_ids
        ≡ (is_free 1 init && (is_done stage || not (1 == (allocate init).0))))
exchange-free_ids_example =
    exchange-free_ids library at_least_once (b't' ∷ []) [] false [] answers service 1 confirmed
      init-IsValid

run-Leads_example :
    Leads library exactly_once 4
      (publish_packet library exactly_once 7 (b't' ∷ []) [] true [])
      fresh
      (run library exactly_once 4 answers (
        send_publish library exactly_once 4
          (publish_packet library exactly_once 7 (b't' ∷ []) [] true [])))
run-Leads_example = run-Leads library exactly_once 4 7 (b't' ∷ []) [] true [] answers

abbrev aliased : List Prop
aliased = record topic_alias { value = single (some (u16_value 3)) } ∷ []

abbrev with_aliases : List Prop
with_aliases = record topic_alias_maximum { value = single (some (u16_value 3)) } ∷ []

abbrev described : List Prop
described = record content_type { value = single (some (text_value (b't' ∷ []))) } ∷ aliased

validate_publish-text_example :
    (refused (validate_publish with_aliases at_least_once (utf8_text []) (0xFF ∷ []) true described)
      ≡ false)
    ↔ Permitted with_aliases at_least_once [] [] true described none (some (b't' ∷ [])) []
unfolding stored_at utf8_text utf8
validate_publish-text_example =
    validate_publish-text with_aliases at_least_once [] [] (0xFF ∷ []) true described none
      (some (b't' ∷ [])) [] tt tt (λ e. ground arith) tt (((omega arith, tt)), refl) tt

abbrev packet : ControlPacket
packet = record { packet_id = 7; packet = 0x32 ∷ [] }

exchange-Delivers_example : Delivers 7 (some (ReasonCodes.success, pubcomp_props)) (
    run library exactly_once 4
      (losses 2 (written ∷ replied [] ∷ losses 1 (written ∷ replied [] ∷ [])))
      (on_publish packet, []))
unfolding read_code decode_puback decode_pubrec decode_pubcomp to_reason_code lower_bound is_error
exchange-Delivers_example = exchange-Delivers library 4 packet [] exactly_once _ _ (
    completed 2 1 [] [] ReasonCodes.success ReasonCodes.success pubrec_props pubcomp_props refl refl
      refl)

abbrev topic : SubscribeTopic
topic = record {
  topic_filter = b'#' ∷ [];
  sub_opts = record {
    max_qos = at_least_once;
    no_local = true;
    retain_as_published = false;
    retain_handling = send;
  };
}

abbrev sub_answers : List Subscribe.Answer
sub_answers =
    record { cancelled = false; subscriptions_present = false; ec = success; reply = [] }
    ∷ record { cancelled = false; subscriptions_present = false; ec = success; reply = 0 ∷ 1 ∷ [] }
    ∷ []

run-Trace_example : Trace (Subscribe.subscribe_kind library) 1 packet (
    Subscribe.run
      (Subscribe.subscribe_kind library)
      1
      sub_answers
      (Subscribe.send_subscribe (Subscribe.subscribe_kind library) 1 packet))
run-Trace_example = run-Trace (Subscribe.subscribe_kind library) 1 packet sub_answers

perform-free_ids_example :
    let (next, after) = Subscribe.perform_subscribe library (topic ∷ []) [] service in
    let (stage, calls) = Subscribe.run (Subscribe.subscribe_kind library) 1 sub_answers next in
    let (next', after') = Subscribe.perform_unsubscribe library ((b'a' ∷ []) ∷ []) [] service in
    let (stage', calls') = Subscribe.run (Subscribe.unsubscribe_kind library) 1 sub_answers next' in
    (is_free 1 (apply_effects calls after).free_ids
      ≡ (is_free 1 init && (Identifiers.is_done stage || not (1 == (allocate init).0))))
    × (is_free 1 (apply_effects calls' after').free_ids
        ≡ (is_free 1 init && (Identifiers.is_done stage' || not (1 == (allocate init).0))))
perform-free_ids_example =
    perform-free_ids library (topic ∷ []) ((b'a' ∷ []) ∷ []) [] sub_answers service 1 init-IsValid

abbrev received : PublishReceive.Message
received = record { topic = b't' ∷ []; packet_id = some 9; flags = 4; props = []; payload = [] }

abbrev receive_answers : List PublishReceive.Answer
receive_answers =
    record { ec = success; reply = [] }
    ∷ record { ec = success; reply = [] }
    ∷ record { ec = success; reply = [] }
    ∷ []

-- The exchange of QoS 2 ends with the message stored.
stored_at_last :
    (PublishReceive.run library received receive_answers
      (PublishReceive.perform library received)).0
    ≡ PublishReceive.stored
unfolding PublishReceive.run PublishReceive.perform PublishReceive.handle
    PublishReceive.handle_pubrec PublishReceive.handle_pubrel PublishReceive.handle_pubcomp
    read_code decode_pubrel to_reason_code lower_bound of_with_pid
stored_at_last = refl
