-- ===== src/Subscribe/Validate.antt =====
-- The validation of subscribe_op and unsubscribe_op, with the properties of the CONNACK packet as an
-- argument.
use async_mqtt.Base.{
  ℕ, Bool, true, false, not, ◌&&◌, List, [], ◌∷◌, leb, ◌==◌, if◌then◌else◌, Option, none, some,
}
use async_mqtt.Utf8.{ValidationResult, invalid, is_valid_result}
use async_mqtt.Topic.{
  min_subscription_identifier, max_subscription_identifier, shared_sub_prefix, strip_prefix,
  validate_topic_name, validate_topic_filter, validate_shared_topic_filter,
}
use async_mqtt.Codec.Property.{
  Prop, wildcard_subscription_available, shared_subscription_available,
  subscription_identifier_available, subscription_identifier, user_property,
}
use async_mqtt.Codec.Messages.{SubscribeTopic}
use async_mqtt.Replies.{success}
use async_mqtt.Errors.{
  ErrorCode, io, client, malformed_packet, invalid_topic, wildcard_subscription_not_available,
  subscription_identifier_not_available, shared_subscription_not_available,
}
use async_mqtt.Operation.{number_at, numbers_at, pairs_at, value_or}
use async_mqtt.PublishSend.Validate.{all_pairs, and_then}

-- A flag of the CONNACK packet that is 1 when it is absent.
abbrev pub available : Prop → List Prop → Bool
available key connack = not (value_or (number_at key connack) 1 == 0)

-- The validation always comes to a result; `none` is here with the invalid ones.
abbrev pub is_invalid : Option ValidationResult → Bool
is_invalid (some invalid) = true
is_invalid (some _) = false
is_invalid none = true

abbrev pub topic_result : Bool → Option ValidationResult → ErrorCode
topic_result wildcards result =
    if is_invalid result
    then client invalid_topic
    else if not wildcards && not (is_valid_result result)
    then client wildcard_subscription_not_available
    else io success

abbrev pub is_shared : List ℕ → Bool
is_shared topic_filter = elim (strip_prefix shared_sub_prefix topic_filter) [
  | some rest ↦ true
  | none ↦ false
]

unfoldable pub validate_topic : List Prop → List ℕ → ErrorCode
validate_topic connack topic_filter =
    let wildcards = available wildcard_subscription_available connack in
    if is_shared topic_filter
    then (if not (available shared_subscription_available connack)
        then client shared_subscription_not_available
        else topic_result wildcards (validate_shared_topic_filter topic_filter wildcards))
    else topic_result wildcards
        (if wildcards then validate_topic_filter topic_filter else validate_topic_name topic_filter)

abbrev pub identifier_error : List Prop → List ℕ → ErrorCode
identifier_error connack [] = io success
identifier_error connack (id ∷ ids) =
    if not (available subscription_identifier_available connack)
    then client subscription_identifier_not_available
    else if leb min_subscription_identifier id && leb id max_subscription_identifier
    then io success
    else client malformed_packet

unfoldable pub validate_subscribe_props : List Prop → List Prop → ErrorCode
validate_subscribe_props connack props =
    if not (all_pairs (pairs_at user_property props))
    then client malformed_packet
    else identifier_error connack (numbers_at subscription_identifier props)

unfoldable pub validate_topics : List Prop → List SubscribeTopic → ErrorCode
validate_topics connack [] = io success
validate_topics connack (t ∷ ts) =
    and_then (validate_topic connack t.topic_filter) (validate_topics connack ts)

unfoldable pub validate_subscribe : List Prop → List SubscribeTopic → List Prop → ErrorCode
validate_subscribe connack topics props =
    and_then (validate_topics connack topics) (validate_subscribe_props connack props)

unfoldable pub all_filters : List (List ℕ) → Bool
all_filters [] = true
all_filters (t ∷ ts) = is_valid_result (validate_topic_filter t) && all_filters ts

unfoldable pub validate_unsubscribe : List (List ℕ) → List Prop → ErrorCode
validate_unsubscribe topics props =
    if not (all_filters topics)
    then client invalid_topic
    else if not (all_pairs (pairs_at user_property props))
    then client malformed_packet
    else io success
