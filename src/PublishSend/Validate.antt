-- ===== src/PublishSend/Validate.antt =====
-- validate_publish and validate_props of include/boost/mqtt5/impl/publish_send_op.hpp, with the
-- properties of the CONNACK packet as an argument.
use async_mqtt.Base.{
  ◌<◌, ◌≢◌, ◌≤◌, ◌≡◌, ℕ, Bool, true, false, not, ◌&&◌, ◌||◌, List, [], ◌∷◌, ltb, ◌==◌,
  if◌then◌else◌, Option, none, some,
}
use async_mqtt.Utf8.{is_valid_result, validate_mqtt_utf8, is_valid_string_pair}
use async_mqtt.Topic.{validate_topic_name, validate_topic_alias_name}
use async_mqtt.Codec.Property.{
  Prop, topic_alias, topic_alias_maximum, maximum_qos, retain_available, payload_format_indicator,
  response_topic, content_type, user_property, subscription_identifier,
}
use async_mqtt.Codec.Messages.{Qos, qos_value}
use async_mqtt.Replies.{success}
use async_mqtt.Errors.{
  ErrorCode, io, client, malformed_packet, invalid_topic, qos_not_supported, retain_not_available,
  topic_alias_maximum_reached,
}
use async_mqtt.Operation.{number_at, text_at, pairs_at, numbers_at, value_or}

-- `text && validate(*text) != valid`
abbrev pub absent_or : (List ℕ → Bool) → Option (List ℕ) → Bool
absent_or check none = true
absent_or check (some u) = check u

abbrev pub all_pairs : List (List ℕ × List ℕ) → Bool
all_pairs [] = true
all_pairs (p ∷ ps) = is_valid_string_pair p && all_pairs ps

abbrev pub none_of : List ℕ → Bool
none_of [] = true
none_of (n ∷ ns) = false

-- The first test of validate_props.
abbrev pub alias_error : Option ℕ → ℕ → ErrorCode
alias_error none alias_max = io success
alias_error (some alias) alias_max =
    if (alias_max == 0) || ltb alias_max alias
    then client topic_alias_maximum_reached
    else if alias == 0
    then client malformed_packet
    else io success

abbrev pub and_then : ErrorCode → ErrorCode → ErrorCode
and_then (io ec) later = later
and_then (client e) later = client e

unfoldable pub validate_props : List Prop → List Prop → ErrorCode
validate_props connack props =
    and_then
      (alias_error (number_at topic_alias props)
        (value_or (number_at topic_alias_maximum connack) 0))
      (if not
          (absent_or (λ u. is_valid_result (validate_topic_name u)) (text_at response_topic props))
        then client malformed_packet
        else if not (all_pairs (pairs_at user_property props))
        then client malformed_packet
        else if not (none_of (numbers_at subscription_identifier props))
        then client malformed_packet
        else if not
            (absent_or (λ u. is_valid_result (validate_mqtt_utf8 u)) (text_at content_type props))
        then client malformed_packet
        else io success)

abbrev pub topic_name_valid : List ℕ → Option ℕ → Bool
topic_name_valid topic none = is_valid_result (validate_topic_name topic)
topic_name_valid topic (some alias) = is_valid_result (validate_topic_alias_name topic)

unfoldable pub validate_publish :
    List Prop → Qos → (topic payload : List ℕ) → (retain : Bool) → List Prop → ErrorCode
validate_publish connack qos topic payload retain props =
    if not (topic_name_valid topic (number_at topic_alias props))
    then client invalid_topic
    else if ltb (value_or (number_at maximum_qos connack) 2) (qos_value qos)
    then client qos_not_supported
    else if (value_or (number_at retain_available connack) 1 == 0) && retain
    then client retain_not_available
    else if (value_or (number_at payload_format_indicator props) 0 == 1)
        && not (is_valid_result (validate_mqtt_utf8 payload))
    then client malformed_packet
    else validate_props connack props

-- The tests that a PUBLISH message passes, for a broker with this CONNACK packet.
pub record Accepted (connack : List Prop) (qos : Qos) (topic payload : List ℕ) (retain : Bool)
    (props : List Prop) : Type 0 where
  pub named : topic_name_valid topic (number_at topic_alias props) ≡ true
  pub qos_allowed : qos_value qos ≤ value_or (number_at maximum_qos connack) 2
  pub retain_allowed : retain ≡ true → value_or (number_at retain_available connack) 1 ≢ 0
  pub text_payload :
      value_or (number_at payload_format_indicator props) 0 ≡ 1
      → is_valid_result (validate_mqtt_utf8 payload) ≡ true
  pub alias_in_range :
      (alias : ℕ)
      → number_at topic_alias props ≡ some alias
      → (0 < alias) × (alias ≤ value_or (number_at topic_alias_maximum connack) 0)
  pub response_named :
      absent_or (λ u. is_valid_result (validate_topic_name u)) (text_at response_topic props) ≡ true
  pub texts : all_pairs (pairs_at user_property props) ≡ true
  pub no_identifiers : numbers_at subscription_identifier props ≡ []
  pub content_typed :
      absent_or (λ u. is_valid_result (validate_mqtt_utf8 u)) (text_at content_type props) ≡ true
