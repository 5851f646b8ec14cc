-- ===== src/PublishSend/Checks.antt =====
-- What the validation of a PUBLISH message accepts, from its tests.
use async_mqtt.Base.{
  ℕ, ◌<◌, ◌≤◌, Bool, true, false, not, ◌&&◌, ◌≡◌, ◌↔◌, refl, List, [], ◌∷◌, ltb, ◌==◌, Option, none,
  some, arith,
}
use async_mqtt.Codec.Messages.{Qos, qos_value}
use async_mqtt.PublishSend.Validate.{validate_publish, Accepted}
use async_mqtt.Operation.{value_or}
use async_mqtt.Codec.Property.{maximum_qos, retain_available, payload_format_indicator}
use async_mqtt.Operation.{number_at}
use async_mqtt.Utf8.{is_valid_result, validate_mqtt_utf8}
use async_mqtt.Topic.{validate_topic_name}
use async_mqtt.Codec.Property.{
  Prop, topic_alias, topic_alias_maximum, response_topic, content_type, user_property,
  subscription_identifier,
}
use async_mqtt.Errors.{ErrorCode, refused}
use async_mqtt.Operation.{number_at, text_at, pairs_at, numbers_at, value_or}
use async_mqtt.PublishSend.Validate.{
  validate_publish, absent_or, all_pairs, none_of, alias_error, and_then, validate_props,
}

abbrev AliasFits : Option ℕ → ℕ → Type 0
AliasFits o alias_max = (alias : ℕ) → o ≡ some alias → (0 < alias) × (alias ≤ alias_max)

alias_error-fits :
    (o : Option ℕ) (alias_max : ℕ) (later : ErrorCode)
    → refused (and_then (alias_error o alias_max) later) ≡ false
    → AliasFits o alias_max × (refused later ≡ false)
alias_error-fits none alias_max later h = (λ a e. ground arith, h)
alias_error-fits (some a) alias_max later h = (λ b e. ground arith, ground arith)

props-forward :
    (connack props : List Prop)
    → refused (validate_props connack props) ≡ false
    → AliasFits (number_at topic_alias props) (value_or (number_at topic_alias_maximum connack) 0)
      × (absent_or (λ u. is_valid_result (validate_topic_name u)) (text_at response_topic props)
          ≡ true)
      × (all_pairs (pairs_at user_property props) ≡ true)
      × (none_of (numbers_at subscription_identifier props) ≡ true)
      × (absent_or (λ u. is_valid_result (validate_mqtt_utf8 u)) (text_at content_type props)
          ≡ true)
unfolding validate_props
props-forward connack props h =
    let (a, k) = alias_error-fits _ _ _ h in
    (a, ground arith, ground arith, ground arith, ground arith)

nothing_in : (ns : List ℕ) → none_of ns ≡ true → ns ≡ []
nothing_in [] h = refl
nothing_in (n ∷ ns) h = ground arith

alias_error-accepts :
    (o : Option ℕ) (alias_max : ℕ) (later : ErrorCode)
    → AliasFits o alias_max
    → refused later ≡ false
    → refused (and_then (alias_error o alias_max) later) ≡ false
alias_error-accepts none alias_max later f h = h
alias_error-accepts (some a) alias_max later f h = let (p, q) = f a refl in ground (arith, p, q, h)

props-backward :
    (connack props : List Prop)
    → AliasFits (number_at topic_alias props) (value_or (number_at topic_alias_maximum connack) 0)
    → absent_or (λ u. is_valid_result (validate_topic_name u)) (text_at response_topic props) ≡ true
    → all_pairs (pairs_at user_property props) ≡ true
    → none_of (numbers_at subscription_identifier props) ≡ true
    → absent_or (λ u. is_valid_result (validate_mqtt_utf8 u)) (text_at content_type props) ≡ true
    → refused (validate_props connack props) ≡ false
unfolding validate_props
props-backward connack props a r u i c = alias_error-accepts _ _ _ a (rw (r, u, i, c) refl)

forward :
    (connack : List Prop) (qos : Qos) (topic payload : List ℕ) (retain : Bool) (props : List Prop)
    → refused (validate_publish connack qos topic payload retain props) ≡ false
    → Accepted connack qos topic payload retain props
unfolding validate_publish
forward connack qos topic payload retain props h =
    let rest : refused (validate_props connack props) ≡ false = ground arith in
    let (a, r, u, i, c) = props-forward connack props rest in
    record {
      named = ground arith;
      qos_allowed = ground arith;
      retain_allowed = λ e z. ground arith;
      text_payload = λ e. ground arith;
      alias_in_range = a;
      response_named = r;
      texts = u;
      no_identifiers = nothing_in _ i;
      content_typed = c;
    }

backward :
    (connack : List Prop) (qos : Qos) (topic payload : List ℕ) (retain : Bool) (props : List Prop)
    → Accepted connack qos topic payload retain props
    → refused (validate_publish connack qos topic payload retain props) ≡ false
unfolding validate_publish
backward connack qos topic payload retain props h =
    rw (h.named, qos_ok, retain_ok, text_ok)
      (props-backward connack props h.alias_in_range h.response_named h.texts
        (rw h.no_identifiers refl) h.content_typed)
  where
    qos_ok : ltb (value_or (number_at maximum_qos connack) 2) (qos_value qos) ≡ false
    qos_ok = ground (arith, h.qos_allowed)

    retain_ok : ((value_or (number_at retain_available connack) 1 == 0) && retain) ≡ false
    retain_ok = ground (arith, h.retain_allowed)

    text_ok :
        ((value_or (number_at payload_format_indicator props) 0 == 1)
          && not (is_valid_result (validate_mqtt_utf8 payload)))
        ≡ false
    text_ok = ground (arith, h.text_payload)

-- A PUBLISH message passes the validation just when each of the tests passes.
pub validate_publish-Accepted :
    (connack : List Prop) (qos : Qos) (topic payload : List ℕ) (retain : Bool) (props : List Prop)
    → (refused (validate_publish connack qos topic payload retain props) ≡ false)
      ↔ Accepted connack qos topic payload retain props
validate_publish-Accepted connack qos topic payload retain props = (
  forward connack qos topic payload retain props,
  backward connack qos topic payload retain props,
)
