-- ===== src/PublishSend/Texts.antt =====
-- What the validation of a PUBLISH message accepts, by the characters of its texts.
use async_mqtt.Codec.Property.{
  Prop, topic_alias, topic_alias_maximum, maximum_qos, retain_available, payload_format_indicator,
  response_topic, content_type, user_property, subscription_identifier,
}
use async_mqtt.Base.{
  ◌≤◌, ◌<◌, ◌≢◌, ◌↔◌, sym, if◌then◌else◌, ap, ◌∙◌, ℕ, Bool, true, false, not, ◌&&◌, ◌≡◌, refl, List,
  [], ◌∷◌, leb, Option, none, some, All, length, arith,
}
use async_mqtt.Codec.Messages.{Qos, qos_value}
use async_mqtt.Operation.{number_at, text_at, pairs_at, numbers_at, value_or}
use async_mqtt.Errors.{refused}
use async_mqtt.PublishSend.Checks.{validate_publish-Accepted}
use async_mqtt.Utf8.{
  ValidationResult, invalid, is_valid_result, is_valid_string_pair, validate_mqtt_utf8,
}
use async_mqtt.Utf8.Encoding.{utf8_text, IsCodePoint}
use async_mqtt.Utf8.Chars.{is_accepted, all, validate_mqtt_utf8-text}
use async_mqtt.Topic.{validate_topic_name, validate_topic_alias_name}
use async_mqtt.Topic.Names.{is_wildcard, name_verdict, validate_names-text}
use async_mqtt.PublishSend.Validate.{validate_publish, topic_name_valid, absent_or, all_pairs}

-- At most 65535 bytes, and no character that is refused.
abbrev pub is_text : List ℕ → Bool
is_text cs = leb (length (utf8_text cs)) 65535 && all is_accepted cs

abbrev pub is_plain : ℕ → Bool
is_plain c = not (is_wildcard c) && is_accepted c

-- A topic without wildcards; `least` is the least number of bytes.
abbrev pub is_topic : ℕ → List ℕ → Bool
is_topic least cs =
    leb least (length (utf8_text cs)) && (leb (length (utf8_text cs)) 65535 && all is_plain cs)

-- A topic may be empty when there is an alias for it.
abbrev pub least_of : Option ℕ → ℕ
least_of none = 1
least_of (some alias) = 0

abbrev pub IsCodePoints : List ℕ → Type 0
IsCodePoints cs = All IsCodePoint cs

abbrev pub OptionalTexts : Option (List ℕ) → Option (List ℕ) → Type 0
OptionalTexts none none = Unit {0}
OptionalTexts (some u) (some cs) = IsCodePoints cs × (u ≡ utf8_text cs)
OptionalTexts _ _ = true ≡ false

abbrev pub PairsOfTexts : List (List ℕ × List ℕ) → List (List ℕ × List ℕ) → Type 0
PairsOfTexts [] [] = Unit {0}
PairsOfTexts ((u, v) ∷ ps) ((cs, ds) ∷ qs) =
    (IsCodePoints cs × (u ≡ utf8_text cs))
    × ((IsCodePoints ds × (v ≡ utf8_text ds)) × PairsOfTexts ps qs)
PairsOfTexts _ _ = true ≡ false

abbrev pub optional_is : (List ℕ → Bool) → Option (List ℕ) → Bool
optional_is p none = true
optional_is p (some cs) = p cs

abbrev pub both_texts : List (List ℕ × List ℕ) → Bool
both_texts [] = true
both_texts ((cs, ds) ∷ qs) = (is_text cs && is_text ds) && both_texts qs

verdict-plain : (cs : List ℕ) → is_valid_result (some (name_verdict cs)) ≡ all is_plain cs
unfolding name_verdict
verdict-plain [] = refl
verdict-plain (c ∷ cs) = ground (arith, verdict-plain cs)

valid_if :
    (b : Bool) (r : ValidationResult)
    → is_valid_result (some (if b then r else invalid)) ≡ (b && is_valid_result (some r))
valid_if true r = refl
valid_if false r = refl

text-mqtt :
    (cs : List ℕ)
    → IsCodePoints cs
    → is_valid_result (validate_mqtt_utf8 (utf8_text cs)) ≡ is_text cs
text-mqtt cs h = rw (validate_mqtt_utf8-text cs h) (ground arith)

text-topic :
    (cs : List ℕ)
    → IsCodePoints cs
    → is_valid_result (validate_topic_name (utf8_text cs)) ≡ is_topic 1 cs
text-topic cs h =
    ap is_valid_result ((validate_names-text cs h).0)
    ∙ valid_if _ (name_verdict cs)
    ∙ rw (verdict-plain cs) (ground arith)

text-alias :
    (cs : List ℕ)
    → IsCodePoints cs
    → is_valid_result (validate_topic_alias_name (utf8_text cs)) ≡ is_topic 0 cs
text-alias cs h =
    ap is_valid_result ((validate_names-text cs h).1)
    ∙ valid_if _ (name_verdict cs)
    ∙ rw (verdict-plain cs) (ground arith)

text-named :
    (cs : List ℕ) (alias : Option ℕ)
    → IsCodePoints cs
    → topic_name_valid (utf8_text cs) alias ≡ is_topic (least_of alias) cs
text-named cs none h = text-topic cs h
text-named cs (some alias) h = text-alias cs h

optional-text :
    (check p : List ℕ → Bool) (o q : Option (List ℕ))
    → ((cs : List ℕ) → IsCodePoints cs → check (utf8_text cs) ≡ p cs)
    → OptionalTexts o q
    → absent_or check o ≡ optional_is p q
optional-text check p none none e h = refl
optional-text check p none (some cs) e h = ground arith
optional-text check p (some u) none e h = ground arith
optional-text check p (some u) (some cs) e (h, k) = rw k (e cs h)

pairs-text : (ps qs : List (List ℕ × List ℕ)) → PairsOfTexts ps qs → all_pairs ps ≡ both_texts qs
unfolding is_valid_string_pair
pairs-text [] [] h = refl
pairs-text [] (q ∷ qs) h = ground arith
pairs-text (p ∷ ps) [] h = ground arith
pairs-text ((u, v) ∷ ps) ((cs, ds) ∷ qs) ((h, e), ((k, f), l)) =
    rw (e, f, text-mqtt cs h, text-mqtt ds k, pairs-text ps qs l) refl

-- What a PUBLISH message has to satisfy, for a broker with this CONNACK packet, where its texts are the
-- encodings of these code points.
pub record Permitted (connack : List Prop) (qos : Qos) (topic payload : List ℕ) (retain : Bool)
    (props : List Prop) (response content : Option (List ℕ)) (pairs : List (List ℕ × List ℕ))
    : Type 0 where
  pub topic_plain : is_topic (least_of (number_at topic_alias props)) topic ≡ true
  pub qos_allowed : qos_value qos ≤ value_or (number_at maximum_qos connack) 2
  pub retain_allowed : retain ≡ true → value_or (number_at retain_available connack) 1 ≢ 0
  pub payload_text :
      value_or (number_at payload_format_indicator props) 0 ≡ 1 → is_text payload ≡ true
  pub alias_in_range :
      (alias : ℕ)
      → number_at topic_alias props ≡ some alias
      → (0 < alias) × (alias ≤ value_or (number_at topic_alias_maximum connack) 0)
  pub response_plain : optional_is (is_topic 1) response ≡ true
  pub pairs_texts : both_texts pairs ≡ true
  pub no_identifiers : numbers_at subscription_identifier props ≡ []
  pub content_text : optional_is is_text content ≡ true

-- A PUBLISH message whose topic, response topic, content type and user properties are the UTF-8
-- encodings of code points, and its payload too where the properties say that it is a text, passes the
-- validation just when: the topic has at most 65535 bytes, one at least unless there is a topic alias,
-- and only characters that are accepted and no wildcards; QoS, RETAIN and the topic alias are within
-- what the CONNACK packet allows, the alias not 0; the payload, if it is marked as a text, the
-- content type and both halves of each user property are texts of at most 65535 bytes of characters
-- that are accepted; the response topic is a topic that is not empty; and there are no subscription
-- identifiers. The characters that are accepted are those that MQTT allows, less those whose code
-- point ends in the byte FE or FF.
pub validate_publish-text :
    (connack : List Prop) (qos : Qos) (topic payload bytes : List ℕ) (retain : Bool)
    (props : List Prop) (response content : Option (List ℕ)) (pairs : List (List ℕ × List ℕ))
    → IsCodePoints topic
    → IsCodePoints payload
    → (value_or (number_at payload_format_indicator props) 0 ≡ 1 → bytes ≡ utf8_text payload)
    → OptionalTexts (text_at response_topic props) response
    → OptionalTexts (text_at content_type props) content
    → PairsOfTexts (pairs_at user_property props) pairs
    → (refused (validate_publish connack qos (utf8_text topic) bytes retain props) ≡ false)
      ↔ Permitted connack qos topic payload retain props response content pairs
validate_publish-text connack qos topic payload bytes retain props response content pairs t p b r c
      u =
    let (there, back) =
      validate_publish-Accepted connack qos (utf8_text topic) bytes retain props in
    let named = text-named topic (number_at topic_alias props) t in
    let answered =
      optional-text (λ v. is_valid_result (validate_topic_name v)) (is_topic 1) _ response
        text-topic r in
    let typed =
      optional-text (λ v. is_valid_result (validate_mqtt_utf8 v)) is_text _ content text-mqtt c in
    let paired = pairs-text _ pairs u in
    (
      (λ h.
          let a = there h in
          record {
            topic_plain = sym named ∙ a.named;
            qos_allowed = a.qos_allowed;
            retain_allowed = a.retain_allowed;
            payload_text = λ e.
                sym (text-mqtt payload p)
                ∙ ap (λ v. is_valid_result (validate_mqtt_utf8 v)) (sym (b e))
                ∙ a.text_payload e;
            alias_in_range = a.alias_in_range;
            response_plain = sym answered ∙ a.response_named;
            pairs_texts = sym paired ∙ a.texts;
            no_identifiers = a.no_identifiers;
            content_text = sym typed ∙ a.content_typed;
          }),
      (λ a. back (record {
        named = named ∙ a.topic_plain;
        qos_allowed = a.qos_allowed;
        retain_allowed = a.retain_allowed;
        text_payload = λ e.
            ap (λ v. is_valid_result (validate_mqtt_utf8 v)) (b e)
            ∙ text-mqtt payload p
            ∙ a.payload_text e;
        alias_in_range = a.alias_in_range;
        response_named = answered ∙ a.response_plain;
        texts = paired ∙ a.pairs_texts;
        no_identifiers = a.no_identifiers;
        content_typed = typed ∙ a.content_text;
      })),
    )
