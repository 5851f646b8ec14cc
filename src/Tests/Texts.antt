-- ===== src/Tests/Texts.antt =====
-- The checks of strings, topic names and topic filters at concrete texts.
use async_mqtt.Base.{ℕ, ◌≡◌, ◌≢◌, refl, List, [], ◌∷◌, ◌++◌, arith, some, none}
use async_mqtt.Utf8.{
  valid, invalid, pop_front_unichar, validate_mqtt_utf8, validate_impl, is_valid_string_size,
  is_utf8,
}
use async_mqtt.Utf8.Encoding.{utf8, utf8_text, read_back, pop_front-utf8}
use async_mqtt.Utf8.Chars.{validate_mqtt_utf8-text, validate_impl_total, second_byte_unchecked}
use async_mqtt.Topic.{validate_topic_filter, is_valid_topic_size, ends_with, remove_last}
use async_mqtt.Topic.Levels.{levels, filter_ok, level_ok}
use async_mqtt.Topic.Scan.{is_plain}
use async_mqtt.Topic.Filters.{validate_topic_filter-text}

-- "a/+/#"
abbrev filter_chars : List ℕ
filter_chars = b'a' ∷ b'/' ∷ b'+' ∷ b'/' ∷ b'#' ∷ []

-- "aþ"
abbrev thorn : List ℕ
thorn = b'a' ∷ 0xFE ∷ []

pop_front-utf8_example : pop_front_unichar (utf8 0x1F600 ++ (7 ∷ [])) ≡ (some 0x41F600, 7 ∷ [])
unfolding read_back
pop_front-utf8_example = pop_front-utf8 0x1F600 (7 ∷ []) (omega arith)

validate_mqtt_utf8-text_example : validate_mqtt_utf8 (utf8_text thorn) ≡ some invalid
unfolding utf8_text utf8
validate_mqtt_utf8-text_example = validate_mqtt_utf8-text thorn (omega arith)

validate_impl_total_example : validate_impl is_valid_string_size is_utf8 (0xC1 ∷ []) ≢ none
unfolding is_utf8
validate_impl_total_example = validate_impl_total is_valid_string_size is_utf8 (0xC1 ∷ []) refl

second_byte_unchecked_example :
    pop_front_unichar (0xC3 ∷ 0x3E ∷ []) ≡ pop_front_unichar (0xC3 ∷ 0xBE ∷ [])
second_byte_unchecked_example =
    second_byte_unchecked 0xC3 0x3E 0xBE [] (omega arith) (omega arith) (omega arith)

validate_topic_filter-text_example : validate_topic_filter (utf8_text filter_chars) ≡ some valid
unfolding utf8_text utf8 levels filter_ok level_ok is_plain
validate_topic_filter-text_example = validate_topic_filter-text filter_chars (omega arith)

-- "a#" is no topic filter.
hash_in_level : validate_topic_filter (b'a' ∷ b'#' ∷ []) ≡ some invalid
unfolding validate_topic_filter is_valid_topic_size ends_with remove_last
hash_in_level = refl
