-- ===== src/Topic.antt =====
-- include/boost/mqtt5/detail/topic_validation.hpp: the checks of topic names and topic filters.
pub mod Names
pub mod Text
pub mod Scan
pub mod Levels
pub mod Endings
pub mod Filters
use async_mqtt.Base.{
  ℕ, zero, suc, ◌+◌, Bool, true, false, not, ◌&&◌, ◌||◌, List, [], ◌∷◌, length, ltb, leb, ◌==◌,
  if◌then◌else◌, Option, none, some,
}
use async_mqtt.Utf8.{
  ValidationResult, valid, has_wildcard_character, invalid, pop_front_unichar,
  validate_mqtt_utf8_char, is_valid_string_size, validate_impl, multi_lvl_wildcard,
  single_lvl_wildcard,
}

abbrev pub min_subscription_identifier : ℕ
min_subscription_identifier = 1

abbrev pub max_subscription_identifier : ℕ
max_subscription_identifier = 268435455

-- "$share/"
abbrev pub shared_sub_prefix : List ℕ
shared_sub_prefix = b'$' ∷ b's' ∷ b'h' ∷ b'a' ∷ b'r' ∷ b'e' ∷ b'/' ∷ []

unfoldable pub is_utf8_no_wildcard : ValidationResult → Bool
is_utf8_no_wildcard valid = true
is_utf8_no_wildcard has_wildcard_character = false
is_utf8_no_wildcard invalid = false

unfoldable pub is_not_empty : ℕ → Bool
is_not_empty sz = not (sz == 0)

unfoldable pub is_valid_topic_size : ℕ → Bool
unfolding is_not_empty is_valid_string_size
is_valid_topic_size sz = is_not_empty sz && is_valid_string_size sz

unfoldable pub validate_topic_name : List ℕ → Option ValidationResult
validate_topic_name = validate_impl is_valid_topic_size is_utf8_no_wildcard

unfoldable pub validate_topic_alias_name : List ℕ → Option ValidationResult
validate_topic_alias_name = validate_impl is_valid_string_size is_utf8_no_wildcard

unfoldable pub validate_shared_topic_name : List ℕ → Option ValidationResult
validate_shared_topic_name = validate_impl is_not_empty is_utf8_no_wildcard

-- `!str.empty() && str.back() == x`
unfoldable pub ends_with : ℕ → List ℕ → Bool
ends_with x [] = false
ends_with x (b ∷ []) = b == x
ends_with x (b ∷ d ∷ s) = ends_with x (d ∷ s)

-- `str.empty() || str.front() == x`
unfoldable pub stops_or_starts_with : ℕ → List ℕ → Bool
stops_or_starts_with x [] = true
stops_or_starts_with x (b ∷ s) = b == x

-- `str.remove_suffix(1)`
unfoldable pub remove_last : List ℕ → List ℕ
remove_last [] = []
remove_last (b ∷ []) = []
remove_last (b ∷ d ∷ s) = b ∷ remove_last (d ∷ s)

-- `last_c == -1 || last_c == '/'`
unfoldable pub at_level_start : Option ℕ → Bool
at_level_start none = true
at_level_start (some c) = c == b'/'

unfoldable pub is_single_lvl : Option ℕ → Bool
is_single_lvl none = false
is_single_lvl (some c) = c == single_lvl_wildcard

abbrev pub is_valid_char : ValidationResult → Bool
is_valid_char valid = true
is_valid_char _ = false

-- The loop of `validate_topic_filter`, with fuel; `none` means that the fuel ran out.
unfoldable pub filter_loop : ℕ → Option ℕ → List ℕ → Option ValidationResult
unfolding is_single_lvl stops_or_starts_with at_level_start
filter_loop fuel last_c [] = some valid
filter_loop zero last_c (b ∷ s) = none
filter_loop (suc fuel) last_c (b ∷ s) =
    let (c, rest) = pop_front_unichar (b ∷ s) in
    let is_valid_single_lvl =
      is_single_lvl c && stops_or_starts_with b'/' rest && at_level_start last_c in
    let more = filter_loop fuel c rest in
    if is_valid_char (validate_mqtt_utf8_char c) || is_valid_single_lvl then more else some invalid

-- As many rounds as bytes are enough.
unfoldable pub validate_topic_filter : List ℕ → Option ValidationResult
validate_topic_filter str =
    if is_valid_topic_size (length str)
    then (if ends_with multi_lvl_wildcard str
        then (let rest = remove_last str in
            if not (length rest == 0) && not (ends_with b'/' rest)
            then some invalid
            else filter_loop (length rest) none rest)
        else filter_loop (length str) none str)
    else some invalid

-- `str.compare(0, prefix.size(), prefix) == 0`, and then `remove_prefix`.
unfoldable pub strip_prefix : List ℕ → List ℕ → Option (List ℕ)
strip_prefix [] s = some s
strip_prefix (p ∷ ps) [] = none
strip_prefix (p ∷ ps) (b ∷ s) = if p == b then strip_prefix ps s else none

-- `find_first_of(x)`: what stands before the first `x`, and what stands behind it.
unfoldable pub split_first : ℕ → List ℕ → Option (List ℕ × List ℕ)
split_first x [] = none
split_first x (b ∷ s) =
    let rest = split_first x s in
    if b == x
    then some ([], s)
    else elim rest [ none ↦ none | some (front, back) ↦ some (b ∷ front, back) ]

unfoldable pub validate_shared_filter :
    Bool → Option ValidationResult → List ℕ → Option ValidationResult
validate_shared_filter wildcard_allowed none topic_filter = none
validate_shared_filter wildcard_allowed (some valid) topic_filter =
    if wildcard_allowed
    then validate_topic_filter topic_filter
    else validate_topic_name topic_filter
validate_shared_filter wildcard_allowed (some has_wildcard_character) topic_filter = some invalid
validate_shared_filter wildcard_allowed (some invalid) topic_filter = some invalid

unfoldable pub validate_shared_topic_filter : List ℕ → Bool → Option ValidationResult
unfolding validate_shared_filter
validate_shared_topic_filter str wildcard_allowed =
    if is_valid_topic_size (length str)
    then elim (strip_prefix shared_sub_prefix str) [
      | none ↦ some invalid
      | some rest ↦ elim (split_first b'/' rest) [
        | none ↦ some invalid
        | some (share_name, topic_filter) ↦
            validate_shared_filter wildcard_allowed (validate_shared_topic_name share_name)
              topic_filter
      ]
    ]
    else some invalid
