-- ===== src/Topic/Names.antt =====
-- What the checks of topic names and of shared filters accept.
use async_mqtt.Base.{
  ℕ, ◌<◌, ◌≤◌, ◌≡◌, ◌≢◌, refl, List, [], ◌∷◌, ◌++◌, All, length, leb, ◌==◌, if◌then◌else◌, some,
  arith, ◌∙◌, Bool, true, ◌&&◌, ◌||◌,
}
use async_mqtt.Utf8.{
  ValidationResult, valid, invalid, has_wildcard_character, validate_mqtt_utf8_char,
  is_valid_string_size, validate_impl, has_valid_code,
}
use async_mqtt.Utf8.Encoding.{utf8_text, IsCodePoint}
use async_mqtt.Utf8.Walk.{walk, validate_loop-text}
use async_mqtt.Utf8.Chars.{is_accepted}
use async_mqtt.Topic.{
  is_valid_topic_size, is_not_empty, is_utf8_no_wildcard, validate_topic_name,
  validate_topic_alias_name, validate_shared_topic_name, shared_sub_prefix, strip_prefix,
  split_first, validate_shared_topic_filter, validate_topic_filter,
}

abbrev pub is_wildcard : ℕ → Bool
is_wildcard c = (c == b'#') || (c == b'+')

-- The answer that the first character decides which is no plain one.
unfoldable pub name_verdict : List ℕ → ValidationResult
name_verdict [] = valid
name_verdict (c ∷ cs) =
    if is_wildcard c
    then has_wildcard_character
    else if is_accepted c
    then name_verdict cs
    else invalid

name_step :
    (c : ℕ) (r : ValidationResult)
    → (if is_utf8_no_wildcard (validate_mqtt_utf8_char (some c))
        then r
        else validate_mqtt_utf8_char (some c))
      ≡ (if is_wildcard c then has_wildcard_character else if is_accepted c then r else invalid)
unfolding is_utf8_no_wildcard validate_mqtt_utf8_char has_valid_code
name_step c r = ground arith

walk-name : (cs : List ℕ) → walk is_utf8_no_wildcard cs ≡ name_verdict cs
unfolding walk name_verdict
walk-name [] = refl
walk-name (c ∷ cs) = name_step c (walk is_utf8_no_wildcard cs) ∙ rw (walk-name cs)

impl-name :
    (size_condition : ℕ → Bool) (cs : List ℕ)
    → All IsCodePoint cs
    → validate_impl size_condition is_utf8_no_wildcard (utf8_text cs)
      ≡ some (if size_condition (length (utf8_text cs)) then name_verdict cs else invalid)
unfolding validate_impl
impl-name size_condition cs h =
    rw
      (
        validate_loop-text is_utf8_no_wildcard cs (length (utf8_text cs)) h (omega arith),
        walk-name cs,
      )
      (ground arith)

-- The three checks of names on the encoding of code points: each answers `invalid` on a text whose
-- number of bytes is not allowed, and else by the first character that is a wildcard or not
-- accepted. A topic name has 1 to 65535 bytes, a name with an alias at most 65535, a share name 1
-- at least.
pub validate_names-text :
    (cs : List ℕ)
    → All IsCodePoint cs
    → let n = length (utf8_text cs) in
      (validate_topic_name (utf8_text cs)
        ≡ some (if leb 1 n && leb n 65535 then name_verdict cs else invalid))
      × (validate_topic_alias_name (utf8_text cs)
          ≡ some (if leb n 65535 then name_verdict cs else invalid))
      × (validate_shared_topic_name (utf8_text cs)
          ≡ some (if leb 1 n then name_verdict cs else invalid))
unfolding validate_topic_name validate_topic_alias_name validate_shared_topic_name
    is_valid_topic_size is_not_empty is_valid_string_size
validate_names-text cs h = (
  ground (arith, impl-name is_valid_topic_size cs h),
  ground (arith, impl-name is_valid_string_size cs h),
  ground (arith, impl-name is_not_empty cs h),
)

strip_prefix-append : (p s : List ℕ) → strip_prefix p (p ++ s) ≡ some s
unfolding strip_prefix
strip_prefix-append [] s = refl
strip_prefix-append (b ∷ p) s = ground (arith, strip_prefix-append p s)

split_first-append :
    (x : ℕ) (front back : List ℕ)
    → All (λ b. b ≢ x) front
    → split_first x (front ++ (x ∷ back)) ≡ some (front, back)
unfolding split_first
split_first-append x [] back h = ground arith
split_first-append x (b ∷ front) back (ne, h) = ground (arith, split_first-append x front back h)

shared_filter_cases :
    (str rest share_name topic_filter : List ℕ) (wildcard_allowed : Bool)
    → is_valid_topic_size (length str) ≡ true
    → strip_prefix shared_sub_prefix str ≡ some rest
    → split_first b'/' rest ≡ some (share_name, topic_filter)
    → validate_shared_topic_name share_name ≡ some valid
    → validate_shared_topic_filter str wildcard_allowed ≡ (
        if wildcard_allowed
        then validate_topic_filter topic_filter
        else validate_topic_name topic_filter)
unfolding validate_shared_topic_filter
shared_filter_cases str rest share_name topic_filter wildcard_allowed z e f v = rw (z, e, f, v)

size_ok : (n : ℕ) → 0 < n → n ≤ 65535 → is_valid_topic_size n ≡ true
unfolding is_valid_topic_size is_not_empty is_valid_string_size
size_ok n h l = ground arith

-- A shared filter "$share/NAME/FILTER" of at most 65535 bytes, NAME without a slash: if the check
-- of share names answers `valid` on NAME, the answer is that of the check of topic filters on
-- FILTER, or, where wildcards are not allowed, that of the check of topic names.
pub validate_shared_topic_filter-parts :
    (share_name topic_filter : List ℕ) (wildcard_allowed : Bool)
    → All (λ b. b ≢ b'/') share_name
    → length (shared_sub_prefix ++ (share_name ++ (b'/' ∷ topic_filter))) ≤ 65535
    → validate_shared_topic_name share_name ≡ some valid
    → validate_shared_topic_filter
        (shared_sub_prefix ++ (share_name ++ (b'/' ∷ topic_filter)))
        wildcard_allowed
      ≡ (if wildcard_allowed
          then validate_topic_filter topic_filter
          else validate_topic_name topic_filter)
validate_shared_topic_filter-parts share_name topic_filter wildcard_allowed h l v =
    shared_filter_cases _ (share_name ++ (b'/' ∷ topic_filter)) share_name topic_filter
      wildcard_allowed (size_ok _ (omega arith) l)
      (strip_prefix-append shared_sub_prefix (share_name ++ (b'/' ∷ topic_filter)))
      (split_first-append b'/' share_name topic_filter h) v
