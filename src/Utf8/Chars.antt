-- ===== src/Utf8/Chars.antt =====
-- What the check of UTF-8 strings accepts.
use async_mqtt.Base.{
  ℕ, zero, suc, ◌%◌, ◌<◌, ◌≤◌, ◌≡◌, ◌≢◌, refl, List, [], ◌∷◌, All, length, leb, if◌then◌else◌, none,
  some, arith, ap, Bool, true, false, not, ◌&&◌, ◌||◌, Bool-cases, ◌⊎◌, inl, inr,
}
use async_mqtt.Utf8.{
  ValidationResult, valid, invalid, pop_front_unichar, validate_mqtt_utf8_char, has_valid_code,
  validate_loop, is_utf8, validate_impl, validate_mqtt_utf8, is_valid_string_size,
}
use async_mqtt.Utf8.Encoding.{utf8_text, IsCodePoint}
use async_mqtt.Utf8.Walk.{walk, validate_loop-text}

-- The code points that the MQTT specification tells a client not to send.
abbrev pub is_control : ℕ → Bool
is_control c = leb c 0x1F || leb 0x7F c && leb c 0x9F

abbrev pub is_surrogate : ℕ → Bool
is_surrogate c = leb 0xD800 c && leb c 0xDFFF

abbrev pub is_noncharacter : ℕ → Bool
is_noncharacter c = leb 0xFDD0 c && leb c 0xFDEF || leb 0xFFFE (c % 0x10000)

abbrev pub is_mqtt_char : ℕ → Bool
is_mqtt_char c = not (is_control c) && not (is_surrogate c) && not (is_noncharacter c)

-- Code points such as U+00FE and U+00FF.
abbrev pub ends_in_fe_ff : ℕ → Bool
ends_in_fe_ff c = leb 0xFE (c % 0x100)

abbrev pub is_accepted : ℕ → Bool
is_accepted c = is_mqtt_char c && not (ends_in_fe_ff c)

abbrev pub all : (ℕ → Bool) → List ℕ → Bool
all p [] = true
all p (c ∷ cs) = p c && all p cs

check-utf8 : (c : ℕ) → is_utf8 (validate_mqtt_utf8_char (some c)) ≡ is_accepted c
unfolding is_utf8 validate_mqtt_utf8_char has_valid_code
check-utf8 c = ground arith

check_refused : (c : ℕ) → is_accepted c ≡ false → validate_mqtt_utf8_char (some c) ≡ invalid
unfolding validate_mqtt_utf8_char has_valid_code
check_refused c h = ground arith

walk-utf8 : (cs : List ℕ) → walk is_utf8 cs ≡ (if all is_accepted cs then valid else invalid)
unfolding walk
walk-utf8 [] = refl
walk-utf8 (c ∷ cs) = elim (Bool-cases (is_accepted c)) [
  | inl e ↦ rw (check-utf8 c, e) (walk-utf8 cs)
  | inr e ↦ rw (check-utf8 c, e) (check_refused c e)
]

-- On the encoding of code points validate_mqtt_utf8 answers `valid` exactly if it takes at most
-- 65535 bytes and no code point is a control character, a surrogate, a noncharacter or one whose
-- low eight bits are 0xFE or 0xFF; in all other cases the answer is `invalid`.
pub validate_mqtt_utf8-text :
    (cs : List ℕ)
    → All IsCodePoint cs
    → validate_mqtt_utf8 (utf8_text cs)
      ≡ some (if leb (length (utf8_text cs)) 65535 && all is_accepted cs then valid else invalid)
unfolding validate_mqtt_utf8 validate_impl is_valid_string_size
validate_mqtt_utf8-text cs h =
    ground (arith, validate_loop-text is_utf8 cs (length (utf8_text cs)) h, walk-utf8 cs)

pop_shrinks :
    (b : ℕ) (s : List ℕ)
    → ((pop_front_unichar (b ∷ s)).0 ≡ none) ⊎ (length (pop_front_unichar (b ∷ s)).1 ≤ length s)
unfolding pop_front_unichar
pop_shrinks b [] = ground arith
pop_shrinks b (x ∷ []) = ground arith
pop_shrinks b (x ∷ y ∷ []) = ground arith
pop_shrinks b (x ∷ y ∷ z ∷ s) = ground arith

check_none : validate_mqtt_utf8_char none ≡ invalid
unfolding validate_mqtt_utf8_char
check_none = refl

validate_loop_total :
    (condition : ValidationResult → Bool) (fuel : ℕ) (s : List ℕ)
    → condition invalid ≡ false
    → length s ≤ fuel
    → validate_loop condition fuel s ≢ none
unfolding validate_loop
validate_loop_total condition fuel [] ci l = λ e. cc
validate_loop_total condition zero (b ∷ s) ci l = absurd (omega arith)
validate_loop_total condition (suc fuel) (b ∷ s) ci l =
    elim (Bool-cases (condition (validate_mqtt_utf8_char (pop_front_unichar (b ∷ s)).0))) [
      | inl go ↦ elim (pop_shrinks b s) [
        | inl e ↦
            cc (go, ci, ap (λ c. condition (validate_mqtt_utf8_char c)) e, ap condition check_none)
        | inr shorter ↦ rw go (validate_loop_total condition fuel _ ci (omega arith))
      ]
      | inr stop ↦ rw stop (λ e. cc)
    ]

-- Under a condition that refuses `invalid`, the loop of validate_impl ends on every string.
pub validate_impl_total :
    (size_condition : ℕ → Bool) (condition : ValidationResult → Bool) (s : List ℕ)
    → condition invalid ≡ false
    → validate_impl size_condition condition s ≢ none
unfolding validate_impl
validate_impl_total size_condition condition s ci =
    ground (arith, validate_loop_total condition (length s) s ci)

-- On a first byte 0xC0, ..., 0xDF pop_front_unichar does not look at the two high bits of the
-- second byte: two strings that differ in these only give the same character and rest.
pub second_byte_unchecked :
    (b0 b1 b1' : ℕ) (s : List ℕ)
    → 0xC0 ≤ b0
    → b0 < 0xE0
    → b1 % 64 ≡ b1' % 64
    → pop_front_unichar (b0 ∷ b1 ∷ s) ≡ pop_front_unichar (b0 ∷ b1' ∷ s)
unfolding pop_front_unichar
second_byte_unchecked b0 b1 b1' s lo hi e = ground arith
