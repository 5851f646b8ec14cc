-- ===== src/Utf8.antt =====
-- include/boost/mqtt5/detail/utf8_mqtt.hpp: the check of UTF-8 strings.
--
-- A string is the list of its bytes, each below 256. A mask of low bits is a remainder, a shift a
-- quotient or a product by a power of two; the pieces that the code joins with | share no bit, so
-- they are added. The int -1 is `none`.
pub mod Encoding
pub mod Walk
pub mod Chars
use async_mqtt.Base.{
  ℕ, zero, suc, ◌+◌, ◌*◌, ◌/◌, ◌%◌, Bool, true, false, not, ◌&&◌, ◌||◌, List, [], ◌∷◌, length, ltb,
  leb, ◌==◌, if◌then◌else◌, Option, none, some,
}

pub data ValidationResult : Type 0 where
  valid has_wildcard_character invalid : ValidationResult

-- The branches of `pop_front_unichar` for two, three and four bytes. A string that is too short
-- falls through every test, and is left as it is.
pub pop_two : ℕ → List ℕ → Option ℕ × List ℕ
pop_two b0 [] = (none, b0 ∷ [])
pop_two b0 (b1 ∷ s) = (some (b0 % 32 * 64 + b1 % 64), s)

pub pop_three : ℕ → List ℕ → Option ℕ × List ℕ
pop_three b0 [] = (none, b0 ∷ [])
pop_three b0 (b1 ∷ []) = (none, b0 ∷ b1 ∷ [])
pop_three b0 (b1 ∷ b2 ∷ s) = (some (b0 % 32 * 4096 + b1 % 64 * 64 + b2 % 64), s)

pub pop_four : ℕ → List ℕ → Option ℕ × List ℕ
pop_four b0 [] = (none, b0 ∷ [])
pop_four b0 (b1 ∷ []) = (none, b0 ∷ b1 ∷ [])
pop_four b0 (b1 ∷ b2 ∷ []) = (none, b0 ∷ b1 ∷ b2 ∷ [])
pop_four b0 (b1 ∷ b2 ∷ b3 ∷ s) =
    (some (b0 % 32 * 262144 + b1 % 64 * 4096 + b2 % 64 * 64 + b3 % 64), s)

-- The first character, and what is left. The code is called on nonempty strings only.
unfoldable pub pop_front_unichar : List ℕ → Option ℕ × List ℕ
unfolding pop_two pop_three pop_four
pop_front_unichar [] = (none, [])
pop_front_unichar (b ∷ s) =
    let n = b / 16 * 16 in
    if n / 128 == 0
    then (some b, s)
    else (if (n == 0xC0) || (n == 0xD0)
        then pop_two b s
        else if n == 0xE0
        then pop_three b s
        else if n == 0xF0
        then pop_four b s
        else (none, b ∷ s))

abbrev pub multi_lvl_wildcard : ℕ
multi_lvl_wildcard = b'#'

abbrev pub single_lvl_wildcard : ℕ
single_lvl_wildcard = b'+'

-- The test of `validate_mqtt_utf8_char` under which a character is valid.
unfoldable pub has_valid_code : ℕ → Bool
has_valid_code c =
    ltb 0x1F c
    && (ltb c 0x7F || ltb 0x9F c)
    && (ltb c 0xD800 || ltb 0xDFFF c)
    && (ltb c 0xFDD0 || ltb 0xFDEF c)
    && not (c % 256 / 2 * 2 == 0xFE)
    && not (c % 256 == 0xFF)

unfoldable pub validate_mqtt_utf8_char : Option ℕ → ValidationResult
unfolding has_valid_code
validate_mqtt_utf8_char none = invalid
validate_mqtt_utf8_char (some c) =
    if (c == multi_lvl_wildcard) || (c == single_lvl_wildcard)
    then has_wildcard_character
    else if has_valid_code c
    then valid
    else invalid

unfoldable pub is_valid_string_size : ℕ → Bool
is_valid_string_size sz = leb sz 65535

unfoldable pub is_utf8 : ValidationResult → Bool
is_utf8 valid = true
is_utf8 has_wildcard_character = true
is_utf8 invalid = false

-- The loop of `validate_impl`, with fuel; `none` means that the fuel ran out.
unfoldable pub validate_loop : (ValidationResult → Bool) → ℕ → List ℕ → Option ValidationResult
validate_loop condition fuel [] = some valid
validate_loop condition zero (b ∷ s) = none
validate_loop condition (suc fuel) (b ∷ s) =
    let (c, rest) = pop_front_unichar (b ∷ s) in
    let result = validate_mqtt_utf8_char c in
    let more = validate_loop condition fuel rest in if condition result then more else some result

-- Each round takes a byte at least or ends the loop, so as many rounds as bytes are enough.
unfoldable pub validate_impl :
    (ℕ → Bool) → (ValidationResult → Bool) → List ℕ → Option ValidationResult
validate_impl size_condition condition str =
    if size_condition (length str) then validate_loop condition (length str) str else some invalid

unfoldable pub validate_mqtt_utf8 : List ℕ → Option ValidationResult
validate_mqtt_utf8 = validate_impl is_valid_string_size is_utf8

abbrev pub is_valid_result : Option ValidationResult → Bool
is_valid_result (some valid) = true
is_valid_result _ = false

unfoldable pub is_valid_string_pair : List ℕ × List ℕ → Bool
is_valid_string_pair (first, second) =
    is_valid_result (validate_mqtt_utf8 first) && is_valid_result (validate_mqtt_utf8 second)
