-- ===== src/Codec/Varint.antt =====
-- Variable byte integers: to_variable_bytes and variable_length of
-- include/boost/mqtt5/impl/codecs/base_encoders.hpp, varint_parser of base_decoders.hpp.
--
-- An int32_t is its bit pattern, a number below 2 ^ 32; from 2 ^ 31 on it is negative.
use async_mqtt.Base.{
  ℕ, zero, suc, ◌+◌, ◌*◌, ◌/◌, ◌%◌, ◌^◌, Bool, ◌&&◌, ◌||◌, List, [], ◌∷◌, ◌++◌, ltb, leb, ◌==◌,
  if◌then◌else◌,
}
use async_mqtt.Codec.Cursor.{Res, ok, fail, fault, Parser, at_end}

-- `val > k` for a k that is not negative.
abbrev pub exceeds : ℕ → ℕ → Bool
exceeds val k = ltb val 0x8000_0000 && ltb k val

-- The while loop of `to_variable_bytes` with the last push, on fuel. `& 0x7f` is `% 128`, and
-- `| 0x80` adds 128 to what is below that.
unfoldable pub to_variable_loop : ℕ → List ℕ → ℕ → List ℕ
to_variable_loop zero s val = s
to_variable_loop (suc fuel) s val =
    let more = to_variable_loop fuel (s ++ ((val % 128 + 128) ∷ [])) (val / 128) in
    if exceeds val 127 then more else (s ++ ((val % 128) ∷ []))

-- A value that passes the first test is below 128 ^ 4, so four rounds are enough.
unfoldable pub to_variable_bytes : List ℕ → ℕ → List ℕ
to_variable_bytes s val = if exceeds val 0xfffffff then s else to_variable_loop 4 s val

-- The for loop of `variable_length`, on fuel; `rv` counts the bytes.
unfoldable pub variable_length_loop : ℕ → ℕ → ℕ → ℕ
variable_length_loop zero rv val = rv
variable_length_loop (suc fuel) rv val =
    let more = variable_length_loop fuel (rv + 1) (val / 128) in
    if exceeds val 127 then more else rv

unfoldable pub variable_length : ℕ → ℕ
variable_length val = if exceeds val 0xfffffff then 0 else variable_length_loop 4 1 val

-- The for loop of `varint_parser::parse`. It leaves with `bit_shift` other than 0, and so fails, at
-- the end of the input and after four bytes. The bits that |= joins do not overlap.
unfoldable pub varint_loop : ℕ → ℕ → ℕ → List ℕ → Res ℕ
varint_loop last result bit_shift [] = if (last == 0) || leb 28 bit_shift then fail else fault
varint_loop last result bit_shift (val ∷ s) =
    let more = varint_loop last (result + val % 128 * 2 ^ bit_shift) (bit_shift + 7) s in
    if at_end last (val ∷ s)
    then fail
    else (if ltb bit_shift 28
        then (if leb 128 val then more else ok (result + val * 2 ^ bit_shift) s)
        else fail)

unfoldable pub varint_ : Parser ℕ
varint_ last s = varint_loop last 0 0 s
