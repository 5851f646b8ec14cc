-- ===== src/Utf8/Encoding.antt =====
-- The UTF-8 encoding of code points, and pop_front_unichar on what it gives.
use async_mqtt.Base.{
  ℕ, ◌+◌, ◌/◌, ◌%◌, ◌<◌, ◌≡◌, List, [], ◌∷◌, ◌++◌, length, ltb, if◌then◌else◌, some, arith,
}
use async_mqtt.Utf8.{pop_front_unichar}

-- The bytes of one code point below 0x110000.
unfoldable pub utf8 : ℕ → List ℕ
utf8 c =
    if ltb c 0x80
    then c ∷ []
    else (if ltb c 0x800
        then (0xC0 + c / 64) ∷ (0x80 + c % 64) ∷ []
        else (if ltb c 0x10000
            then (0xE0 + c / 4096) ∷ (0x80 + c / 64 % 64) ∷ (0x80 + c % 64) ∷ []
            else (0xF0 + c / 262144)
              ∷ (0x80 + c / 4096 % 64)
              ∷ (0x80 + c / 64 % 64)
              ∷ (0x80 + c % 64)
              ∷ []))

unfoldable pub utf8_text : List ℕ → List ℕ
utf8_text [] = []
utf8_text (c ∷ cs) = utf8 c ++ utf8_text cs

abbrev pub IsCodePoint : ℕ → Type 0
IsCodePoint c = c < 0x110000

-- What pop_front_unichar makes of the code point. The mask 0x1F keeps one bit of the marker of a
-- first byte 0xF0, ..., 0xF4.
unfoldable pub read_back : ℕ → ℕ
read_back c = if ltb c 0x10000 then c else (c + 0x400000)

-- On the encoding of a code point, whatever follows, pop_front_unichar takes exactly that encoding
-- and returns the code point if it is below 0x10000, and the code point plus 0x400000 if not.
pub pop_front-utf8 :
    (c : ℕ) (rest : List ℕ)
    → IsCodePoint c
    → pop_front_unichar (utf8 c ++ rest) ≡ (some (read_back c), rest)
unfolding pop_front_unichar utf8 read_back
pop_front-utf8 c rest h = ground arith

pub length-utf8 : (c : ℕ) → 0 < length (utf8 c)
unfolding utf8
length-utf8 c = ground arith
