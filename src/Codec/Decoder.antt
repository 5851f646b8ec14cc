-- ===== src/Codec/Decoder.antt =====
-- decoders::basic of include/boost/mqtt5/impl/codecs/base_decoders.hpp, and what the decoders take
-- from the combinators of Boost.Spirit X3: `>>` is `>>=` on the outcomes, a failed parse leaves the
-- iterator where it was, `+p` parses as often as it can and at least once, and `phrase_parse` with
-- a skipper that never matches is the parser itself.
use async_mqtt.Base.{
  ℕ, zero, suc, ◌+◌, ◌-◌, Bool, true, false, List, [], ◌∷◌, length, ltb, take, drop, if◌then◌else◌,
  Option, none, some,
}
use async_mqtt.Codec.Library.{Boost}
use async_mqtt.Codec.Cursor.{Res, ok, fail, fault, Parser, ◌>>=◌}

-- `type_parse(it, it + n, p)`, and the parsers that set their own end: an end behind the buffer is
-- a fault.
unfoldable pub limited : {A : Type 0} → ℕ → Parser A → List ℕ → Res A
limited n p s = if ltb (length s) n then fault else p (length s - n) s

-- `scope_limit_(limit)[p]`
unfoldable pub scope_limit_ : {A : Type 0} → ℕ → Parser A → Parser A
scope_limit_ limit p last s = if ltb (length s) (last + limit) then fail else p (length s - limit) s

-- The parser of the range up to `last`.
unfoldable pub verbatim_ : Parser (List ℕ)
verbatim_ last s = ok (take (length s - last) s) (drop (length s - last) s)

-- `if_(condition)[p]`
unfoldable pub if_ : {A : Type 0} → Bool → Parser A → Parser (Option A)
if_ true p last s = p last s >>= λ a t. ok (some a) t
if_ false p last s = ok none s

-- `+p` after its first round, on fuel; each round of the parsers that it is used with takes a byte
-- at least, so the length of the range is enough.
unfoldable pub many_ : {A : Type 0} → ℕ → Parser A → Parser (List A)
many_ zero p last s = ok [] s
many_ (suc fuel) p last s = elim (p last s) [
  | ok a t ↦ many_ fuel p last t >>= λ as' u. ok (a ∷ as') u
  | fail ↦ ok [] s
  | fault ↦ fault
]

unfoldable pub plus_ : {A : Type 0} → Parser A → Parser (List A)
plus_ p last s = p last s >>= λ a t. many_ (length s) p last t >>= λ as' u. ok (a ∷ as') u

module _ (lib : Boost) where
  -- `len_prefix_parser`: `utf8_` and `binary_`.
  unfoldable pub utf8_ : Parser (List ℕ)
  utf8_ last s = lib.big_word last s >>= λ len t.
      if ltb (length t) (last + len) then fail else ok (take len t) (drop len t)
