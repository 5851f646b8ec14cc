-- ===== src/Codec/PropDecoder.antt =====
-- decoders::prop of include/boost/mqtt5/impl/codecs/base_decoders.hpp, and `apply_on` of
-- include/boost/mqtt5/property_types.hpp.
use async_mqtt.Base.{ℕ, zero, suc, ◌-◌, List, [], ◌∷◌, ◌++◌, length, ltb, ◌==◌, if◌then◌else◌, some}
use async_mqtt.Codec.Library.{Boost}
use async_mqtt.Codec.Cursor.{Res, ok, fail, fault, Parser, ◌>>=◌, at_end}
use async_mqtt.Codec.Varint.{varint_}
use async_mqtt.Codec.Property.{
  PropType, u8, u16, varint, u32, text, text_pair, PropValue, u8_value, u16_value, varint_value,
  u32_value, text_value, pair_value, Stored, single, many, Prop,
}
use async_mqtt.Codec.Decoder.{utf8_}

-- `prop.emplace(value)` and `prop.push_back(value)`.
abbrev pub store : PropValue → Stored → Stored
store v (single old) = single (some v)
store v (many vs) = many (vs ++ (v ∷ []))

module _ (lib : Boost) where
  abbrev pub second_text : List ℕ → ℕ → List ℕ → Res PropValue
  second_text first last s = utf8_ lib last s >>= λ second t. ok (pair_value first second) t

  -- `parse_to_prop` on a value. That of a pair does not look at the outcome of the first string.
  unfoldable pub parse_value : PropType → Parser PropValue
  parse_value u8 last s = lib.byte_ last s >>= λ v t. ok (u8_value v) t
  parse_value u16 last s = lib.big_word last s >>= λ v t. ok (u16_value v) t
  parse_value varint last s = varint_ last s >>= λ v t. ok (varint_value v) t
  parse_value u32 last s = lib.big_dword last s >>= λ v t. ok (u32_value v) t
  parse_value text last s = utf8_ lib last s >>= λ v t. ok (text_value v) t
  parse_value text_pair last s = elim (utf8_ lib last s) [
    | ok first t ↦ second_text first last t
    | fail ↦ second_text [] last s
    | fault ↦ fault
  ]

  -- `apply_on` with `parse_to_prop`: the first property with the identifier is given a value. That
  -- there is none shows to the caller as `iter == saved`, on which it fails.
  unfoldable pub apply_on : ℕ → ℕ → List ℕ → List Prop → Res (List Prop)
  apply_on id last s [] = fail
  apply_on id last s (p ∷ ps) =
      let later = apply_on id last s ps in
      if p.id == id
      then (parse_value p.type last s >>= λ v t. ok (record p { value = store v p.value } ∷ ps) t)
      else (later >>= λ qs t. ok (p ∷ qs) t)

  -- The loop of `prop_parser`, on fuel.
  unfoldable pub props_loop : ℕ → ℕ → List Prop → List ℕ → Res (List Prop)
  props_loop fuel last attr [] = ok attr []
  props_loop zero last attr (id ∷ s) =
      if ltb last (length (id ∷ s)) then fault else ok attr (id ∷ s)
  props_loop (suc fuel) last attr (id ∷ s) =
      let round = apply_on id last s attr >>= λ next t.
      if length t == length s then fail else props_loop fuel last next t in
      if ltb last (length (id ∷ s)) then round else ok attr (id ∷ s)

  -- As many rounds as bytes are enough.
  unfoldable pub props_parser : List Prop → Parser (List Prop)
  props_parser attr last s =
      let parse = varint_ last s >>= λ props_length t.
      if ltb (length t) props_length
      then fault
      else props_loop (length t) (length t - props_length) attr t in
      if at_end last s then ok attr s else parse
