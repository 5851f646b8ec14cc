-- ===== src/Codec/ValueRoundTrip.antt =====
-- The decoders of numbers, texts and property values on what their encoders write.
use async_mqtt.Base.{
  ℕ, ◌+◌, ◌%◌, ◌^◌, ◌<◌, ◌≤◌, ◌≡◌, refl, List, [], ◌++◌, length, length-append, ltb, arith, ap, ◌∙◌,
  false, append_assoc, take-append, drop-append,
}
use async_mqtt.Codec.Library.{Boost}
use async_mqtt.Codec.Cursor.{ok}
use async_mqtt.Codec.VarintLaws.{varint-to_variable_bytes, variable_length_pos}
use async_mqtt.Codec.Property.{
  text_pair, PropValue, u8_value, u16_value, varint_value, u32_value, text_value, pair_value,
}
use async_mqtt.Codec.PropEncoder.{encoder_for_prop_value}
use async_mqtt.Codec.Encoder.{varlen_}
use async_mqtt.Codec.Encoder
use async_mqtt.Codec.Frame.{prop_value-IsSound, utf8-IsSound, utf8_encode}
use async_mqtt.Codec.Decoder.{utf8_}
use async_mqtt.Codec.PropDecoder.{parse_value}
use async_mqtt.Codec.Entries.{type_of, InRange}

module _ (lib : Boost) where
  pub word-reads :
      (v last : ℕ) (rest : List ℕ)
      → v < 2 ^ 16
      → last ≤ length rest
      → lib.big_word last (lib.store16 (v % 2 ^ 16) ++ rest) ≡ ok v rest
  word-reads v last rest h l =
      rw (lib.store16_bytes (v % 2 ^ 16) (omega arith))
        (lib.big_word_reads last _ _ rest l ∙ ap (λ (n : ℕ). ok n rest) (omega arith))

  dword-reads :
      (v last : ℕ) (rest : List ℕ)
      → v < 2 ^ 32
      → last ≤ length rest
      → lib.big_dword last (lib.store32 (v % 2 ^ 32) ++ rest) ≡ ok v rest
  dword-reads v last rest h l =
      rw (lib.store32_bytes (v % 2 ^ 32) (omega arith))
        (lib.big_dword_reads last _ _ _ _ rest l ∙ ap (λ (n : ℕ). ok n rest) (omega arith))

  -- A string with its length reads back.
  pub utf8-reads :
      (u : List ℕ) (last : ℕ) (rest : List ℕ)
      → length u < 2 ^ 16
      → last ≤ length rest
      → utf8_ lib last ((Encoder.utf8_ lib u).encode [] ++ rest) ≡ ok u rest
  utf8-reads u last rest h l =
      ap (λ (s : List ℕ). utf8_ lib last (s ++ rest)) (utf8_encode lib u [])
      ∙ ap (utf8_ lib last) (append_assoc (lib.store16 (length u % 2 ^ 16)) u rest)
      ∙ from_word
    where
      longer : last ≤ length (u ++ rest)
      longer = omega (arith, length-append u rest)

      fits : ltb (length (u ++ rest)) (last + length u) ≡ false
      fits = ground (arith, length-append u rest)

      from_word : utf8_ lib last (lib.store16 (length u % 2 ^ 16) ++ (u ++ rest)) ≡ ok u rest
      from_word =
          unfold utf8_ in
          rw (word-reads (length u) last (u ++ rest) h longer)
            (rw (fits, take-append u rest, drop-append u rest) refl)

  unfoldable pub value_bytes : PropValue → List ℕ
  value_bytes v = (encoder_for_prop_value lib v).encode []

  pair-reads :
      (u v : List ℕ) (last : ℕ) (rest : List ℕ)
      → length u < 2 ^ 16
      → length v < 2 ^ 16
      → last ≤ length rest
      → parse_value lib text_pair last
          ((Encoder.utf8_ lib u).encode [] ++ ((Encoder.utf8_ lib v).encode [] ++ rest))
        ≡ ok (pair_value u v) rest
  unfolding parse_value
  pair-reads u v last rest r q l =
      let longer : last ≤ length ((Encoder.utf8_ lib v).encode [] ++ rest) =
        omega (arith, length-append ((Encoder.utf8_ lib v).encode []) rest) in
      rw (utf8-reads u last ((Encoder.utf8_ lib v).encode [] ++ rest) r longer, parse_value)
        (rw (utf8-reads v last rest q l) refl)

  pub parse_value-reads :
      (v : PropValue) (last : ℕ) (rest : List ℕ)
      → InRange v
      → last ≤ length rest
      → parse_value lib (type_of v) last (value_bytes v ++ rest) ≡ ok v rest
  unfolding value_bytes encoder_for_prop_value parse_value
  parse_value-reads (u8_value v) last rest r l =
      let e : v % 256 ≡ v = omega arith in rw (lib.byte_reads last (v % 256) rest l, e) refl
  parse_value-reads (u16_value v) last rest r l = rw (word-reads v last rest r l) refl
  parse_value-reads (varint_value v) last rest r l =
      let e : v % 2 ^ 32 ≡ v = omega arith in rw (e, varint-to_variable_bytes v last rest r l) refl
  parse_value-reads (u32_value v) last rest r l = rw (dword-reads v last rest r l) refl
  parse_value-reads (text_value u) last rest r l = rw (utf8-reads u last rest r l) refl
  parse_value-reads (pair_value u v) last rest (r, q) l =
      let both = (utf8-IsSound lib v).appends ((Encoder.utf8_ lib u).encode []) in
      ap (λ (s : List ℕ). parse_value lib text_pair last (s ++ rest)) both
      ∙ ap (parse_value lib text_pair last) (append_assoc _ ((Encoder.utf8_ lib v).encode []) rest)
      ∙ pair-reads u v last rest r q l

  size_pos : (v : PropValue) → InRange v → 0 < (encoder_for_prop_value lib v).byte_size
  unfolding encoder_for_prop_value
  size_pos (u8_value v) r = omega arith
  size_pos (u16_value v) r = omega arith
  size_pos (varint_value v) r = variable_length_pos (v % 2 ^ 32) (omega arith)
  size_pos (u32_value v) r = omega arith
  size_pos (text_value u) r = omega arith
  size_pos (pair_value u v) r = omega arith

  pub length-value_bytes : (v : PropValue) → InRange v → 0 < length (value_bytes v)
  unfolding value_bytes
  length-value_bytes v r = omega (arith, (prop_value-IsSound lib v).sized, size_pos v r)
