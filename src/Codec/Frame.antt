-- ===== src/Codec/Frame.antt =====
-- What an encoder promises, and the encoders of base_encoders.hpp one by one.
use async_mqtt.Base.{
  ◌^◌, append-nil, ℕ, ◌+◌, ◌%◌, ◌≡◌, refl, sym, List, [], ◌∷◌, ◌++◌, length, length-append, ◌==◌,
  Option, none, some, arith, append_assoc, ap, ◌∙◌, Bool, ◌&&◌, Bool-cases, inl, inr,
}
use async_mqtt.Codec.Library.{Boost}
use async_mqtt.Codec.VarintLaws.{to_variable_bytes-append, variable_length-bytes}
use async_mqtt.Codec.Encoder.{
  Encoder, Flag, flag_encoder, nothing, byte_, varlen_, int16_, int32_, utf8_, verbatim_, optional,
  ◌&◌,
}
use async_mqtt.Codec.Property.{
  PropValue, u8_value, u16_value, varint_value, u32_value, text_value, pair_value, Stored, single,
  many, Prop,
}
use async_mqtt.Codec.PropEncoder.{
  encoder_for_prop_value, vector_size, vector_encode, prop_val, props_size, props_encode, props_val,
}

-- An encoder keeps the string so far, and appends as many bytes as `byte_size` says, always the same.
pub record IsSound (e : Encoder) : Type 0 where
  pub appends : (s : List ℕ) → e.encode s ≡ s ++ e.encode []
  pub sized : length (e.encode []) ≡ e.byte_size

pub flag-IsSound : (f : Flag) → IsSound (flag_encoder f)
flag-IsSound f = record { appends = λ s. refl; sized = omega arith }

pub nothing-IsSound : IsSound nothing
nothing-IsSound = record { appends = λ s. sym (append-nil s); sized = omega arith }

pub byte-IsSound : (v : ℕ) → IsSound (byte_ v)
byte-IsSound v = record { appends = λ s. refl; sized = omega arith }

pub varlen-IsSound : (v : ℕ) → IsSound (varlen_ v)
varlen-IsSound v = record {
  appends = λ s. to_variable_bytes-append s (v % 2 ^ 32);
  sized = omega (arith, variable_length-bytes [] (v % 2 ^ 32));
}

pub &-IsSound : (a b : Encoder) → IsSound a → IsSound b → IsSound (a & b)
&-IsSound a b x y = record {
  appends = λ s.
      y.appends (a.encode s)
      ∙ rw (x.appends s, append_assoc s (a.encode []) (b.encode []), y.appends (a.encode [])) refl;
  sized = rw (y.appends (a.encode []), length-append (a.encode []) (b.encode []), x.sized, y.sized);
}

pub optional-IsSound {ℓ} :
    {A : Type ℓ} (e : A → Encoder) (o : Option A)
    → ((a : A) → IsSound (e a))
    → IsSound (optional e o)
optional-IsSound e none h = nothing-IsSound
optional-IsSound e (some a) h = h a

module _ (lib : Boost) where
  pub length-store16 : (v : ℕ) → length (lib.store16 (v % 2 ^ 16)) ≡ 2
  length-store16 v = rw (lib.store16_bytes (v % 2 ^ 16) (omega arith)) (omega arith)

  pub length-store32 : (v : ℕ) → length (lib.store32 (v % 2 ^ 32)) ≡ 4
  length-store32 v = rw (lib.store32_bytes (v % 2 ^ 32) (omega arith)) (omega arith)

  pub int16-IsSound : (v : ℕ) → IsSound (int16_ lib v)
  int16-IsSound v = record { appends = λ s. refl; sized = length-store16 v }

  pub int32-IsSound : (v : ℕ) → IsSound (int32_ lib v)
  int32-IsSound v = record { appends = λ s. refl; sized = length-store32 v }

  pub utf8_encode :
      (u s : List ℕ) → (utf8_ lib u).encode s ≡ (s ++ lib.store16 (length u % 2 ^ 16)) ++ u
  utf8_encode [] s = refl
  utf8_encode (x ∷ u) s = ground arith

  pub utf8-IsSound : (u : List ℕ) → IsSound (utf8_ lib u)
  utf8-IsSound u = record {
    appends = λ s.
        utf8_encode u s
        ∙ append_assoc s (lib.store16 (length u % 2 ^ 16)) u
        ∙ ap (◌++◌ s) (sym (utf8_encode u []));
    sized =
        rw
          (
            utf8_encode u [],
            length-append (lib.store16 (length u % 2 ^ 16)) u,
            length-store16 (length u),
          )
          (omega arith);
  }

  pub verbatim-IsSound : (u : List ℕ) → IsSound (verbatim_ lib u)
  verbatim-IsSound [] = record { appends = λ s. sym (append-nil s); sized = omega arith }
  verbatim-IsSound (x ∷ u) = record { appends = λ s. ground arith; sized = ground arith }

  pub prop_value-IsSound : (v : PropValue) → IsSound (encoder_for_prop_value lib v)
  unfolding encoder_for_prop_value
  prop_value-IsSound (u8_value v) = byte-IsSound v
  prop_value-IsSound (u16_value v) = int16-IsSound v
  prop_value-IsSound (varint_value v) = varlen-IsSound v
  prop_value-IsSound (u32_value v) = int32-IsSound v
  prop_value-IsSound (text_value u) = utf8-IsSound u
  prop_value-IsSound (pair_value u v) = &-IsSound _ _ (utf8-IsSound u) (utf8-IsSound v)

  -- One identifier and value.
  entry : ℕ → PropValue → Encoder
  entry id v = record {
    byte_size = 1 + (encoder_for_prop_value lib v).byte_size;
    encode = λ s. (encoder_for_prop_value lib v).encode (s ++ (id ∷ []));
  }

  entry-IsSound : (id : ℕ) (v : PropValue) → IsSound (entry id v)
  unfolding entry
  entry-IsSound id v =
      let e = prop_value-IsSound v in
      record {
        appends = λ s.
            e.appends (s ++ (id ∷ []))
            ∙ append_assoc s (id ∷ []) _
            ∙ ap (◌++◌ s) (sym (e.appends (id ∷ [])));
        sized = rw (e.appends (id ∷ [])) (omega (arith, e.sized));
      }

  vector-IsSound :
      (id : ℕ) (vs : List PropValue)
      → IsSound (record { byte_size = vector_size lib vs; encode = vector_encode lib id vs })
  unfolding vector_size vector_encode entry
  vector-IsSound id [] = nothing-IsSound
  vector-IsSound id (v ∷ vs) =
      &-IsSound (entry id v)
        (record { byte_size = vector_size lib vs; encode = vector_encode lib id vs })
        (entry-IsSound id v) (vector-IsSound id vs)

  pub prop_val-IsSound : (id : ℕ) (v : Stored) → IsSound (prop_val lib id v)
  unfolding prop_val
  prop_val-IsSound id (single none) = nothing-IsSound
  prop_val-IsSound id (single (some v)) = unfold entry in entry-IsSound id v
  prop_val-IsSound id (many vs) = vector-IsSound id vs

  -- The properties without their length.
  abbrev pub props_block : List Prop → Encoder
  props_block ps = record { byte_size = props_size lib ps; encode = props_encode lib ps }

  pub props_block-IsSound : (ps : List Prop) → IsSound (props_block ps)
  unfolding props_size props_encode
  props_block-IsSound [] = nothing-IsSound
  props_block-IsSound (p ∷ ps) =
      &-IsSound (prop_val lib p.id p.value) (props_block ps) (prop_val-IsSound p.id p.value)
        (props_block-IsSound ps)

  -- The encoder of a property list appends to the string without reading it, and the number of the
  -- bytes that it appends is its byte_size, whatever the properties are and whether it may omit an
  -- empty list or not.
  pub props_val-IsSound : (may_omit : Bool) (ps : List Prop) → IsSound (props_val lib may_omit ps)
  unfolding props_val
  props_val-IsSound may_omit ps = elim (Bool-cases (may_omit && (props_size lib ps == 0))) [
    | inl e ↦ rw e nothing-IsSound
    | inr e ↦ rw e (record { appends = both.appends; sized = omega (arith, both.sized) })
  ]
    where
      both : IsSound (varlen_ (props_size lib ps) & props_block ps)
      both = &-IsSound _ _ (varlen-IsSound (props_size lib ps)) (props_block-IsSound ps)
