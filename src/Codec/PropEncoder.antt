-- ===== src/Codec/PropEncoder.antt =====
-- encoders::prop of include/boost/mqtt5/impl/codecs/base_encoders.hpp.
use async_mqtt.Base.{
  ℕ, ◌+◌, ◌&&◌, Bool, true, false, List, [], ◌∷◌, ◌++◌, ◌==◌, if◌then◌else◌, none, some,
}
use async_mqtt.Codec.Library.{Boost}
use async_mqtt.Codec.Encoder.{Encoder, nothing, byte_, varlen_, int16_, int32_, utf8_, ◌&◌}
use async_mqtt.Codec.Property.{
  PropValue, u8_value, u16_value, varint_value, u32_value, text_value, pair_value, Stored, single,
  many, Prop,
}

module _ (lib : Boost) where
  unfoldable pub encoder_for_prop_value : PropValue → Encoder
  encoder_for_prop_value (u8_value v) = byte_ v
  encoder_for_prop_value (u16_value v) = int16_ lib v
  encoder_for_prop_value (varint_value v) = varlen_ v
  encoder_for_prop_value (u32_value v) = int32_ lib v
  encoder_for_prop_value (text_value u) = utf8_ lib u
  encoder_for_prop_value (pair_value u v) = utf8_ lib u & utf8_ lib v

  -- The loops of `prop_val` on a vector.
  unfoldable pub vector_size : List PropValue → ℕ
  vector_size [] = 0
  vector_size (v ∷ vs) = (1 + (encoder_for_prop_value v).byte_size) + vector_size vs

  unfoldable pub vector_encode : ℕ → List PropValue → List ℕ → List ℕ
  vector_encode id [] s = s
  vector_encode id (v ∷ vs) s =
      vector_encode id vs ((encoder_for_prop_value v).encode (s ++ (id ∷ [])))

  -- The two classes `prop_val`.
  unfoldable pub prop_val : ℕ → Stored → Encoder
  prop_val id (single none) = nothing
  prop_val id (single (some v)) = record {
    byte_size = 1 + (encoder_for_prop_value v).byte_size;
    encode = λ s. (encoder_for_prop_value v).encode (s ++ (id ∷ []));
  }
  prop_val id (many vs) = record { byte_size = vector_size vs; encode = vector_encode id vs }

  -- `props_size` and `apply_each` of `props_val`.
  unfoldable pub props_size : List Prop → ℕ
  props_size [] = 0
  props_size (p ∷ ps) = (prop_val p.id p.value).byte_size + props_size ps

  unfoldable pub props_encode : List Prop → List ℕ → List ℕ
  props_encode [] s = s
  props_encode (p ∷ ps) s = props_encode ps ((prop_val p.id p.value).encode s)

  unfoldable pub props_val : Bool → List Prop → Encoder
  props_val may_omit ps =
      let psize = props_size ps in
      record {
        byte_size = if may_omit && (psize == 0) then 0 else psize + (varlen_ psize).byte_size;
        encode =
            λ s. if may_omit && (psize == 0) then s else props_encode ps ((varlen_ psize).encode s);
      }

  -- `props_` and `props_may_omit_`.
  abbrev pub props_ : List Prop → Encoder
  props_ = props_val false

  abbrev pub props_may_omit_ : List Prop → Encoder
  props_may_omit_ = props_val true
