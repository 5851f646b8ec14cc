-- ===== src/Codec/Encoder.antt =====
-- encoders::basic of include/boost/mqtt5/impl/codecs/base_encoders.hpp.
--
-- An encoder class is its two methods; `encode` takes the string so far and returns it longer.
-- Every flag_def of the library has at most eight bits, so its repr is uint8_t.
use async_mqtt.Base.{
  ℕ, ◌+◌, ◌*◌, ◌%◌, ◌^◌, Bool, true, false, not, ◌&&◌, List, [], ◌∷◌, ◌++◌, length, ◌==◌,
  if◌then◌else◌, Option, none, some,
}
use Prim.Native.Nat.{bit_or}
use async_mqtt.Codec.Library.{Boost}
use async_mqtt.Codec.Varint.{to_variable_bytes, variable_length}

pub record Encoder : Type 0 where
  pub byte_size : ℕ
  pub encode : List ℕ → List ℕ

pub record Flag : Type 0 where
  pub bits : ℕ
  pub val : ℕ

-- `flag<bits>(value)` for a number, a Boolean and an optional.
abbrev pub flag : ℕ → ℕ → Flag
flag bits val = record { bits = bits; val = val % 256 }

abbrev pub flag_bool : ℕ → Bool → Flag
flag_bool bits b = flag bits (if b then 1 else 0)

abbrev pub has_value {ℓ} : {A : Type ℓ} → Option A → Bool
has_value none = false
has_value (some a) = true

-- `flag<bits>(optional, projection)`
abbrev pub flag_of {ℓ} : {A : Type ℓ} → ℕ → Option A → (A → ℕ) → Flag
flag_of bits none proj = flag bits 0
flag_of bits (some a) proj = flag bits (proj a)

-- `lhs | rhs`
infixl 30 ◌or◌
abbrev pub ◌or◌ : Flag → Flag → Flag
a or b = record { bits = a.bits + b.bits; val = bit_or (a.val * 2 ^ b.bits) b.val % 256 }

abbrev pub flag_encoder : Flag → Encoder
flag_encoder f = record { byte_size = 1; encode = λ s. s ++ (f.val ∷ []) }

-- An absent optional, or an empty array without length.
abbrev pub nothing : Encoder
nothing = record { byte_size = 0; encode = λ s. s }

abbrev pub byte_ : ℕ → Encoder
byte_ v = record { byte_size = 1; encode = λ s. s ++ ((v % 256) ∷ []) }

abbrev pub varlen_ : ℕ → Encoder
varlen_ v = record {
  byte_size = variable_length (v % 2 ^ 32);
  encode = λ s. to_variable_bytes s (v % 2 ^ 32);
}

module _ (lib : Boost) where
  abbrev pub int16_ : ℕ → Encoder
  int16_ v = record { byte_size = 2; encode = λ s. s ++ lib.store16 (v % 2 ^ 16) }

  abbrev pub int32_ : ℕ → Encoder
  int32_ v = record { byte_size = 4; encode = λ s. s ++ lib.store32 (v % 2 ^ 32) }

  -- `array_val`. The length is stored as an int16_t.
  abbrev pub array_val : Bool → List ℕ → Encoder
  array_val with_length u = record {
    byte_size = (if with_length then 2 else 0) + length u;
    encode = λ s.
        if (length u == 0) && not with_length
        then s
        else (if with_length then s ++ lib.store16 (length u % 2 ^ 16) else s) ++ u;
  }

  abbrev pub utf8_ : List ℕ → Encoder
  utf8_ = array_val true

  abbrev pub verbatim_ : List ℕ → Encoder
  verbatim_ = array_val false

-- `int_def` and `array_def` on an optional.
abbrev pub optional {ℓ} : {A : Type ℓ} → (A → Encoder) → Option A → Encoder
optional e none = nothing
optional e (some a) = e a

-- `composed_val`
infixl 35 ◌&◌
abbrev pub ◌&◌ : Encoder → Encoder → Encoder
a & b = record { byte_size = a.byte_size + b.byte_size; encode = λ s. b.encode (a.encode s) }
