-- ===== src/Codec/Library.antt =====
-- What the codecs take from Boost.Spirit X3 (binary parsers) and Boost.Endian: the parsers byte_,
-- big_word and big_dword, and endian_store in big-endian order. Their documented behaviour is the
-- part of this record that holds laws. A parser that is not at `last` reads the bytes of the buffer.
use async_mqtt.Base.{ℕ, ◌+◌, ◌*◌, ◌/◌, ◌%◌, ◌≤◌, ◌<◌, ◌≡◌, List, [], ◌∷◌, length}
use async_mqtt.Codec.Cursor.{ok, fail, Parser}

pub record Boost : Type 0 where
  pub byte_ : Parser ℕ
  pub big_word : Parser ℕ
  pub big_dword : Parser ℕ
  pub store16 : ℕ → List ℕ
  pub store32 : ℕ → List ℕ
  pub byte_reads : (last b : ℕ) (s : List ℕ) → last ≤ length s → byte_ last (b ∷ s) ≡ ok b s
  pub byte_ends : (last : ℕ) (s : List ℕ) → length s ≡ last → byte_ last s ≡ fail
  pub big_word_reads :
      (last h l : ℕ) (s : List ℕ) → last ≤ length s → big_word last (h ∷ l ∷ s) ≡ ok (h * 256 + l) s
  pub big_word_ends : (last : ℕ) (s : List ℕ) → length s ≡ last → big_word last s ≡ fail
  pub big_dword_reads :
      (last a b c d : ℕ) (s : List ℕ)
      → last ≤ length s
      → big_dword last (a ∷ b ∷ c ∷ d ∷ s) ≡ ok (a * 0x100_0000 + b * 0x1_0000 + c * 0x100 + d) s
  pub store16_bytes : (v : ℕ) → v < 0x1_0000 → store16 v ≡ (v / 256) ∷ (v % 256) ∷ []
  pub store32_bytes :
      (v : ℕ)
      → v < 0x1_0000_0000
      → store32 v ≡ (v / 0x100_0000) ∷ (v / 0x1_0000 % 256) ∷ (v / 0x100 % 256) ∷ (v % 256) ∷ []
