-- ===== src/Tests/Library.antt =====
-- The documented behaviour of the Boost parsers and of endian_store, by concrete functions.
use async_mqtt.Base.{
  suc, ℕ, ◌+◌, ◌*◌, ◌/◌, ◌%◌, ◌≤◌, ◌≡◌, refl, List, [], ◌∷◌, length, ◌==◌, if◌then◌else◌, arith,
}
use async_mqtt.Codec.Cursor.{Res, ok, fail, fault, ◌>>=◌}
use async_mqtt.Codec.Library.{Boost}

abbrev read_byte : ℕ → List ℕ → Res ℕ
read_byte last [] = if last == 0 then fail else fault
read_byte last (b ∷ s) = if suc (length s) == last then fail else ok b s

abbrev read_word : ℕ → List ℕ → Res ℕ
read_word last s = read_byte last s >>= λ h t. read_byte last t >>= λ l u. ok (h * 256 + l) u

abbrev read_dword : ℕ → List ℕ → Res ℕ
read_dword last s = read_byte last s >>= λ a t. read_byte last t >>= λ b u.
    read_byte last u >>= λ c v.
    read_byte last v >>= λ d w. ok (a * 0x100_0000 + b * 0x1_0000 + c * 0x100 + d) w

pub read_byte_ends : (last : ℕ) (s : List ℕ) → length s ≡ last → read_byte last s ≡ fail
read_byte_ends last [] e = ground arith
read_byte_ends last (b ∷ s) e = ground arith

pub read_word_ends : (last : ℕ) (s : List ℕ) → length s ≡ last → read_word last s ≡ fail
read_word_ends last [] e = ground arith
read_word_ends last (b ∷ s) e = ground arith

pub read_byte_reads : (last b : ℕ) (s : List ℕ) → last ≤ length s → read_byte last (b ∷ s) ≡ ok b s
read_byte_reads last b s h = ground arith

pub read_word_reads :
    (last h l : ℕ) (s : List ℕ) → last ≤ length s → read_word last (h ∷ l ∷ s) ≡ ok (h * 256 + l) s
read_word_reads last h l s b = ground arith

pub read_dword_reads :
    (last a b c d : ℕ) (s : List ℕ)
    → last ≤ length s
    → read_dword last (a ∷ b ∷ c ∷ d ∷ s) ≡ ok (a * 0x100_0000 + b * 0x1_0000 + c * 0x100 + d) s
read_dword_reads last a b c d s h = ground arith

abbrev pub library : Boost
library = record {
  byte_ = read_byte;
  big_word = read_word;
  big_dword = read_dword;
  store16 = λ v. (v / 256) ∷ (v % 256) ∷ [];
  store32 = λ v. (v / 0x100_0000) ∷ (v / 0x1_0000 % 256) ∷ (v / 0x100 % 256) ∷ (v % 256) ∷ [];
  byte_reads = read_byte_reads;
  byte_ends = read_byte_ends;
  big_word_reads = read_word_reads;
  big_word_ends = read_word_ends;
  big_dword_reads = read_dword_reads;
  store16_bytes = λ v h. refl;
  store32_bytes = λ v h. refl;
}
