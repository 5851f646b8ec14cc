-- ===== src/Codec/Cursor.antt =====
-- The iterators of the decoders.
--
-- A parser is called with an iterator `first` into the receive buffer and an end `last`. The buffer
-- goes on behind `last`, and the code compares iterators and does not always stop there. So `first`
-- is the list of all the bytes from it to the end of the buffer, and `last` is the number of bytes
-- from it to the end of the buffer: `first == last` says that the list has that length.
use async_mqtt.Base.{ℕ, Bool, List, length, ◌==◌}

-- `fault` is no outcome of the code: it read behind the end of the buffer.
pub data Res {ℓ} (A : Type ℓ) : Type ℓ where
  ok : A → List ℕ → Res A
  fail : Res A
  fault : Res A

abbrev pub Parser : Type 0 → Type 0
Parser A = ℕ → List ℕ → Res A

infixl 5 ◌>>=◌
abbrev pub ◌>>=◌ {ℓ κ} : {A : Type ℓ} {B : Type κ} → Res A → (A → List ℕ → Res B) → Res B
ok a s >>= f = f a s
fail >>= f = fail
fault >>= f = fault

-- `iter == last`.
abbrev pub at_end : ℕ → List ℕ → Bool
at_end last s = length s == last
