-- ===== src/Sender/Order.antt =====
-- The order in which requests are sent again: operator< across the wrap of the serial numbers, and
-- std::stable_sort by it.
use async_mqtt.Base.{
  ◌^◌, ℕ, ◌+◌, ◌-◌, ◌%◌, ◌<◌, ◌≤◌, ◌≡◌, List, [], ◌∷◌, All, ltb, if◌then◌else◌, arith, true, false,
  Bool-cases, inl, inr,
}
use async_mqtt.Sender.Request.{WriteReq, prioritized, serial_lt, less, insert, sort}

-- Of two serial numbers of which the second was given out fewer than 2 ^ 31 numbers after the
-- first, the first is less, also where the numbers wrapped in between.
pub serial_lt_wrap :
    (base i j : ℕ)
    → i < j
    → j < i + 2 ^ 31
    → (serial_lt ((base + i) % 2 ^ 32) ((base + j) % 2 ^ 32) ≡ true)
      × (serial_lt ((base + j) % 2 ^ 32) ((base + i) % 2 ^ 32) ≡ false)
unfolding serial_lt
serial_lt_wrap base i j h l = (ground arith, ground arith)

-- The position of a serial number behind a base.
abbrev pub offset : ℕ → ℕ → ℕ
offset base n = (n + 2 ^ 32 - base) % 2 ^ 32

abbrev pub InWindow : ℕ → WriteReq → Type 0
InWindow base r = (r.serial_num < 2 ^ 32) × (offset base r.serial_num < 2 ^ 31)

-- Prioritized requests first, then by position.
abbrev pub rank : ℕ → WriteReq → ℕ
rank base r = (if prioritized r then 0 else 2 ^ 32) + offset base r.serial_num

serial_lt-offset :
    (base m n : ℕ)
    → base < 2 ^ 32
    → m < 2 ^ 32
    → n < 2 ^ 32
    → offset base m < 2 ^ 31
    → offset base n < 2 ^ 31
    → serial_lt m n ≡ ltb (offset base m) (offset base n)
unfolding serial_lt
serial_lt-offset base m n hb hm hn wm wn = ground arith

offset-lt : (base n : ℕ) → offset base n < 2 ^ 32
offset-lt base n = omega arith

less-rank :
    (base : ℕ) (a b : WriteReq)
    → base < 2 ^ 32
    → InWindow base a
    → InWindow base b
    → less a b ≡ ltb (rank base a) (rank base b)
unfolding less
less-rank base a b hb (ha, wa) (hn, wn) = ground (
  arith,
  serial_lt-offset base a.serial_num b.serial_num hb ha hn wa wn,
  offset-lt base a.serial_num,
  offset-lt base b.serial_num,
)

-- No element has a lower rank than one before it, nor than the bound.
abbrev pub Ascends : ℕ → ℕ → List WriteReq → Type 0
Ascends base n [] = Unit {0}
Ascends base n (r ∷ rs) = (n ≤ rank base r) × Ascends base (rank base r) rs

insert-InWindow :
    (base : ℕ) (r : WriteReq) (xs : List WriteReq)
    → InWindow base r
    → All (InWindow base) xs
    → All (InWindow base) (insert r xs)
unfolding insert
insert-InWindow base r [] w h = (w, tt)
insert-InWindow base r (x ∷ xs) w h = elim (Bool-cases (less x r)) [
  | inl e ↦ rw e (h.0, insert-InWindow base r xs w h.1)
  | inr e ↦ rw e (w, h)
]

sort-InWindow :
    (base : ℕ) (xs : List WriteReq) → All (InWindow base) xs → All (InWindow base) (sort xs)
unfolding sort
sort-InWindow base [] h = tt
sort-InWindow base (x ∷ xs) h = insert-InWindow base x (sort xs) h.0 (sort-InWindow base xs h.1)

insert-Ascends :
    (base n : ℕ) (r : WriteReq) (xs : List WriteReq)
    → base < 2 ^ 32
    → InWindow base r
    → All (InWindow base) xs
    → n ≤ rank base r
    → Ascends base n xs
    → Ascends base n (insert r xs)
unfolding insert
insert-Ascends base n r [] hb w h l a = (l, tt)
insert-Ascends base n r (x ∷ xs) hb w h l a = elim (Bool-cases (less x r)) [
  | inl e ↦ rw e (a.0, insert-Ascends base (rank base x) r xs hb w h.1 (below e) a.1)
  | inr e ↦ rw e (l, (above e, a.1))
]
  where
    below : less x r ≡ true → rank base x ≤ rank base r
    below e = ground (arith, less-rank base x r hb h.0 w)

    above : less x r ≡ false → rank base r ≤ rank base x
    above e = ground (arith, less-rank base x r hb h.0 w)

-- If the serial numbers of the requests lie within 2 ^ 31 numbers from a base, the sorted queue
-- has the prioritized requests first, and on each side no request before one that was given its
-- number earlier.
pub sort-Ascends :
    (base : ℕ) (xs : List WriteReq)
    → base < 2 ^ 32
    → All (InWindow base) xs
    → Ascends base 0 (sort xs)
unfolding sort
sort-Ascends base [] hb h = tt
sort-Ascends base (x ∷ xs) hb h =
    insert-Ascends base 0 x (sort xs) hb h.0 (sort-InWindow base xs h.1) (omega arith)
      (sort-Ascends base xs hb h.1)
