-- ===== src/Reconnect/Backoff.antt =====
-- The delays of the back-off.
use async_mqtt.Base.{
  sym, subst, inl, inr, ◌⊎◌, ℕ, zero, suc, ◌+◌, ◌*◌, ◌^◌, ◌≤◌, ◌<◌, ◌≡◌, refl, ltb, if◌then◌else◌,
  arith,
}
use async_mqtt.Reconnect.{generate, max_exp}

-- `_curr_exp` behind a number of delays.
unfoldable pub after : (ℕ → ℕ) → ℕ → ℕ
after noise zero = 0
after noise (suc n) = (generate (noise n) (after noise n)).1

-- The delay of that number, from 0.
unfoldable pub delay : (ℕ → ℕ) → ℕ → ℕ
delay noise n = (generate (noise n) (after noise n)).0

abbrev pub capped : ℕ → ℕ
capped n = if ltb n max_exp then n else max_exp

after_lem : (noise : ℕ → ℕ) (n : ℕ) → after noise n ≡ capped n
unfolding after generate
after_lem noise zero = refl
after_lem noise (suc n) = rw (after_lem noise n) (ground arith)

upto_4 : (n : ℕ) → n < 5 → (n ≡ 0) ⊎ ((n ≡ 1) ⊎ ((n ≡ 2) ⊎ ((n ≡ 3) ⊎ (n ≡ 4))))
upto_4 n h = ground arith

abbrev WithinSixteen : ℕ → Type 0
WithinSixteen e = (1 ≤ 2 ^ e) × (2 ^ e ≤ 16)

power_bounds : (e : ℕ) → e < 5 → WithinSixteen e
power_bounds e h = elim (upto_4 e h) [
  | inl k ↦ subst WithinSixteen (sym k) (omega arith, omega arith)
  | inr (inl k) ↦ subst WithinSixteen (sym k) (omega arith, omega arith)
  | inr (inr (inl k)) ↦ subst WithinSixteen (sym k) (omega arith, omega arith)
  | inr (inr (inr (inl k))) ↦ subst WithinSixteen (sym k) (omega arith, omega arith)
  | inr (inr (inr (inr k))) ↦ subst WithinSixteen (sym k) (omega arith, omega arith)
]

capped-bound : (n : ℕ) → capped n < 5
capped-bound n = ground arith

-- Where the noise is at most half a second in either direction, the delay number n is 2 ^ n seconds
-- with that noise, from the number 4 on 16 seconds, and it is never below half a second or above 16
-- seconds and a half.
pub delay-bounds :
    (noise : ℕ → ℕ)
    → ((i : ℕ) → noise i ≤ 1000)
    → (n : ℕ)
    → (delay noise n + 500 ≡ 2 ^ capped n * 1000 + noise n)
      × (500 ≤ delay noise n)
      × (delay noise n ≤ 16500)
unfolding delay generate
delay-bounds noise h n =
    let p = power_bounds (capped n) (capped-bound n) in
    let small = h n in rw (after_lem noise n) (ground arith, ground arith, ground arith)
