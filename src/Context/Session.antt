-- ===== src/Context/Session.antt =====
-- The two bits of the session state do not disturb each other.
use async_mqtt.Base.{sym, subst, inl, inr, ◌⊎◌, ℕ, ◌<◌, Bool, true, false, ◌≡◌, refl, arith}
use async_mqtt.Context.{
  update_flag, set_session_present, session_present, set_subscriptions_present,
  subscriptions_present,
}

-- What a flag reads and what it was set to, and that the other one stays.
abbrev Keeps : Bool → ℕ → Type 0
Keeps b flags =
    (session_present (set_session_present b flags) ≡ b)
    × (subscriptions_present (set_session_present b flags) ≡ subscriptions_present flags)
    × (subscriptions_present (set_subscriptions_present b flags) ≡ b)
    × (session_present (set_subscriptions_present b flags) ≡ session_present flags)
    × (set_session_present b flags < 4)
    × (set_subscriptions_present b flags < 4)

at_0 : (b : Bool) → Keeps b 0
unfolding session_present set_session_present subscriptions_present set_subscriptions_present
    update_flag
at_0 true = (refl, refl, refl, refl, omega arith, omega arith)
at_0 false = (refl, refl, refl, refl, omega arith, omega arith)

at_1 : (b : Bool) → Keeps b 1
unfolding session_present set_session_present subscriptions_present set_subscriptions_present
    update_flag
at_1 true = (refl, refl, refl, refl, omega arith, omega arith)
at_1 false = (refl, refl, refl, refl, omega arith, omega arith)

at_2 : (b : Bool) → Keeps b 2
unfolding session_present set_session_present subscriptions_present set_subscriptions_present
    update_flag
at_2 true = (refl, refl, refl, refl, omega arith, omega arith)
at_2 false = (refl, refl, refl, refl, omega arith, omega arith)

at_3 : (b : Bool) → Keeps b 3
unfolding session_present set_session_present subscriptions_present set_subscriptions_present
    update_flag
at_3 true = (refl, refl, refl, refl, omega arith, omega arith)
at_3 false = (refl, refl, refl, refl, omega arith, omega arith)

below_4 : (n : ℕ) → n < 4 → (n ≡ 0) ⊎ ((n ≡ 1) ⊎ ((n ≡ 2) ⊎ (n ≡ 3)))
below_4 n h = ground arith

-- On every value that the two bits can have, each bit reads as what it was last set to, setting it
-- leaves the other one as it was, and no bit above the two is ever set.
pub flags-Keeps : (b : Bool) (flags : ℕ) → flags < 4 → Keeps b flags
flags-Keeps b flags h = elim (below_4 flags h) [
  | inl e ↦ subst (Keeps b) (sym e) (at_0 b)
  | inr (inl e) ↦ subst (Keeps b) (sym e) (at_1 b)
  | inr (inr (inl e)) ↦ subst (Keeps b) (sym e) (at_2 b)
  | inr (inr (inr e)) ↦ subst (Keeps b) (sym e) (at_3 b)
]
