-- ===== src/PacketId/Invariant.antt =====
-- The invariant of the vector of free intervals, and what it says of the free identifiers.
use async_mqtt.Base.{ℕ, ◌≤◌, ◌<◌, ◌≡◌, refl, true, false, ◌&&◌, List, [], ◌∷◌, ltb, leb, arith}
use async_mqtt.PacketId.{Interval, init, is_free, max_packet_id}

-- Below `b` the intervals fall, none is empty, and between two neighbours an identifier is in use.
abbrev pub Chain : ℕ → List Interval → Type 0
Chain b [] = Unit {0}
Chain b (i ∷ is) = (i.start < b) × (i.end < i.start) × Chain i.end is

abbrev pub IsValid : List Interval → Type 0
IsValid = Chain 65536

pub Chain-mono : (a b : ℕ) (is : List Interval) → a ≤ b → Chain a is → Chain b is
Chain-mono a b [] h c = tt
Chain-mono a b (i ∷ is) h c = (omega arith, c.1, c.2)

pub is_free-lt : (q b : ℕ) (is : List Interval) → Chain b is → is_free q is ≡ true → q < b
unfolding is_free
is_free-lt q b [] c e = ground arith
is_free-lt q b (i ∷ is) c e = ground (arith, is_free-lt q i.end is c.2)

pub is_free-pos : (q b : ℕ) (is : List Interval) → Chain b is → is_free q is ≡ true → 0 < q
unfolding is_free
is_free-pos q b [] c e = ground arith
is_free-pos q b (i ∷ is) c e = ground (arith, is_free-pos q i.end is c.2)

pub is_free_above : (q b : ℕ) (is : List Interval) → Chain b is → b ≤ q → is_free q is ≡ false
unfolding is_free
is_free_above q b [] c h = refl
is_free_above q b (i ∷ is) c h = ground (arith, is_free_above q i.end is c.2)

-- A new allocator meets the invariant.
pub init-IsValid : IsValid init
unfolding init
init-IsValid = omega arith

-- Exactly the identifiers 1, ..., 65535 are free at first.
pub is_free-init : (q : ℕ) → is_free q init ≡ (ltb 0 q && leb q max_packet_id)
unfolding init is_free
is_free-init q = ground arith
