-- ===== src/PacketId/Allocate.antt =====
-- What allocate does to the set of free identifiers.
use async_mqtt.Base.{refl, ◌≢◌, ◌≢◌, ℕ, ◌≤◌, ◌<◌, ◌≡◌, true, not, ◌&&◌, List, [], ◌∷◌, ◌==◌, arith}
use async_mqtt.PacketId.{Interval, take_last, allocate, is_free}
use async_mqtt.PacketId.Invariant.{IsValid, Chain}

-- What holds of a successful allocation of `pid`, which turns `is` into `js`, below a bound.
pub record Takes (b : ℕ) (is : List Interval) (pid : ℕ) (js : List Interval) : Type 0 where
  pub keeps : Chain b js
  pub was_free : is_free pid is ≡ true
  pub removes : (q : ℕ) → is_free q js ≡ (is_free q is && not (q == pid))
  pub least : (q : ℕ) → is_free q is ≡ true → pid ≤ q
  pub in_range : (0 < pid) × (pid < b)

take_last-Takes :
    (b : ℕ) (i : Interval)
    → b ≤ 65536
    → Chain b (i ∷ [])
    → Takes b (i ∷ []) (take_last i).0 (take_last i).1
unfolding take_last is_free
take_last-Takes b i h c = record {
  keeps = ground arith;
  was_free = ground arith;
  removes = λ q. ground arith;
  least = λ q e. ground arith;
  in_range = ground arith;
}

cons-Takes :
    (b : ℕ) (i : Interval) (is : List Interval) (pid : ℕ) (js : List Interval)
    → Chain b (i ∷ is)
    → Takes i.end is pid js
    → Takes b (i ∷ is) pid (i ∷ js)
unfolding is_free
cons-Takes b i is pid js c t = record {
  keeps = (c.0, c.1, t.keeps);
  was_free = ground (arith, t.was_free);
  removes = λ q. ground (arith, t.removes q);
  least = λ q e. ground (arith, t.least q);
  in_range = omega arith;
}

pub allocate-Takes :
    (b : ℕ) (i : Interval) (is : List Interval)
    → b ≤ 65536
    → Chain b (i ∷ is)
    → Takes b (i ∷ is) (allocate (i ∷ is)).0 (allocate (i ∷ is)).1
unfolding allocate
allocate-Takes b i [] h c = take_last-Takes b i h c
allocate-Takes b i (j ∷ is) h c =
    cons-Takes b i (j ∷ is) _ _ c (allocate-Takes i.end j is (omega arith) c.2)

-- In a valid vector that is not empty, allocate returns an identifier in 1, ..., 65535 that is free,
-- makes exactly that one used, and leaves a valid vector.
pub allocate-is_free :
    (q : ℕ) (is : List Interval)
    → IsValid is
    → is ≢ []
    → let (pid, js) = allocate is in
      IsValid js
      × (0 < pid)
      × (pid ≤ 65535)
      × (is_free pid is ≡ true)
      × (is_free q js ≡ (is_free q is && not (q == pid)))
allocate-is_free q [] v ne = absurd (ne refl)
allocate-is_free q (i ∷ is) v ne =
    let t = allocate-Takes 65536 i is (omega arith) v in
    (t.keeps, t.in_range.0, omega (arith, t.in_range), t.was_free, t.removes q)
