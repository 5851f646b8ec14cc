-- ===== src/PacketId/Release.antt =====
-- What free does to the set of free identifiers.
use async_mqtt.Base.{
  ℕ, ◌≤◌, ◌<◌, ◌≡◌, true, false, ◌||◌, inl, inr, List, [], ◌∷◌, ◌==◌, ltb, arith, Bool-cases,
}
use async_mqtt.PacketId.{Interval, upper_bound, ends_at, set_last_end, release_at, release, is_free}
use async_mqtt.PacketId.Invariant.{IsValid, Chain, Chain-mono, is_free_above}

-- What holds when the release of `pid` turns `is` into `js`, below a bound.
pub record Returns (b : ℕ) (is : List Interval) (pid : ℕ) (js : List Interval) : Type 0 where
  pub keeps : Chain b js
  pub adds : (q : ℕ) → is_free q js ≡ ((q == pid) || is_free q is)

-- The iterator is at the front of the vector.
front-Returns :
    (b pid : ℕ) (is : List Interval)
    → b ≤ 65536
    → Chain b is
    → Chain pid is
    → 0 < pid
    → pid < b
    → Returns b is pid (release_at pid [] is)
unfolding release_at ends_at is_free
front-Returns b pid [] h c k p l = record { keeps = ground arith; adds = λ q. ground arith }
front-Returns b pid (i ∷ is) h c k p l = record {
  keeps = ground (arith, Chain-mono i.end pid is);
  adds = λ q. ground arith;
}

-- The iterator is behind the first interval.
second-Returns :
    (b pid : ℕ) (i : Interval) (is : List Interval)
    → b ≤ 65536
    → Chain b (i ∷ is)
    → Chain pid is
    → 0 < pid
    → pid ≤ i.end
    → Returns b (i ∷ is) pid (release_at pid (i ∷ []) is)
unfolding release_at ends_at set_last_end is_free
second-Returns b pid i [] h c k p l = record { keeps = ground arith; adds = λ q. ground arith }
second-Returns b pid i (j ∷ is) h c k p l = record {
  keeps = ground arith;
  adds = λ q. ground (arith, is_free_above q j.end is c.2.2);
}

release_at-cons :
    (pid : ℕ) (i j : Interval) (before from : List Interval)
    → release_at pid (i ∷ j ∷ before) from ≡ i ∷ release_at pid (j ∷ before) from
unfolding release_at ends_at set_last_end
release_at-cons pid i j before [] = ground arith
release_at-cons pid i j before (k ∷ from) = ground arith

cons-Returns :
    (b pid : ℕ) (i : Interval) (is js : List Interval)
    → Chain b (i ∷ is)
    → Returns i.end is pid js
    → Returns b (i ∷ is) pid (i ∷ js)
unfolding is_free
cons-Returns b pid i is js c r = record {
  keeps = (c.0, c.1, r.keeps);
  adds = λ q. ground (arith, r.adds q);
}

release_front :
    (pid : ℕ) (i : Interval) (is : List Interval)
    → ltb i.start pid ≡ true
    → release pid (i ∷ is) ≡ release_at pid [] (i ∷ is)
unfolding release upper_bound
release_front pid i is e = rw e

release_second :
    (pid : ℕ) (i j : Interval) (is : List Interval)
    → ltb i.start pid ≡ false
    → ltb j.start pid ≡ true
    → release pid (i ∷ j ∷ is) ≡ release_at pid (i ∷ []) (j ∷ is)
unfolding release upper_bound
release_second pid i j is e f = rw (e, f)

release_later :
    (pid : ℕ) (i j : Interval) (is : List Interval)
    → ltb i.start pid ≡ false
    → ltb j.start pid ≡ false
    → release pid (i ∷ j ∷ is) ≡ i ∷ release pid (j ∷ is)
unfolding release upper_bound
release_later pid i j is e f = rw (e, f) (release_at-cons pid i j _ _)

release_single :
    (pid : ℕ) (i : Interval)
    → ltb i.start pid ≡ false
    → release pid (i ∷ []) ≡ release_at pid (i ∷ []) []
unfolding release upper_bound
release_single pid i e = rw e

pub release-Returns :
    (b pid : ℕ) (is : List Interval)
    → b ≤ 65536
    → Chain b is
    → 0 < pid
    → pid < b
    → is_free pid is ≡ false
    → Returns b is pid (release pid is)
unfolding is_free
release-Returns b pid [] h c p l f = unfold release upper_bound in front-Returns b pid [] h c tt p l
release-Returns b pid (i ∷ []) h c p l f = elim (Bool-cases (ltb i.start pid)) [
  | inl e ↦ rw (release_front pid i [] e) (front-Returns b pid (i ∷ []) h c (ground arith) p l)
  | inr e ↦ rw (release_single pid i e) (second-Returns b pid i [] h c tt p (ground arith))
]
release-Returns b pid (i ∷ j ∷ is) h c p l f = elim (Bool-cases (ltb i.start pid)) [
  | inl e ↦
      rw (release_front pid i (j ∷ is) e) (front-Returns b pid (i ∷ j ∷ is) h c (ground arith) p l)
  | inr e ↦ elim (Bool-cases (ltb j.start pid)) [
    | inl e' ↦
        rw (release_second pid i j is e e')
          (second-Returns b pid i (j ∷ is) h c (ground arith) p (ground arith))
    | inr e' ↦ rw (release_later pid i j is e e') (
        cons-Returns b pid i (j ∷ is) _ c
          (release-Returns i.end pid (j ∷ is) (omega arith) c.2 p (ground arith) (ground arith)))
  ]
]

-- In a valid vector, the release of an identifier in 1, ..., 65535 that is not free makes exactly
-- that one free as well, and leaves a valid vector.
pub release-is_free :
    (pid q : ℕ) (is : List Interval)
    → IsValid is
    → 0 < pid
    → pid ≤ 65535
    → is_free pid is ≡ false
    → IsValid (release pid is) × (is_free q (release pid is) ≡ ((q == pid) || is_free q is))
release-is_free pid q is v p l f =
    let r = release-Returns 65536 pid is (omega arith) v p (omega arith) f in (r.keeps, r.adds q)
