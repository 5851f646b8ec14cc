-- ===== src/PacketId/Canonical.antt =====
-- The vector of free intervals against the set of free identifiers.
use async_mqtt.Base.{ℕ, ◌≤◌, ◌<◌, ◌≡◌, ◌≢◌, refl, true, false, ◌∙◌, sym, List, [], ◌∷◌, arith}
use async_mqtt.PacketId.{Interval, allocate, release, is_free}
use async_mqtt.PacketId.Invariant.{Chain, IsValid, is_free_above, is_free-lt}
use async_mqtt.PacketId.Allocate.{Takes, allocate-Takes}
use async_mqtt.PacketId.Release.{Returns, release-Returns}

abbrev SameFree : List Interval → List Interval → Type 0
SameFree is js = (q : ℕ) → is_free q is ≡ is_free q js

start_is_free :
    (b : ℕ) (i : Interval) (is : List Interval) → Chain b (i ∷ is) → is_free i.start (i ∷ is) ≡ true
unfolding is_free
start_is_free b i is c = ground arith

free_le_start :
    (b q : ℕ) (i : Interval) (is : List Interval)
    → Chain b (i ∷ is)
    → is_free q (i ∷ is) ≡ true
    → q ≤ i.start
unfolding is_free
free_le_start b q i is c e = ground (arith, is_free-lt q i.end is c.2)

-- The heads of two valid vectors with the same free identifiers: neither reaches higher.
start-le :
    (b d : ℕ) (i j : Interval) (is js : List Interval)
    → Chain b (i ∷ is)
    → Chain d (j ∷ js)
    → SameFree (i ∷ is) (j ∷ js)
    → i.start ≤ j.start
start-le b d i j is js c k same =
    free_le_start d i.start j js k (sym (same i.start) ∙ start_is_free b i is c)

end-not-lt :
    (b d : ℕ) (i j : Interval) (is js : List Interval)
    → Chain b (i ∷ is)
    → Chain d (j ∷ js)
    → SameFree (i ∷ is) (j ∷ js)
    → i.start ≡ j.start
    → ¬ (i.end < j.end)
unfolding is_free
end-not-lt b d i j is js c k same e h = ground (arith, same j.end, is_free_above j.end j.end js k.2)

tails_same :
    (b d : ℕ) (i j : Interval) (is js : List Interval)
    → Chain b (i ∷ is)
    → Chain d (j ∷ js)
    → SameFree (i ∷ is) (j ∷ js)
    → i.start ≡ j.start
    → i.end ≡ j.end
    → SameFree is js
unfolding is_free
tails_same b d i j is js c k same s e q =
    ground (arith, same q, is_free-lt q i.end is c.2, is_free-lt q j.end js k.2)

pub is_free_nil : (q : ℕ) → is_free q [] ≡ false
unfolding is_free
is_free_nil q = refl

canonical_below :
    (b d : ℕ) (is js : List Interval) → Chain b is → Chain d js → SameFree is js → is ≡ js
canonical_below b d [] [] c k same = refl
canonical_below b d [] (j ∷ js) c k same =
    cc (same j.start, start_is_free d j js k, is_free_nil j.start)
canonical_below b d (i ∷ is) [] c k same =
    cc (same i.start, start_is_free b i is c, is_free_nil i.start)
canonical_below b d (i ∷ is) (j ∷ js) c k same =
    let back : SameFree (j ∷ js) (i ∷ is) = λ q. sym (same q) in
    let s : i.start ≡ j.start =
      omega (arith, start-le b d i j is js c k same, start-le d b j i js is k c back) in
    let e : i.end ≡ j.end =
      omega
        (arith, end-not-lt b d i j is js c k same s, end-not-lt d b j i js is k c back (sym s)) in
    cc (s, e, canonical_below i.end j.end is js c.2 k.2 (tails_same b d i j is js c k same s e))

-- Two valid vectors with the same free identifiers are the same vector.
pub canonical :
    (is js : List Interval)
    → IsValid is
    → IsValid js
    → ((q : ℕ) → is_free q is ≡ is_free q js)
    → is ≡ js
canonical is js c k same = canonical_below 65536 65536 is js c k same

-- An identifier that is released right after its allocation leaves the vector as it was.
pub release-allocate :
    (is : List Interval) → IsValid is → is ≢ [] → release (allocate is).0 (allocate is).1 ≡ is
release-allocate [] v ne = absurd (ne refl)
release-allocate (i ∷ is) v ne =
    canonical _ (i ∷ is) r.keeps v (λ q. ground (arith, r.adds q, t.removes q, t.was_free))
  where
    t : Takes 65536 (i ∷ is) (allocate (i ∷ is)).0 (allocate (i ∷ is)).1
    t = allocate-Takes 65536 i is (omega arith) v

    r :
        Returns 65536
          (allocate (i ∷ is)).1
          (allocate (i ∷ is)).0
          (release (allocate (i ∷ is)).0 (allocate (i ∷ is)).1)
    r =
        release-Returns 65536 _ _ (omega arith) t.keeps (t.in_range.0) (t.in_range.1)
          (ground (arith, t.removes (allocate (i ∷ is)).0))
