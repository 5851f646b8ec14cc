-- ===== src/PacketId/Clients.antt =====
-- The allocator together with the operations that hold identifiers: any sequence of calls of
-- allocate, and of free for an identifier that is held.
use async_mqtt.Base.{
  sym, ap, ◌≤◌, ◌∙◌, ◌<◌, All, ℕ, ◌≡◌, ◌≢◌, ◌⊎◌, inl, inr, refl, Bool, true, false, not, ◌&&◌, ◌||◌,
  List, [], ◌∷◌, ◌==◌, ltb, leb, if◌then◌else◌, arith,
}
use async_mqtt.PacketId.{Interval, init, allocate, release, is_free, max_packet_id}
use async_mqtt.PacketId.Canonical.{is_free_nil}
use async_mqtt.PacketId.Invariant.{is_free-init, init-IsValid, IsValid}
use async_mqtt.PacketId.Allocate.{Takes, allocate-Takes}
use async_mqtt.PacketId.Release.{release-Returns, Returns}

pub record System : Type 0 where
  pub free_ids : List Interval
  pub held : List ℕ

abbrev pub holds : ℕ → List ℕ → Bool
holds q [] = false
holds q (p ∷ ps) = (q == p) || holds q ps

-- The first occurrence is taken out.
abbrev pub drop_id : ℕ → List ℕ → List ℕ
drop_id q [] = []
drop_id q (p ∷ ps) = if q == p then ps else (p ∷ drop_id q ps)

abbrev pub Distinct : List ℕ → Type 0
Distinct [] = Unit {0}
Distinct (p ∷ ps) = (holds p ps ≡ false) × Distinct ps

abbrev pub in_range : ℕ → Bool
in_range q = ltb 0 q && leb q max_packet_id

-- An operation that is given 0 holds nothing.
pub data Step : System → System → Type 0 where
  allocates :
      (s : System)
      → (allocate s.free_ids).0 ≢ 0
      → Step s
          (record { free_ids = (allocate s.free_ids).1; held = (allocate s.free_ids).0 ∷ s.held })
  overruns :
      (s : System)
      → (allocate s.free_ids).0 ≡ 0
      → Step s (record s { free_ids = (allocate s.free_ids).1 })
  frees :
      (s : System) (pid : ℕ)
      → holds pid s.held ≡ true
      → Step s (record { free_ids = release pid s.free_ids; held = drop_id pid s.held })

pub data Reach : System → Type 0 where
  start : Reach (record { free_ids = init; held = [] })
  next : {s t : System} → Reach s → Step s t → Reach t

pub record Inv (s : System) : Type 0 where
  pub valid : IsValid s.free_ids
  pub distinct : Distinct s.held
  pub bounded : All (λ p. in_range p ≡ true) s.held
  pub partition : (q : ℕ) → is_free q s.free_ids ≡ (in_range q && not (holds q s.held))

holds-drop :
    (q p : ℕ) (ps : List ℕ) → Distinct ps → holds q (drop_id p ps) ≡ (holds q ps && not (q == p))
holds-drop q p [] d = refl
holds-drop q p (r ∷ ps) d = ground (arith, holds-drop q p ps d.1)

drop-Distinct : (p : ℕ) (ps : List ℕ) → Distinct ps → Distinct (drop_id p ps)
drop-Distinct p [] d = tt
drop-Distinct p (r ∷ ps) d = ground (arith, holds-drop r p ps d.1, drop-Distinct p ps d.1)

allocate_cases :
    (is : List Interval)
    → IsValid is
    → ((is ≡ []) × ((allocate is).0 ≡ 0) × ((allocate is).1 ≡ []))
      ⊎ Takes 65536 is (allocate is).0 (allocate is).1
allocate_cases [] v = unfold allocate in inl (refl, refl, refl)
allocate_cases (i ∷ is) v = inr (allocate-Takes 65536 i is (omega arith) v)

bounded-drop :
    (p : ℕ) (ps : List ℕ)
    → All (λ q. in_range q ≡ true) ps
    → All (λ q. in_range q ≡ true) (drop_id p ps)
bounded-drop p [] b = tt
bounded-drop p (r ∷ ps) b = ground (arith, bounded-drop p ps b.1)

holds-in_range :
    (q : ℕ) (ps : List ℕ) → All (λ p. in_range p ≡ true) ps → holds q ps ≡ true → in_range q ≡ true
holds-in_range q [] b h = cc
holds-in_range q (p ∷ ps) b h = ground (arith, holds-in_range q ps b.1)

allocates-Inv :
    (s : System) (pid : ℕ) (js : List Interval)
    → Inv s
    → Takes 65536 s.free_ids pid js
    → Inv (record { free_ids = js; held = pid ∷ s.held })
allocates-Inv s pid js v t = record {
  valid = t.keeps;
  distinct = (ground (arith, v.partition pid, t.was_free), v.distinct);
  bounded = (ground (arith, t.in_range), v.bounded);
  partition = λ q. ground (arith, v.partition q, t.removes q, t.in_range);
}

frees-Inv :
    (s : System) (pid : ℕ)
    → Inv s
    → holds pid s.held ≡ true
    → Returns 65536 s.free_ids pid (release pid s.free_ids)
    → Inv (record { free_ids = release pid s.free_ids; held = drop_id pid s.held })
frees-Inv s pid v h r = record {
  valid = r.keeps;
  distinct = drop-Distinct pid s.held v.distinct;
  bounded = bounded-drop pid s.held v.bounded;
  partition = λ q. ground (
    arith,
    v.partition q,
    r.adds q,
    holds-in_range pid s.held v.bounded,
    holds-drop q pid s.held v.distinct,
  );
}

held-Returns :
    (s : System) (pid : ℕ)
    → Inv s
    → holds pid s.held ≡ true
    → Returns 65536 s.free_ids pid (release pid s.free_ids)
held-Returns s pid v h =
    release-Returns 65536 pid s.free_ids (omega arith) v.valid
      (ground (arith, holds-in_range pid s.held v.bounded))
      (ground (arith, holds-in_range pid s.held v.bounded)) (ground (arith, v.partition pid))

Step-Inv : {s t : System} → Step s t → Inv s → Inv t
Step-Inv (allocates s ne) v = elim (allocate_cases s.free_ids v.valid) [
  | inl (_, z, _) ↦ absurd (ne z)
  | inr t ↦ allocates-Inv s _ _ v t
]
Step-Inv (overruns s z) v = elim (allocate_cases s.free_ids v.valid) [
  | inl (e, _, e') ↦ rw (e' ∙ sym e) v
  | inr t ↦ absurd (omega (arith, t.in_range))
]
Step-Inv (frees s pid h) v = frees-Inv s pid v h (held-Returns s pid v h)

-- In every reachable state of the allocator and its clients the vector is valid, the identifiers
-- held are distinct and in 1, ..., 65535, and an identifier in that range is free exactly if nobody
-- holds it.
pub Reach-Inv : {s : System} → Reach s → Inv s
Reach-Inv start = record {
  valid = init-IsValid;
  distinct = tt;
  bounded = tt;
  partition = λ q. ground (arith, is_free-init q);
}
Reach-Inv (next r st) = Step-Inv st (Reach-Inv r)

-- In a reachable state in which an identifier in 1, ..., 65535 is not held, allocate returns an
-- identifier that is not 0, that nobody holds, and that is not above that one.
pub allocate_serves :
    {s : System} (r : Reach s) (q : ℕ)
    → 0 < q
    → q ≤ max_packet_id
    → holds q s.held ≡ false
    → (0 < (allocate s.free_ids).0)
      × ((allocate s.free_ids).0 ≤ q)
      × (holds (allocate s.free_ids).0 s.held ≡ false)
allocate_serves {s} r q p l h = elim (allocate_cases s.free_ids (Reach-Inv r).valid) [
  | inl (e, _, _) ↦ absurd (ground (arith, free, ap (is_free q) e, is_free_nil q))
  | inr t ↦ (
    t.in_range.0,
    t.least q free,
    ground (arith, (Reach-Inv r).partition (allocate s.free_ids).0, t.was_free),
  )
]
  where
    free : is_free q s.free_ids ≡ true
    free = ground (arith, (Reach-Inv r).partition q)
