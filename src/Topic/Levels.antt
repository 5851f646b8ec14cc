-- ===== src/Topic/Levels.antt =====
-- Topic filters as levels between slashes: what a valid filter is, stated without the code.
use async_mqtt.Base.{
  ℕ, ◌≡◌, refl, sym, List, [], ◌∷◌, ◌==◌, if◌then◌else◌, arith, ◌∙◌, Bool, true, false, ◌&&◌, ◌||◌,
  Bool-cases, inl, inr,
}
use async_mqtt.Topic.{stops_or_starts_with}
use async_mqtt.Utf8.Chars.{all}
use async_mqtt.Topic.Scan.{scan, is_plain}

-- The levels of a topic: the first one, and those behind it.
unfoldable pub levels : List ℕ → List ℕ × List (List ℕ)
levels [] = ([], [])
levels (c ∷ cs) = let (l, ls) = levels cs in if c == b'/' then ([], l ∷ ls) else (c ∷ l, ls)

abbrev pub is_single : List ℕ → Bool
is_single (c ∷ []) = c == b'+'
is_single _ = false

abbrev pub is_multi : List ℕ → Bool
is_multi (c ∷ []) = c == b'#'
is_multi _ = false

-- A level is the wildcard + alone, or has no wildcard.
unfoldable pub level_ok : List ℕ → Bool
level_ok l = is_single l || all is_plain l

unfoldable pub all_levels_ok : List ℕ → List (List ℕ) → Bool
all_levels_ok l [] = level_ok l
all_levels_ok l (m ∷ ls) = level_ok l && all_levels_ok m ls

-- The last level may be the wildcard # alone.
unfoldable pub filter_ok : List ℕ → List (List ℕ) → Bool
filter_ok l [] = is_multi l || level_ok l
filter_ok l (m ∷ ls) = level_ok l && filter_ok m ls

unfoldable pub init_ok : List ℕ → List (List ℕ) → Bool
init_ok l [] = true
init_ok l (m ∷ ls) = level_ok l && init_ok m ls

unfoldable pub last_level : List ℕ → List (List ℕ) → List ℕ
last_level l [] = l
last_level l (m ∷ ls) = last_level m ls

pub all_levels-split :
    (l : List ℕ) (ls : List (List ℕ))
    → all_levels_ok l ls ≡ (init_ok l ls && level_ok (last_level l ls))
unfolding all_levels_ok init_ok last_level
all_levels-split l [] = refl
all_levels-split l (m ∷ ls) = ground (arith, all_levels-split m ls)

pub filter-split :
    (l : List ℕ) (ls : List (List ℕ))
    → filter_ok l ls ≡ (init_ok l ls && (is_multi (last_level l ls) || level_ok (last_level l ls)))
unfolding filter_ok init_ok last_level
filter-split l [] = refl
filter-split l (m ∷ ls) = ground (arith, filter-split m ls)

unfoldable pub is_nil : List ℕ → Bool
is_nil [] = true
is_nil (c ∷ cs) = false

starts-levels : (cs : List ℕ) → stops_or_starts_with b'/' cs ≡ is_nil (levels cs).0
unfolding stops_or_starts_with levels is_nil
starts-levels [] = refl
starts-levels (c ∷ cs) = ground arith

-- Behind a plain character the level goes on with plain characters.
unfoldable pub tail_ok : List ℕ → List (List ℕ) → Bool
tail_ok l [] = all is_plain l
tail_ok l (m ∷ ls) = all is_plain l && all_levels_ok m ls

level_ok-cons :
    (c : ℕ) (l : List ℕ)
    → level_ok (c ∷ l) ≡ ((c == b'+') && is_nil l || is_plain c && all is_plain l)
unfolding level_ok is_nil
level_ok-cons c [] = ground arith
level_ok-cons c (d ∷ l) = ground arith

all_ok-cons :
    (c : ℕ) (l : List ℕ) (ls : List (List ℕ))
    → all_levels_ok (c ∷ l) ls
      ≡ ((c == b'+') && is_nil l && tail_ok l ls || is_plain c && tail_ok l ls)
unfolding all_levels_ok tail_ok is_nil
all_ok-cons c [] [] = ground (arith, level_ok-cons c [])
all_ok-cons c [] (m ∷ ls) = ground (arith, level_ok-cons c [])
all_ok-cons c (d ∷ l) [] = ground (arith, level_ok-cons c (d ∷ l))
all_ok-cons c (d ∷ l) (m ∷ ls) = ground (arith, level_ok-cons c (d ∷ l))

pub level_ok-nil : level_ok [] ≡ true
unfolding level_ok
level_ok-nil = refl

slash_plain : (c : ℕ) → (c == b'/') ≡ true → is_plain c ≡ true
unfolding is_plain
slash_plain c e = ground arith

pub hash_not_plain : (c : ℕ) → (c == b'#') ≡ true → is_plain c ≡ false
unfolding is_plain
hash_not_plain c e = ground arith

pub levels_slash :
    (c : ℕ) (cs : List ℕ)
    → (c == b'/') ≡ true
    → levels (c ∷ cs) ≡ ([], (levels cs).0 ∷ (levels cs).1)
unfolding levels
levels_slash c cs e = rw e

pub levels_other :
    (c : ℕ) (cs : List ℕ)
    → (c == b'/') ≡ false
    → levels (c ∷ cs) ≡ (c ∷ (levels cs).0, (levels cs).1)
unfolding levels
levels_other c cs e = rw e

scan_slash :
    (fresh : Bool) (c : ℕ) (cs : List ℕ) → (c == b'/') ≡ true → scan fresh (c ∷ cs) ≡ scan true cs
unfolding scan
scan_slash fresh c cs e = rw (slash_plain c e, e)

scan_other :
    (fresh : Bool) (c : ℕ) (cs : List ℕ)
    → (c == b'/') ≡ false
    → scan fresh (c ∷ cs)
      ≡ ((is_plain c || (c == b'+') && is_nil (levels cs).0 && fresh) && scan false cs)
unfolding scan
scan_other fresh c cs e = rw (starts-levels cs, e)

tail_ok-cons :
    (c : ℕ) (l : List ℕ) (ls : List (List ℕ)) → tail_ok (c ∷ l) ls ≡ (is_plain c && tail_ok l ls)
unfolding tail_ok
tail_ok-cons c l [] = refl
tail_ok-cons c l (m ∷ ls) = ground arith

all_ok_slash : (l : List ℕ) (ls : List (List ℕ)) → all_levels_ok [] (l ∷ ls) ≡ all_levels_ok l ls
unfolding all_levels_ok
all_ok_slash l ls = rw level_ok-nil

tail_ok_slash : (l : List ℕ) (ls : List (List ℕ)) → tail_ok [] (l ∷ ls) ≡ all_levels_ok l ls
unfolding tail_ok
tail_ok_slash l ls = refl

-- The scan from the start of a level accepts exactly if each level is a single wildcard or plain.
pub scan-levels :
    (cs : List ℕ)
    → (scan true cs ≡ all_levels_ok (levels cs).0 (levels cs).1)
      × (scan false cs ≡ tail_ok (levels cs).0 (levels cs).1)
scan-levels [] = unfold scan levels all_levels_ok tail_ok level_ok in (refl, refl)
scan-levels (c ∷ cs) = elim (Bool-cases (c == b'/')) [
  | inl e ↦
      rw (levels_slash c cs e, scan_slash true c cs e, scan_slash false c cs e)
        (
          (scan-levels cs).0 ∙ sym (all_ok_slash (levels cs).0 (levels cs).1),
          (scan-levels cs).0 ∙ sym (tail_ok_slash (levels cs).0 (levels cs).1),
        )
  | inr e ↦
      rw (levels_other c cs e, scan_other true c cs e, scan_other false c cs e, (scan-levels cs).1)
        (
          ground (arith, all_ok-cons c (levels cs).0 (levels cs).1),
          ground (arith, tail_ok-cons c (levels cs).0 (levels cs).1),
        )
]
