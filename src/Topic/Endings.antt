-- ===== src/Topic/Endings.antt =====
-- The last level of a topic filter, and its last character.
use async_mqtt.Base.{
  ℕ, ◌≡◌, refl, sym, List, [], ◌∷◌, ◌++◌, ◌==◌, arith, ◌∙◌, Bool, true, false, ◌||◌, Bool-cases,
  inl, inr,
}
use async_mqtt.Topic.{ends_with, remove_last}
use async_mqtt.Utf8.Chars.{all}
use async_mqtt.Topic.Scan.{is_plain}
use async_mqtt.Topic.Levels.{
  levels, init_ok, last_level, is_nil, levels_slash, levels_other, level_ok, is_multi,
  hash_not_plain,
}

pub add_last : ℕ → List ℕ → List (List ℕ) → List ℕ × List (List ℕ)
add_last x l [] = (l ++ (x ∷ []), [])
add_last x l (m ∷ ls) = let (k, ks) = add_last x m ls in (l, k ∷ ks)

pub last_level-add :
    (x : ℕ) (l : List ℕ) (ls : List (List ℕ))
    → last_level (add_last x l ls).0 (add_last x l ls).1 ≡ last_level l ls ++ (x ∷ [])
unfolding last_level add_last
last_level-add x l [] = refl
last_level-add x l (m ∷ ls) = last_level-add x m ls

pub init_ok-add :
    (x : ℕ) (l : List ℕ) (ls : List (List ℕ))
    → init_ok (add_last x l ls).0 (add_last x l ls).1 ≡ init_ok l ls
unfolding init_ok add_last
init_ok-add x l [] = refl
init_ok-add x l (m ∷ ls) = rw (init_ok-add x m ls)

add_last-cons :
    (x c : ℕ) (l : List ℕ) (ls : List (List ℕ))
    → add_last x (c ∷ l) ls ≡ (c ∷ (add_last x l ls).0, (add_last x l ls).1)
unfolding add_last
add_last-cons x c l [] = refl
add_last-cons x c l (m ∷ ls) = refl

ends_with-single : (x c : ℕ) → ends_with x (c ∷ []) ≡ (c == x)
unfolding ends_with
ends_with-single x c = refl

ends_with-nil : (x : ℕ) → ends_with x [] ≡ false
unfolding ends_with
ends_with-nil x = refl

ends_with-cons : (x c d : ℕ) (cs : List ℕ) → ends_with x (c ∷ d ∷ cs) ≡ ends_with x (d ∷ cs)
unfolding ends_with
ends_with-cons x c d cs = refl

remove_last-cons : (c d : ℕ) (cs : List ℕ) → remove_last (c ∷ d ∷ cs) ≡ c ∷ remove_last (d ∷ cs)
unfolding remove_last
remove_last-cons c d cs = refl

not_slash : (x c : ℕ) → (x == b'/') ≡ false → (c == x) ≡ true → (c == b'/') ≡ false
not_slash x c n e = ground arith

eq_of_test : (x c : ℕ) → (c == x) ≡ true → c ≡ x
eq_of_test x c e = ground arith

-- Where the text ends with a character other than a slash, that character ends the last level.
pub levels-remove_last :
    (x : ℕ) (cs : List ℕ)
    → (x == b'/') ≡ false
    → ends_with x cs ≡ true
    → levels cs ≡ add_last x (levels (remove_last cs)).0 (levels (remove_last cs)).1
levels-remove_last x [] n e = cc (e, ends_with-nil x)
levels-remove_last x (c ∷ []) n e =
    let same : (c == x) ≡ true = rw (ends_with-single x c) at e in
    rw (levels_other c [] (not_slash x c n same), eq_of_test x c same)
      (unfold levels remove_last add_last in refl)
levels-remove_last x (c ∷ d ∷ cs) n e = elim (Bool-cases (c == b'/')) [
  | inl f ↦
      rw
        (
          remove_last-cons c d cs,
          levels_slash c (d ∷ cs) f,
          levels_slash c (remove_last (d ∷ cs)) f,
          levels-remove_last x (d ∷ cs) n (rw (ends_with-cons x c d cs) at e),
        )
        (unfold add_last in refl)
  | inr f ↦
      rw
        (
          remove_last-cons c d cs,
          levels_other c (d ∷ cs) f,
          levels_other c (remove_last (d ∷ cs)) f,
          levels-remove_last x (d ∷ cs) n (rw (ends_with-cons x c d cs) at e),
        )
        (sym (add_last-cons x c _ _))
]

abbrev last_of : List ℕ → List ℕ
last_of cs = last_level (levels cs).0 (levels cs).1

last_of-slash : (c : ℕ) (cs : List ℕ) → (c == b'/') ≡ true → last_of (c ∷ cs) ≡ last_of cs
last_of-slash c cs e = rw (levels_slash c cs e) (unfold last_level in refl)

last_of-single : (c : ℕ) → (c == b'/') ≡ false → last_of (c ∷ []) ≡ c ∷ []
last_of-single c e = rw (levels_other c [] e) (unfold last_level levels in refl)

-- What depends on a level's end only does not see the first of two characters.
last_of-cons :
    (F : List ℕ → Bool)
    → ((c d : ℕ) (l : List ℕ) → F (c ∷ d ∷ l) ≡ F (d ∷ l))
    → (c d : ℕ) (cs : List ℕ) → F (last_of (c ∷ d ∷ cs)) ≡ F (last_of (d ∷ cs))
unfolding last_level
last_of-cons F h c d cs = elim (Bool-cases (c == b'/')) [
  | inl e ↦ rw (last_of-slash c (d ∷ cs) e)
  | inr e ↦ rw (levels_other c (d ∷ cs) e) (elim (Bool-cases (d == b'/')) [
    | inl f ↦ rw (levels_slash d cs f)
    | inr f ↦ rw (levels_other d cs f) (kept (levels cs).0 (levels cs).1)
  ])
]
  where
    kept :
        (l : List ℕ) (ls : List (List ℕ))
        → F (last_level (c ∷ d ∷ l) ls) ≡ F (last_level (d ∷ l) ls)
    kept l [] = h c d l
    kept l (m ∷ ls) = refl

-- A text ends with a character other than a slash exactly if its last level does.
pub ends_with-last_level :
    (x : ℕ) (cs : List ℕ)
    → (x == b'/') ≡ false
    → ends_with x (last_level (levels cs).0 (levels cs).1) ≡ ends_with x cs
ends_with-last_level x [] n = unfold levels last_level in refl
ends_with-last_level x (c ∷ []) n = elim (Bool-cases (c == b'/')) [
  | inl e ↦
      rw (last_of-slash c [] e, ends_with-single x c)
        (unfold levels last_level ends_with in ground arith)
  | inr e ↦ rw (last_of-single c e)
]
ends_with-last_level x (c ∷ d ∷ cs) n =
    last_of-cons (ends_with x) (ends_with-cons x) c d cs
    ∙ ends_with-last_level x (d ∷ cs) n
    ∙ sym (ends_with-cons x c d cs)

-- The last level is empty exactly if the text is, or ends with a slash.
pub last_level-nil :
    (cs : List ℕ)
    → is_nil (last_level (levels cs).0 (levels cs).1) ≡ (is_nil cs || ends_with b'/' cs)
last_level-nil [] = unfold levels last_level is_nil in refl
last_level-nil (c ∷ []) = elim (Bool-cases (c == b'/')) [
  | inl e ↦
      rw (last_of-slash c [] e, ends_with-single b'/' c, e)
        (unfold levels last_level is_nil in refl)
  | inr e ↦ rw (last_of-single c e, ends_with-single b'/' c, e) (unfold is_nil in refl)
]
last_level-nil (c ∷ d ∷ cs) =
    last_of-cons is_nil (unfold is_nil in λ _ _ _. refl) c d cs
    ∙ last_level-nil (d ∷ cs)
    ∙ rw (ends_with-cons b'/' c d cs) (unfold is_nil in refl)

hash_end-plain : (l : List ℕ) → ends_with b'#' l ≡ true → all is_plain l ≡ false
hash_end-plain [] e = cc (e, ends_with-nil b'#')
hash_end-plain (c ∷ []) e = ground (arith, ends_with-single b'#' c, hash_not_plain c)
hash_end-plain (c ∷ d ∷ l) e = ground (arith, ends_with-cons b'#' c d l, hash_end-plain (d ∷ l))

-- A level that ends with # is no level without wildcards, and no single wildcard.
pub hash_end : (l : List ℕ) → ends_with b'#' l ≡ true → level_ok l ≡ false
unfolding level_ok
hash_end [] e = cc (e, ends_with-nil b'#')
hash_end (c ∷ []) e = ground (arith, ends_with-single b'#' c, hash_end-plain (c ∷ []))
hash_end (c ∷ d ∷ l) e = hash_end-plain (c ∷ d ∷ l) e

pub multi_end : (l : List ℕ) → is_multi l ≡ true → ends_with b'#' l ≡ true
unfolding ends_with
multi_end [] e = cc
multi_end (c ∷ []) e = e
multi_end (c ∷ d ∷ l) e = cc

pub multi-append : (l : List ℕ) → is_multi (l ++ (b'#' ∷ [])) ≡ is_nil l
unfolding is_nil
multi-append [] = refl
multi-append (c ∷ []) = refl
multi-append (c ∷ d ∷ l) = refl

pub ends_with_hash-append : (l : List ℕ) → ends_with b'#' (l ++ (b'#' ∷ [])) ≡ true
ends_with_hash-append [] = ends_with-single b'#' b'#'
ends_with_hash-append (c ∷ []) = ends_with-cons b'#' c b'#' [] ∙ ends_with-single b'#' b'#'
ends_with_hash-append (c ∷ d ∷ l) =
    ends_with-cons b'#' c d (l ++ (b'#' ∷ [])) ∙ ends_with_hash-append (d ∷ l)
