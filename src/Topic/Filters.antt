-- ===== src/Topic/Filters.antt =====
-- validate_topic_filter against the levels of a filter.
use async_mqtt.Base.{
  ℕ, ◌≡◌, refl, sym, List, [], ◌∷◌, ◌++◌, All, length, length-append, leb, ◌==◌, if◌then◌else◌,
  Option, none, some, arith, ap, ◌∙◌, Bool, true, false, not, ◌&&◌, Bool-cases, inl, inr,
}
use async_mqtt.Utf8.{ValidationResult, valid, invalid}
use async_mqtt.Utf8.Encoding.{utf8, utf8_text, IsCodePoint, length-utf8}
use async_mqtt.Topic.{
  ends_with, remove_last, is_valid_topic_size, validate_topic_filter, filter_loop, at_level_start,
}
use async_mqtt.Topic.Text.{ends_with-text, remove_last-text, All-remove_last}
use async_mqtt.Topic.Scan.{filter_loop-text}
use async_mqtt.Topic.Levels.{
  levels, init_ok, last_level, is_nil, level_ok, filter_ok, all_levels_ok, scan-levels,
  filter-split, all_levels-split, level_ok-nil,
}
use async_mqtt.Topic.Endings.{
  levels-remove_last, add_last, init_ok-add, last_level-add, ends_with-last_level, last_level-nil,
  hash_end, multi_end, multi-append, ends_with_hash-append,
}

abbrev verdict : Bool → Option ValidationResult
verdict b = some (if b then valid else invalid)

-- What the spec says of a filter that ends with #, in terms of the text before it.
filter_ok-hash :
    (cs : List ℕ)
    → ends_with b'#' cs ≡ true
    → filter_ok (levels cs).0 (levels cs).1 ≡ (
        init_ok (levels (remove_last cs)).0 (levels (remove_last cs)).1
        && is_nil (last_level (levels (remove_last cs)).0 (levels (remove_last cs)).1))
filter_ok-hash cs e =
    let l = (levels (remove_last cs)).0 in
    let ls = (levels (remove_last cs)).1 in
    rw
      (
        levels-remove_last b'#' cs refl e,
        filter-split (add_last b'#' l ls).0 (add_last b'#' l ls).1,
        init_ok-add b'#' l ls,
        last_level-add b'#' l ls,
        multi-append (last_level l ls),
        hash_end (last_level l ls ++ (b'#' ∷ [])) (ends_with_hash-append (last_level l ls)),
      )
      (ground arith)

nil_ok : (l : List ℕ) → is_nil l ≡ true → level_ok l ≡ true
nil_ok [] e = level_ok-nil
nil_ok (c ∷ l) e = unfold is_nil in cc e

all_ok-nil :
    (l : List ℕ) (ls : List (List ℕ))
    → is_nil (last_level l ls) ≡ true
    → all_levels_ok l ls ≡ init_ok l ls
all_ok-nil l ls e = rw (all_levels-split l ls, nil_ok (last_level l ls) e) (ground arith)

filter_ok-plain :
    (cs : List ℕ)
    → ends_with b'#' cs ≡ false
    → filter_ok (levels cs).0 (levels cs).1 ≡ all_levels_ok (levels cs).0 (levels cs).1
filter_ok-plain cs e =
    let l = (levels cs).0 in
    let ls = (levels cs).1 in
    ground (
      arith,
      filter-split l ls,
      all_levels-split l ls,
      multi_end (last_level l ls),
      ends_with-last_level b'#' cs refl,
    )

length-text_nil : (cs : List ℕ) → (length (utf8_text cs) == 0) ≡ is_nil cs
unfolding utf8_text is_nil
length-text_nil [] = refl
length-text_nil (c ∷ cs) = ground (arith, length-utf8 c, length-append (utf8 c) (utf8_text cs))

loop-levels :
    (cs : List ℕ)
    → All IsCodePoint cs
    → filter_loop (length (utf8_text cs)) none (utf8_text cs)
      ≡ verdict (all_levels_ok (levels cs).0 (levels cs).1)
loop-levels cs h =
    filter_loop-text cs (length (utf8_text cs)) none h (omega arith)
    ∙ unfold at_level_start in ap verdict (scan-levels cs).0

-- The branch for a filter that ends with #.
hash_branch :
    (cs : List ℕ)
    → All IsCodePoint cs
    → ends_with b'#' cs ≡ true
    → (let ds = remove_last cs in
        if not (length (utf8_text ds) == 0) && not (ends_with b'/' (utf8_text ds))
        then some invalid
        else filter_loop (length (utf8_text ds)) none (utf8_text ds))
      ≡ verdict (filter_ok (levels cs).0 (levels cs).1)
hash_branch cs h e =
    let ds = remove_last cs in
    let l = (levels ds).0 in
    let ls = (levels ds).1 in
    rw
      (
        length-text_nil ds,
        ends_with-text b'/' ds (omega arith),
        loop-levels ds (All-remove_last IsCodePoint cs h),
        filter_ok-hash cs e,
      )
      (elim (Bool-cases (is_nil (last_level l ls))) [
        | inl n ↦ ground (arith, n, last_level-nil ds, all_ok-nil l ls n)
        | inr n ↦ ground (arith, n, last_level-nil ds)
      ])

size_iff : (n : ℕ) → is_valid_topic_size n ≡ (leb 1 n && leb n 65535)
unfolding is_valid_topic_size
size_iff n = ground arith

sized_filter :
    (cs : List ℕ)
    → All IsCodePoint cs
    → is_valid_topic_size (length (utf8_text cs)) ≡ true
    → validate_topic_filter (utf8_text cs) ≡ verdict (filter_ok (levels cs).0 (levels cs).1)
unfolding validate_topic_filter
sized_filter cs h z = elim (Bool-cases (ends_with b'#' cs)) [
  | inl e ↦
      rw (z, ends_with-text b'#' cs (omega arith), e, remove_last-text b'#' cs (omega arith) e)
        (hash_branch cs h e)
  | inr e ↦ rw (z, ends_with-text b'#' cs (omega arith), e, filter_ok-plain cs e) (loop-levels cs h)
]

unsized_filter :
    (s : List ℕ) → is_valid_topic_size (length s) ≡ false → validate_topic_filter s ≡ some invalid
unfolding validate_topic_filter
unsized_filter s z = rw z

and_verdict : (a b c : Bool) → (a && b) ≡ true → verdict (a && b && c) ≡ verdict c
and_verdict true true c e = refl
and_verdict true false c e = cc
and_verdict false b c e = cc

and_verdict-false : (a b c : Bool) → (a && b) ≡ false → verdict (a && b && c) ≡ some invalid
and_verdict-false true true c e = cc
and_verdict-false true false c e = refl
and_verdict-false false b c e = refl

-- On the encoding of code points validate_topic_filter answers `valid` exactly if it takes 1 to
-- 65535 bytes and each of its levels is the wildcard + alone or has accepted characters and no
-- wildcard, but that the last level may be the wildcard # alone; else the answer is `invalid`.
pub validate_topic_filter-text :
    (cs : List ℕ)
    → All IsCodePoint cs
    → validate_topic_filter (utf8_text cs)
      ≡ some (
          if leb 1 (length (utf8_text cs))
            && leb (length (utf8_text cs)) 65535
            && filter_ok (levels cs).0 (levels cs).1
          then valid
          else invalid)
validate_topic_filter-text cs h = elim (Bool-cases (is_valid_topic_size (length (utf8_text cs)))) [
  | inl z ↦
      sized_filter cs h z
      ∙ sym (
          and_verdict (leb 1 (length (utf8_text cs))) _ _
            (sym (size_iff (length (utf8_text cs))) ∙ z))
  | inr z ↦
      unsized_filter (utf8_text cs) z
      ∙ sym (
          and_verdict-false (leb 1 (length (utf8_text cs))) _ _
            (sym (size_iff (length (utf8_text cs))) ∙ z))
]
