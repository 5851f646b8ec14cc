-- ===== src/Topic/Scan.antt =====
-- The loop of validate_topic_filter over the encoding of code points, as a scan of the code points.
use async_mqtt.Base.{
  ℕ, zero, suc, ◌<◌, ◌≤◌, ◌≡◌, refl, List, [], ◌∷◌, ◌++◌, All, length, length-append, ◌==◌,
  if◌then◌else◌, Option, some, arith, ap, ◌∙◌, Bool, true, false, not, ◌&&◌, ◌||◌,
}
use async_mqtt.Utf8.{validate_mqtt_utf8_char, pop_front_unichar, valid, invalid, has_valid_code}
use async_mqtt.Utf8.Encoding.{utf8, utf8_text, IsCodePoint, length-utf8, read_back, pop_front-utf8}
use async_mqtt.Utf8.Walk.{check-read_back}
use async_mqtt.Utf8.Chars.{is_accepted}
use async_mqtt.Topic.{
  stops_or_starts_with, is_valid_char, is_single_lvl, at_level_start, filter_loop,
}
use async_mqtt.Topic.Text.{stops_or_starts-text}

-- A character that may stand anywhere in a topic.
unfoldable pub is_plain : ℕ → Bool
is_plain c = is_accepted c && not (c == b'#') && not (c == b'+')

-- `fresh`: the scan is at the start of a level.
unfoldable pub scan : Bool → List ℕ → Bool
scan fresh [] = true
scan fresh (c ∷ cs) =
    (is_plain c || (c == b'+') && stops_or_starts_with b'/' cs && fresh) && scan (c == b'/') cs

pub check-plain : (c : ℕ) → is_valid_char (validate_mqtt_utf8_char (some c)) ≡ is_plain c
unfolding validate_mqtt_utf8_char has_valid_code is_plain
check-plain c = ground arith

at_level_start-read_back : (c : ℕ) → at_level_start (some (read_back c)) ≡ (c == b'/')
unfolding at_level_start read_back
at_level_start-read_back c = ground arith

is_single_lvl-read_back : (c : ℕ) → is_single_lvl (some (read_back c)) ≡ (c == b'+')
unfolding is_single_lvl read_back
is_single_lvl-read_back c = ground arith

round :
    (fuel : ℕ) (last : Option ℕ) (s : List ℕ) (c : Option ℕ) (rest : List ℕ)
    → 0 < length s
    → pop_front_unichar s ≡ (c, rest)
    → filter_loop (suc fuel) last s ≡ (
        if is_valid_char (validate_mqtt_utf8_char c)
          || (is_single_lvl c && stops_or_starts_with b'/' rest && at_level_start last)
        then filter_loop fuel c rest
        else some invalid)
unfolding filter_loop
round fuel last [] c rest l e = absurd (omega arith)
round fuel last (b ∷ s) c rest l e = rw e

scan_step :
    (fresh p q : Bool) (c : ℕ) (cs : List ℕ)
    → p ≡ is_plain c
    → q ≡ ((c == b'+') && stops_or_starts_with b'/' cs && fresh)
    → (if p || q then some (if scan (c == b'/') cs then valid else invalid) else some invalid)
      ≡ some (if scan fresh (c ∷ cs) then valid else invalid)
unfolding scan
scan_step fresh p q c cs e f =
    rw (e, f)
      (branch (is_plain c || (c == b'+') && stops_or_starts_with b'/' cs && fresh)
        (scan (c == b'/') cs))
  where
    branch :
        (a b : Bool)
        → (if a then some (if b then valid else invalid) else some invalid)
          ≡ some (if a && b then valid else invalid)
    branch true b = refl
    branch false b = refl

-- With fuel for every byte, the loop over the encoding of code points answers by the scan.
pub filter_loop-text :
    (cs : List ℕ) (fuel : ℕ) (last : Option ℕ)
    → All IsCodePoint cs
    → length (utf8_text cs) ≤ fuel
    → filter_loop fuel last (utf8_text cs)
      ≡ some (if scan (at_level_start last) cs then valid else invalid)
unfolding utf8_text
filter_loop-text [] fuel last h l = unfold filter_loop scan in refl
filter_loop-text (c ∷ cs) zero last h l =
    absurd (omega (arith, length-utf8 c, length-append (utf8 c) (utf8_text cs)))
filter_loop-text (c ∷ cs) (suc fuel) last h l =
    round fuel last (utf8 c ++ utf8_text cs) (some (read_back c)) (utf8_text cs)
      (omega (arith, length-utf8 c, length-append (utf8 c) (utf8_text cs)))
      (pop_front-utf8 c (utf8_text cs) h.0)
    ∙ rw
        (
          filter_loop-text cs fuel (some (read_back c)) h.1
              (omega (arith, length-utf8 c, length-append (utf8 c) (utf8_text cs))),
          at_level_start-read_back c,
        )
        (scan_step (at_level_start last) _ _ c cs
          (ap is_valid_char (check-read_back c) ∙ check-plain c)
          (rw (is_single_lvl-read_back c, stops_or_starts-text b'/' cs (omega arith))))
