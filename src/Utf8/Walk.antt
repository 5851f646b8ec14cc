-- ===== src/Utf8/Walk.antt =====
-- The loop of validate_impl over the encoding of code points, as a walk over the code points.
use async_mqtt.Base.{
  ℕ, zero, suc, ◌<◌, ◌≤◌, ◌≡◌, refl, List, [], ◌∷◌, ◌++◌, All, length, length-append, if◌then◌else◌,
  Option, some, arith, ◌∙◌, Bool,
}
use async_mqtt.Utf8.{
  ValidationResult, valid, pop_front_unichar, validate_mqtt_utf8_char, validate_loop,
}
use async_mqtt.Utf8.Encoding.{utf8, utf8_text, IsCodePoint, read_back, pop_front-utf8, length-utf8}

-- The first code point whose check the condition refuses decides.
unfoldable pub walk : (ValidationResult → Bool) → List ℕ → ValidationResult
walk condition [] = valid
walk condition (c ∷ cs) =
    let result = validate_mqtt_utf8_char (some c) in
    if condition result then walk condition cs else result

walk_step :
    (condition : ValidationResult → Bool) (c : ℕ) (cs : List ℕ)
    → (if condition (validate_mqtt_utf8_char (some c))
        then some (walk condition cs)
        else some (validate_mqtt_utf8_char (some c)))
      ≡ some (walk condition (c ∷ cs))
unfolding walk
walk_step condition c cs = ground arith

-- The check does not see what pop_front_unichar adds.
pub check-read_back :
    (c : ℕ) → validate_mqtt_utf8_char (some (read_back c)) ≡ validate_mqtt_utf8_char (some c)
unfolding validate_mqtt_utf8_char read_back
check-read_back c = ground arith

-- One round of the loop.
round :
    (condition : ValidationResult → Bool) (fuel : ℕ) (s : List ℕ) (c : Option ℕ) (rest : List ℕ)
    → 0 < length s
    → pop_front_unichar s ≡ (c, rest)
    → validate_loop condition (suc fuel) s ≡ (
        if condition (validate_mqtt_utf8_char c)
        then validate_loop condition fuel rest
        else some (validate_mqtt_utf8_char c))
unfolding validate_loop
round condition fuel [] c rest l e = absurd (omega arith)
round condition fuel (b ∷ s) c rest l e = rw e

-- With fuel for every byte, the loop over the encoding of code points gives what the walk gives.
pub validate_loop-text :
    (condition : ValidationResult → Bool) (cs : List ℕ) (fuel : ℕ)
    → All IsCodePoint cs
    → length (utf8_text cs) ≤ fuel
    → validate_loop condition fuel (utf8_text cs) ≡ some (walk condition cs)
unfolding utf8_text
validate_loop-text condition [] fuel h l = unfold validate_loop walk in refl
validate_loop-text condition (c ∷ cs) zero h l =
    absurd (omega (arith, length-utf8 c, length-append (utf8 c) (utf8_text cs)))
validate_loop-text condition (c ∷ cs) (suc fuel) h l =
    round condition fuel (utf8 c ++ utf8_text cs) (some (read_back c)) (utf8_text cs)
      (omega (arith, length-utf8 c, length-append (utf8 c) (utf8_text cs)))
      (pop_front-utf8 c (utf8_text cs) h.0)
    ∙ rw
        (
          check-read_back c,
          validate_loop-text condition cs fuel h.1
              (omega (arith, length-utf8 c, length-append (utf8 c) (utf8_text cs))),
        )
        (walk_step condition c cs)
