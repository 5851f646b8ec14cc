-- ===== src/Topic/Text.antt =====
-- The helpers of the topic checks over the encoding of code points.
use async_mqtt.Base.{
  append-nil, ℕ, ◌<◌, ◌≤◌, ◌≡◌, refl, List, [], ◌∷◌, ◌++◌, All, length, length-append, ◌==◌, arith,
  ap, ◌∙◌, true,
}
use async_mqtt.Utf8.Encoding.{utf8, utf8_text, length-utf8}
use async_mqtt.Topic.{ends_with, stops_or_starts_with, remove_last}

ends_with-append :
    (x : ℕ) (s : List ℕ) (b : ℕ) (t : List ℕ) → ends_with x (s ++ (b ∷ t)) ≡ ends_with x (b ∷ t)
unfolding ends_with
ends_with-append x [] b t = refl
ends_with-append x (a ∷ []) b t = refl
ends_with-append x (a ∷ c ∷ s) b t = ends_with-append x (c ∷ s) b t

ends_with-append_pos : (x : ℕ) (s t : List ℕ) → 0 < length t → ends_with x (s ++ t) ≡ ends_with x t
ends_with-append_pos x s [] h = absurd (omega arith)
ends_with-append_pos x s (b ∷ t) h = ends_with-append x s b t

ends_with-utf8 : (x c : ℕ) → x < 128 → ends_with x (utf8 c) ≡ (c == x)
unfolding ends_with utf8
ends_with-utf8 x c h = ground arith

text_pos : (c : ℕ) (cs : List ℕ) → 0 < length (utf8_text (c ∷ cs))
unfolding utf8_text
text_pos c cs = omega (arith, length-utf8 c, length-append (utf8 c) (utf8_text cs))

pub ends_with-text : (x : ℕ) (cs : List ℕ) → x < 128 → ends_with x (utf8_text cs) ≡ ends_with x cs
unfolding utf8_text
ends_with-text x [] h = unfold ends_with in refl
ends_with-text x (c ∷ []) h =
    rw (append-nil (utf8 c), ends_with-utf8 x c h) (unfold ends_with in refl)
ends_with-text x (c ∷ d ∷ cs) h =
    ends_with-append_pos x (utf8 c) (utf8_text (d ∷ cs)) (text_pos d cs)
    ∙ ends_with-text x (d ∷ cs) h
    ∙ unfold ends_with in refl

remove_last-append :
    (s : List ℕ) (b : ℕ) (t : List ℕ) → remove_last (s ++ (b ∷ t)) ≡ s ++ remove_last (b ∷ t)
unfolding remove_last
remove_last-append [] b t = refl
remove_last-append (a ∷ []) b t = refl
remove_last-append (a ∷ c ∷ s) b t = ap (◌∷◌ a) (remove_last-append (c ∷ s) b t)

remove_last-append_pos : (s t : List ℕ) → 0 < length t → remove_last (s ++ t) ≡ s ++ remove_last t
remove_last-append_pos s [] h = absurd (omega arith)
remove_last-append_pos s (b ∷ t) h = remove_last-append s b t

remove_last-utf8 : (x : ℕ) → x < 128 → remove_last (utf8 x) ≡ []
unfolding remove_last utf8
remove_last-utf8 x h = ground arith

-- Where the text ends with a character of one byte, that byte is its last one.
pub remove_last-text :
    (x : ℕ) (cs : List ℕ)
    → x < 128
    → ends_with x cs ≡ true
    → remove_last (utf8_text cs) ≡ utf8_text (remove_last cs)
unfolding utf8_text
remove_last-text x [] h e = unfold remove_last in refl
remove_last-text x (c ∷ []) h e =
    let same : c ≡ x = unfold ends_with in (let e' : (c == x) ≡ true = e in ground arith) in
    rw (append-nil (utf8 c), same, remove_last-utf8 x h) (unfold remove_last in refl)
remove_last-text x (c ∷ d ∷ cs) h e =
    remove_last-append_pos (utf8 c) (utf8_text (d ∷ cs)) (text_pos d cs)
    ∙ ap (◌++◌ (utf8 c)) (remove_last-text x (d ∷ cs) h (unfold ends_with in e))
    ∙ unfold remove_last in refl

pub stops_or_starts-text :
    (x : ℕ) (cs : List ℕ)
    → x < 128
    → stops_or_starts_with x (utf8_text cs) ≡ stops_or_starts_with x cs
unfolding utf8_text utf8 stops_or_starts_with
stops_or_starts-text x [] h = refl
stops_or_starts-text x (c ∷ cs) h = ground arith

pub All-remove_last {ℓ} : (P : ℕ → Type ℓ) (cs : List ℕ) → All P cs → All P (remove_last cs)
unfolding remove_last
All-remove_last P [] h = tt
All-remove_last P (c ∷ []) h = tt
All-remove_last P (c ∷ d ∷ cs) h = (h.0, All-remove_last P (d ∷ cs) h.1)

pub length-remove_last : (cs : List ℕ) → length (remove_last cs) ≤ length cs
unfolding remove_last
length-remove_last [] = omega arith
length-remove_last (c ∷ []) = omega arith
length-remove_last (c ∷ d ∷ cs) = omega (arith, length-remove_last (d ∷ cs))
