-- ===== src/ReasonCodes/Tables.antt =====
-- The search for a reason code finds what the table of the packet holds.
use async_mqtt.Base.{
  ==→eq, subst, Bool, ◌&&◌, ◌↔◌, sym, ap, ◌∙◌, inl, inr, Bool-cases, ℕ, ◌<◌, ◌≡◌, refl, List, [],
  ◌∷◌, ltb, ◌==◌, arith, All, true,
}
use mathlib.Core.List.Memᴰ.{head, tail}
use mathlib.Core.List.{Memᴰ}
use async_mqtt.ReasonCodes.{
  Category, uncategorised, connack, puback, pubrec, pubrel, pubcomp, suback, unsuback, auth,
  disconnect, ReasonCode, Lookup, found, nullopt, past_end, of_byte, lower_bound, value_at,
  valid_codes, to_reason_code,
}

abbrev above : ℕ → List ReasonCode → Bool
above code [] = true
above code (rc ∷ rcs) = ltb code rc.code && above code rcs

abbrev ascending : List ReasonCode → Bool
ascending [] = true
ascending (rc ∷ rcs) = above rc.code rcs && ascending rcs

-- std::lower_bound may search each of the tables.
valid_codes-ascending : (cat : Category) → ascending (valid_codes cat) ≡ true
valid_codes-ascending uncategorised = refl
valid_codes-ascending connack = refl
valid_codes-ascending puback = refl
valid_codes-ascending pubrec = refl
valid_codes-ascending pubrel = refl
valid_codes-ascending pubcomp = refl
valid_codes-ascending suback = refl
valid_codes-ascending unsuback = refl
valid_codes-ascending auth = refl
valid_codes-ascending disconnect = refl

above-Mem :
    (code : ℕ) (x : ReasonCode) (rcs : List ReasonCode)
    → above code rcs ≡ true
    → Memᴰ x rcs
    → code < x.code
above-Mem code x [] a m = elim m [ ]
above-Mem code x (rc ∷ rcs) a (head e) =
    subst (λ (y : ReasonCode). code < y.code) (sym e) (ground arith)
above-Mem code x (rc ∷ rcs) a (tail k) = above-Mem code x rcs (ground arith) k

found_or : ReasonCode → Lookup → ReasonCode
found_or rc (found x) = x
found_or rc nullopt = rc
found_or rc past_end = rc

value_at-head :
    (code : ℕ) (x rc : ReasonCode) (rcs : List ReasonCode)
    → value_at code (rc ∷ rcs) ≡ found x
    → (x ≡ rc) × (x.code ≡ code)
value_at-head code x rc rcs e = elim (Bool-cases (rc.code == code)) [
  | inl h ↦
      let hit : found rc ≡ found x = ground arith in
      let same : rc ≡ x = unfold found_or in ap (found_or rc) hit in
      (sym same, ap (λ (y : ReasonCode). y.code) (sym same) ∙ ==→eq _ _ h)
  | inr h ↦ ground arith
]

found-Mem :
    (code : ℕ) (x : ReasonCode) (rcs : List ReasonCode)
    → value_at code (lower_bound (of_byte code) rcs) ≡ found x
    → Memᴰ x rcs × (x.code ≡ code)
unfolding lower_bound
found-Mem code x [] e = ground arith
found-Mem code x (rc ∷ rcs) e = elim (Bool-cases (ltb rc.code code)) [
  | inl h ↦ let (l, k) = found-Mem code x rcs (ground arith) in (tail l, k)
  | inr h ↦ let (l, k) = value_at-head code x rc rcs (ground arith) in (head l, k)
]

Mem-found :
    (x : ReasonCode) (rcs : List ReasonCode)
    → ascending rcs ≡ true
    → Memᴰ x rcs
    → value_at x.code (lower_bound (of_byte x.code) rcs) ≡ found x
unfolding lower_bound
Mem-found x [] a m = elim m [ ]
Mem-found x (rc ∷ rcs) a (head e) =
    subst (λ (y : ReasonCode). value_at y.code (lower_bound (of_byte y.code) (rc ∷ rcs)) ≡ found y)
      (sym e) (ground arith)
Mem-found x (rc ∷ rcs) a (tail k) =
    let less = above-Mem rc.code x rcs (ground arith) k in
    ground (arith, less, Mem-found x rcs (ground arith) k)

past_end-below :
    (code : ℕ) (rcs : List ReasonCode)
    → value_at code (lower_bound (of_byte code) rcs) ≡ past_end
    → All (λ (rc : ReasonCode). rc.code < code) rcs
unfolding lower_bound
past_end-below code [] e = tt
past_end-below code (rc ∷ rcs) e =
    let less : rc.code < code = ground arith in (less, past_end-below code rcs (ground arith))

below-past_end :
    (code : ℕ) (rcs : List ReasonCode)
    → All (λ (rc : ReasonCode). rc.code < code) rcs
    → value_at code (lower_bound (of_byte code) rcs) ≡ past_end
unfolding lower_bound
below-past_end code [] h = refl
below-past_end code (rc ∷ rcs) (l, h) = ground (arith, below-past_end code rcs h)

-- The search finds just the reason codes that the table of the packet holds, each by its value.
-- It reads behind the table, where there is no element, just for the values above all of its codes.
pub to_reason_code_lem :
    (cat : Category) (code : ℕ)
    → ((rc : ReasonCode)
        → (to_reason_code cat code ≡ found rc) ↔ (Memᴰ rc (valid_codes cat) × (rc.code ≡ code)))
      × ((to_reason_code cat code ≡ past_end)
          ↔ All (λ (rc : ReasonCode). rc.code < code) (valid_codes cat))
unfolding to_reason_code
to_reason_code_lem cat code = (
  λ rc. (
    found-Mem code rc (valid_codes cat),
    λ (m, e).
        subst (λ (c : ℕ). to_reason_code cat c ≡ found rc) e
          (Mem-found rc (valid_codes cat) (valid_codes-ascending cat) m),
  ),
  (past_end-below code (valid_codes cat), below-past_end code (valid_codes cat)),
)
