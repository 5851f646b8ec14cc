-- ===== src/Codec/Entries.antt =====
-- A property list as the sequence of its entries, each an identifier with one value, in the order in
-- which they stand on the wire.
use async_mqtt.Base.{
  ℕ, ◌^◌, ◌<◌, ◌≡◌, refl, sym, List, [], ◌∷◌, ◌++◌, length, All, All-append, ◌==◌, if◌then◌else◌,
  Option, none, some, arith, ap, ◌∙◌, Bool-cases, eq→==, inl, inr, false, append_assoc, append-nil,
}
use async_mqtt.Codec.Property.{
  PropType, u8, u16, varint, u32, text, text_pair, PropValue, u8_value, u16_value, varint_value,
  u32_value, text_value, pair_value, Stored, single, many, Prop,
}
use async_mqtt.Codec.PropDecoder.{store}

abbrev pub Entry : Type 0
Entry = ℕ × PropValue

abbrev pub type_of : PropValue → PropType
type_of (u8_value v) = u8
type_of (u16_value v) = u16
type_of (varint_value v) = varint
type_of (u32_value v) = u32
type_of (text_value u) = text
type_of (pair_value u v) = text_pair

-- What the wire format can hold.
abbrev pub InRange : PropValue → Type 0
InRange (u8_value v) = v < 256
InRange (u16_value v) = v < 2 ^ 16
InRange (varint_value v) = v < 2 ^ 28
InRange (u32_value v) = v < 2 ^ 32
InRange (text_value u) = length u < 2 ^ 16
InRange (pair_value u v) = (length u < 2 ^ 16) × (length v < 2 ^ 16)

abbrev pub values : Stored → List PropValue
values (single none) = []
values (single (some v)) = v ∷ []
values (many vs) = vs

abbrev pub entries_of : ℕ → List PropValue → List Entry
entries_of id [] = []
entries_of id (v ∷ vs) = (id, v) ∷ entries_of id vs

unfoldable pub entries : List Prop → List Entry
entries [] = []
entries (p ∷ ps) = entries_of p.id (values p.value) ++ entries ps

-- The list without its values.
abbrev pub no_value : Stored → Stored
no_value (single o) = single none
no_value (many vs) = many []

unfoldable pub blank : List Prop → List Prop
blank [] = []
blank (p ∷ ps) = record p { value = no_value p.value } ∷ blank ps

-- The first property with the identifier is given a value.
unfoldable pub put : ℕ → PropValue → List Prop → List Prop
put id v [] = []
put id v (p ∷ ps) =
    if p.id == id then record p { value = store v p.value } ∷ ps else (p ∷ put id v ps)

unfoldable pub put_all : List Entry → List Prop → List Prop
put_all [] ps = ps
put_all ((id, v) ∷ es) ps = put_all es (put id v ps)

unfoldable pub type_at : ℕ → List Prop → Option PropType
type_at id [] = none
type_at id (p ∷ ps) = if p.id == id then some p.type else type_at id ps

-- No identifier twice, and values of the declared types that the wire format can hold.
abbrev pub Fresh : ℕ → List Prop → Type 0
Fresh id ps = type_at id ps ≡ none

abbrev pub FitsValue : PropType → PropValue → Type 0
FitsValue t v = (type_of v ≡ t) × InRange v

unfoldable pub Fits : List Prop → Type 0
Fits [] = Unit {0}
Fits (p ∷ ps) = Fresh p.id ps × All (FitsValue p.type) (values p.value) × Fits ps

pub type_at-put :
    (j id : ℕ) (v : PropValue) (ps : List Prop) → type_at j (put id v ps) ≡ type_at j ps
unfolding type_at put
type_at-put j id v [] = refl
type_at-put j id v (p ∷ ps) = elim (Bool-cases (p.id == id)) [
  | inl e ↦ rw e
  | inr e ↦ rw (e, type_at-put j id v ps)
]

put_all-append :
    (es fs : List Entry) (ps : List Prop) → put_all (es ++ fs) ps ≡ put_all fs (put_all es ps)
unfolding put_all
put_all-append [] fs ps = refl
put_all-append ((id, v) ∷ es) fs ps = put_all-append es fs (put id v ps)

put_first :
    (p : Prop) (v : PropValue) (s : Stored) (ps : List Prop)
    → put p.id v (record p { value = s } ∷ ps) ≡ record p { value = store v s } ∷ ps
unfolding put
put_first p v s ps = ground arith

-- Values for a property whose identifier stands first.
put_all-many :
    (p : Prop) (vs ws : List PropValue) (ps : List Prop)
    → put_all (entries_of p.id ws) (record p { value = many vs } ∷ ps)
      ≡ record p { value = many (vs ++ ws) } ∷ ps
unfolding put_all put
put_all-many p vs [] ps = rw (append-nil vs)
put_all-many p vs (w ∷ ws) ps =
    ap (put_all (entries_of p.id ws)) (put_first p w (many vs) ps)
    ∙ put_all-many p (vs ++ (w ∷ [])) ws ps
    ∙ ap (with_values ps) (append_assoc vs (w ∷ []) ws)
  where
    with_values : List Prop → List PropValue → List Prop
    with_values qs xs = record p { value = many xs } ∷ qs

put_all-values :
    (p : Prop) (s : Stored) (ps : List Prop)
    → put_all (entries_of p.id (values s)) (record p { value = no_value s } ∷ ps)
      ≡ record p { value = s } ∷ ps
unfolding put_all put
put_all-values p (single none) ps = refl
put_all-values p (single (some v)) ps = ground arith
put_all-values p (many vs) ps = put_all-many p [] vs ps

-- Entries of other identifiers pass a property by.
put_all-other :
    (p : Prop) (es : List Entry) (ps : List Prop)
    → All (λ (e : Entry). (p.id == e.0) ≡ false) es
    → put_all es (p ∷ ps) ≡ p ∷ put_all es ps
unfolding put_all put
put_all-other p [] ps h = refl
put_all-other p ((id, v) ∷ es) ps h = rw (h.0) (put_all-other p es (put id v ps) h.1)

abbrev Others : ℕ → List Entry → Type 0
Others id = All (λ (e : Entry). (id == e.0) ≡ false)

entries_of-Others :
    (j id : ℕ) (vs : List PropValue) → (j == id) ≡ false → Others j (entries_of id vs)
entries_of-Others j id [] h = tt
entries_of-Others j id (v ∷ vs) h = (h, entries_of-Others j id vs h)

Fresh-Others : (j : ℕ) (ps : List Prop) → Fresh j ps → Others j (entries ps)
unfolding type_at entries
Fresh-Others j [] h = tt
Fresh-Others j (p ∷ ps) h = elim (Bool-cases (p.id == j)) [
  | inl e ↦ absurd (ground (arith, e))
  | inr e ↦
      All-append _ (entries_of p.id (values p.value)) (entries ps)
        (entries_of-Others j p.id (values p.value) (ground arith))
        (Fresh-Others j ps (ground arith))
]

-- Put into the blank list one after another, the entries of a list give it back.
pub put_all-entries : (ps : List Prop) → Fits ps → put_all (entries ps) (blank ps) ≡ ps
unfolding entries blank Fits
put_all-entries [] h = unfold put_all in refl
put_all-entries (p ∷ ps) (fresh, values_fit, h) =
    put_all-append (entries_of p.id (values p.value)) (entries ps) _
    ∙ ap (put_all (entries ps)) (put_all-values p p.value (blank ps))
    ∙ put_all-other p (entries ps) (blank ps) (Fresh-Others p.id ps fresh)
    ∙ ap (◌∷◌ p) (put_all-entries ps h)

-- Entries that the decoder finds a property for.
abbrev pub Typed : List Prop → List Entry → Type 0
Typed ps = All (λ (e : Entry). (type_at e.0 ps ≡ some (type_of e.1)) × InRange e.1)

own-Typed :
    (p : Prop) (ps : List Prop) (vs : List PropValue)
    → All (FitsValue p.type) vs
    → Typed (p ∷ ps) (entries_of p.id vs)
unfolding type_at
own-Typed p ps [] h = tt
own-Typed p ps (v ∷ vs) ((e, r), h) =
    ((rw (eq→== p.id p.id refl) (ap some (sym e)), r), own-Typed p ps vs h)

later-Typed :
    (p : Prop) (ps : List Prop) (es : List Entry) → Others p.id es → Typed ps es → Typed (p ∷ ps) es
unfolding type_at
later-Typed p ps [] o h = tt
later-Typed p ps (e ∷ es) (n, o) ((t, r), h) = ((rw n t, r), later-Typed p ps es o h)

pub put-Typed :
    (id : ℕ) (v : PropValue) (ps : List Prop) (es : List Entry)
    → Typed ps es
    → Typed (put id v ps) es
put-Typed id v ps [] h = tt
put-Typed id v ps (e ∷ es) ((t, r), h) = ((type_at-put e.0 id v ps ∙ t, r), put-Typed id v ps es h)

pub entries-Typed : (ps : List Prop) → Fits ps → Typed (blank ps) (entries ps)
unfolding entries blank Fits
entries-Typed [] h = tt
entries-Typed (p ∷ ps) (fresh, values_fit, h) =
    All-append _ (entries_of p.id (values p.value)) (entries ps)
      (own-Typed (record p { value = no_value p.value }) (blank ps) (values p.value) values_fit)
      (later-Typed (record p { value = no_value p.value }) (blank ps) (entries ps)
        (Fresh-Others p.id ps fresh) (entries-Typed ps h))
