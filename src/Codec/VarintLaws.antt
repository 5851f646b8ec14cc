-- ===== src/Codec/VarintLaws.antt =====
-- Variable byte integers: the encoder against the parser.
use async_mqtt.Base.{
  append-nil, ◌^◌, ℕ, zero, suc, ◌+◌, ◌*◌, ◌/◌, ◌%◌, ◌<◌, ◌≤◌, ◌≡◌, sym, List, [], ◌∷◌, ◌++◌,
  length, length-append, ltb, if◌then◌else◌, arith, append_assoc, ap, ◌∙◌, Bool-cases, inl, inr,
}
use native.Mathlib.Numerals.{towards_suc}
use native.Mathlib.Nat.{div-add-mod}
use async_mqtt.Codec.Cursor.{ok, fail}
use async_mqtt.Codec.Varint.{
  to_variable_loop, to_variable_bytes, variable_length_loop, variable_length, varint_loop, varint_,
}

-- The bytes that stand for a value, lowest group first, in at most `k + 1` groups.
unfoldable pub groups : ℕ → ℕ → List ℕ
groups zero val = (val % 128) ∷ []
groups (suc k) val =
    let more = groups k (val / 128) in
    if ltb 127 val then ((val % 128 + 128) ∷ more) else ((val % 128) ∷ [])

to_variable_loop-groups :
    (k : ℕ) (s : List ℕ) (val : ℕ)
    → val < 128 ^ suc k
    → val < 0x8000_0000
    → to_variable_loop (suc k) s val ≡ s ++ groups k val
unfolding to_variable_loop groups
to_variable_loop-groups zero s val h l = ground arith
to_variable_loop-groups (suc k) s val h l = ground (
  arith,
  to_variable_loop-groups k (s ++ ((val % 128 + 128) ∷ [])) (val / 128),
  append_assoc s ((val % 128 + 128) ∷ []) (groups k (val / 128)),
)

-- On a value below 2 ^ 28 to_variable_bytes appends its groups of seven bits, the lowest first.
pub to_variable_bytes-groups :
    (s : List ℕ) (val : ℕ) → val < 0x1000_0000 → to_variable_bytes s val ≡ s ++ groups 3 val
unfolding to_variable_bytes
to_variable_bytes-groups s val h = ground (arith, to_variable_loop-groups 3 s val)

variable_length_loop-groups :
    (k rv val : ℕ)
    → val < 128 ^ suc k
    → val < 0x8000_0000
    → variable_length_loop (suc k) rv val + 1 ≡ rv + length (groups k val)
unfolding variable_length_loop groups
variable_length_loop-groups zero rv val h l = ground arith
variable_length_loop-groups (suc k) rv val h l =
    ground (arith, variable_length_loop-groups k (rv + 1) (val / 128))

pub variable_length-groups :
    (val : ℕ) → val < 0x1000_0000 → variable_length val ≡ length (groups 3 val)
unfolding variable_length
variable_length-groups val h = ground (arith, variable_length_loop-groups 3 1 val)

closing_byte :
    (g last result bit_shift : ℕ) (rest : List ℕ)
    → g < 128
    → bit_shift < 28
    → last ≤ length rest
    → varint_loop last result bit_shift (g ∷ rest) ≡ ok (result + g * 2 ^ bit_shift) rest
unfolding varint_loop
closing_byte g last result bit_shift rest h b l = ground arith

leading_byte :
    (g last result bit_shift : ℕ) (rest : List ℕ)
    → g < 128
    → bit_shift < 28
    → last ≤ length rest
    → varint_loop last result bit_shift ((g + 128) ∷ rest)
      ≡ varint_loop last (result + g * 2 ^ bit_shift) (bit_shift + 7) rest
unfolding varint_loop
leading_byte g last result bit_shift rest h b l =
    let e : (g + 128) % 128 ≡ g = omega arith in ground arith

weight-step : (bit_shift : ℕ) → 2 ^ (bit_shift + 7) ≡ 2 ^ bit_shift * 128
weight-step bit_shift = simp towards_suc (omega arith)

regroup : (val weight : ℕ) → val % 128 * weight + val / 128 * (weight * 128) ≡ val * weight
regroup val weight = omega (arith, ap (λ (v : ℕ). v * weight) (div-add-mod val 128))

-- The value of the lowest group and of all the others, at their bit positions.
value-groups :
    (val bit_shift : ℕ)
    → val * 2 ^ bit_shift ≡ val % 128 * 2 ^ bit_shift + val / 128 * 2 ^ (bit_shift + 7)
value-groups val bit_shift = sym (
    ap (λ (e : ℕ). val % 128 * 2 ^ bit_shift + val / 128 * e) (weight-step bit_shift)
    ∙ regroup val (2 ^ bit_shift))

varint_loop-groups :
    (k val last result bit_shift : ℕ) (rest : List ℕ)
    → val < 128 ^ suc k
    → bit_shift + 7 * k < 28
    → last ≤ length rest
    → varint_loop last result bit_shift (groups k val ++ rest)
      ≡ ok (result + val * 2 ^ bit_shift) rest
unfolding groups
varint_loop-groups zero val last result bit_shift rest h b l =
    ground (arith, closing_byte (val % 128) last result bit_shift rest)
varint_loop-groups (suc k) val last result bit_shift rest h b l = ground (
  arith,
  closing_byte (val % 128) last result bit_shift rest,
  leading_byte (val % 128) last result bit_shift (groups k (val / 128) ++ rest),
  length-append (groups k (val / 128)) rest,
  value-groups val bit_shift,
  varint_loop-groups k (val / 128) last (result + val % 128 * 2 ^ bit_shift) (bit_shift + 7) rest,
)

-- The parser reads back a value below 2 ^ 28 from what to_variable_bytes writes for it, whatever
-- follows, and stops there, provided that `last` does not lie before that point.
pub varint-to_variable_bytes :
    (val last : ℕ) (rest : List ℕ)
    → val < 0x1000_0000
    → last ≤ length rest
    → varint_ last (to_variable_bytes [] val ++ rest) ≡ ok val rest
unfolding varint_
varint-to_variable_bytes val last rest h l =
    rw (to_variable_bytes-groups [] val h) (ground (arith, varint_loop-groups 3 val last 0 0 rest))

variable_bytes_small :
    (s : List ℕ) (val : ℕ)
    → val < 0x1000_0000
    → length (to_variable_bytes s val) ≡ length s + variable_length val
variable_bytes_small s val h =
    rw (to_variable_bytes-groups s val h, variable_length-groups val h)
      (length-append s (groups 3 val))

variable_bytes_large :
    (s : List ℕ) (val : ℕ)
    → 0x1000_0000 ≤ val
    → length (to_variable_bytes s val) ≡ length s + variable_length val
unfolding to_variable_bytes variable_length to_variable_loop variable_length_loop
variable_bytes_large s val h = ground (arith, length-append s ((val % 128) ∷ []))

-- On every int32_t, also on those for which nothing is written and on negative ones,
-- variable_length is the number of bytes that to_variable_bytes appends.
pub variable_length-bytes :
    (s : List ℕ) (val : ℕ) → length (to_variable_bytes s val) ≡ length s + variable_length val
variable_length-bytes s val = elim (Bool-cases (ltb val 0x1000_0000)) [
  | inl e ↦ variable_bytes_small s val (ground arith)
  | inr e ↦ variable_bytes_large s val (ground arith)
]

varint_loop_stop : (last result : ℕ) (s : List ℕ) → varint_loop last result 28 s ≡ fail
unfolding varint_loop
varint_loop_stop last result [] = ground arith
varint_loop_stop last result (b ∷ s) = ground arith

-- The parser looks at four bytes at most: on four bytes with the top bit set it fails, whatever
-- follows them.
pub varint_too_long :
    (b0 b1 b2 b3 last : ℕ) (rest : List ℕ)
    → 128 ≤ b0
    → 128 ≤ b1
    → 128 ≤ b2
    → 128 ≤ b3
    → varint_ last (b0 ∷ b1 ∷ b2 ∷ b3 ∷ rest) ≡ fail
unfolding varint_ varint_loop
varint_too_long b0 b1 b2 b3 last rest h0 h1 h2 h3 = ground (
  arith,
  varint_loop_stop last (b0 % 128 * 1 + b1 % 128 * 128 + b2 % 128 * 16384 + b3 % 128 * 2097152)
      rest,
)

-- to_variable_bytes only appends.
pub to_variable_bytes-append :
    (s : List ℕ) (val : ℕ) → to_variable_bytes s val ≡ s ++ to_variable_bytes [] val
to_variable_bytes-append s val = elim (Bool-cases (ltb val 0x1000_0000)) [
  | inl e ↦
      to_variable_bytes-groups s val (ground arith)
      ∙ ap (◌++◌ s) (sym (to_variable_bytes-groups [] val (ground arith)))
  | inr e ↦ unfold to_variable_bytes to_variable_loop in ground (arith, append-nil s)
]

variable_length_loop-ge : (fuel rv val : ℕ) → rv ≤ variable_length_loop fuel rv val
unfolding variable_length_loop
variable_length_loop-ge zero rv val = omega arith
variable_length_loop-ge (suc fuel) rv val =
    ground (arith, variable_length_loop-ge fuel (rv + 1) (val / 128))

pub variable_length_pos : (val : ℕ) → val < 2 ^ 28 → 0 < variable_length val
unfolding variable_length
variable_length_pos val h = ground (arith, variable_length_loop-ge 4 1 val)
