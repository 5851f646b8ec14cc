-- ===== src/Assemble/Prefix.antt =====
-- What is made of the bytes received so far stays when more are received.
use async_mqtt.Base.{
  ◌==◌, ◌/◌, ◌/◌, ◌-◌, ℕ, zero, suc, ◌+◌, ◌*◌, ◌%◌, ◌^◌, ◌≤◌, ◌<◌, true, false, ltb, leb, ◌≡◌, refl,
  ap, inl, inr, Bool-cases, List, [], ◌∷◌, ◌++◌, length, length-append, take, drop, arith,
}
use async_mqtt.Codec.Cursor.{at_end, Res, ok, fail}
use async_mqtt.Codec.Varint.{varint_, varint_loop}
use async_mqtt.Assemble.{
  varint_, on_bytes, header_read, Assembled, read_more, malformed, packet, whole,
}

-- The outcomes of varint_ without and with the bytes of t, where it has read some bits.
data VarintGoesOn (bits : ℕ) (s t : List ℕ) : Res ℕ → Res ℕ → Type 0 where
  same_value :
      (v : ℕ) (rest : List ℕ)
      → length rest ≤ length s
      → VarintGoesOn bits s t (ok v rest) (ok v (rest ++ t))
  same_fail : VarintGoesOn bits s t fail fail
  unfinished : (r : Res ℕ) → 7 * length s + bits < 28 → VarintGoesOn bits s t fail r

not_end : (val : ℕ) (s : List ℕ) → at_end 0 (val ∷ s) ≡ false
not_end val s = ground arith

too_many :
    (result bits : ℕ) (t : List ℕ) → (ltb bits 28) ≡ false → varint_loop 0 result bits t ≡ fail
unfolding varint_loop
too_many result bits [] h = refl
too_many result bits (val ∷ t) h = rw (not_end val t, h) refl

if_open : (bits : ℕ) (t : List ℕ) (r : Res ℕ) → (ltb bits 28) ≡ true → VarintGoesOn bits [] t fail r
if_open bits t r h = unfinished r (ground arith)

longer :
    {bits : ℕ} {val : ℕ} {s t : List ℕ} {a b : Res ℕ}
    → VarintGoesOn (bits + 7) s t a b
    → VarintGoesOn bits (val ∷ s) t a b
longer (same_value v rest h) = same_value v rest (omega arith)
longer same_fail = same_fail
longer (unfinished r h) = unfinished r (omega arith)

varint_goes_on :
    (result bits : ℕ) (s t : List ℕ)
    → VarintGoesOn bits s t (varint_loop 0 result bits s) (varint_loop 0 result bits (s ++ t))
unfolding varint_loop
varint_goes_on result bits [] t = elim (Bool-cases (ltb bits 28)) [
  | inl h ↦ if_open bits t _ h
  | inr h ↦ rw (too_many result bits t h) same_fail
]
varint_goes_on result bits (val ∷ s) t = elim (Bool-cases (ltb bits 28)) [
  | inl h ↦ elim (Bool-cases (leb 128 val)) [
    | inl k ↦
        rw (not_end val s, not_end val (s ++ t), h, k)
          (longer (varint_goes_on (result + val % 128 * 2 ^ bits) (bits + 7) s t))
    | inr k ↦ rw (not_end val s, not_end val (s ++ t), h, k) (same_value _ s (omega arith))
  ]
  | inr h ↦ rw (not_end val s, not_end val (s ++ t), h) same_fail
]

-- The outcomes of the handler without and with the bytes of t.
pub data GoesOn (n : ℕ) (t : List ℕ) : Assembled → Assembled → Type 0 where
  open_more : (r : Assembled) → GoesOn n t read_more r
  same_malformed : GoesOn n t malformed malformed
  same_packet :
      (b : ℕ) (body rest : List ℕ)
      → length rest < n
      → GoesOn n t (packet b body rest) (packet b body (rest ++ t))

take-more : (n : ℕ) (s t : List ℕ) → n ≤ length s → take n (s ++ t) ≡ take n s
take-more zero s t h = refl
take-more (suc n) [] t h = ground arith
take-more (suc n) (x ∷ s) t h = ap (◌∷◌ x) (take-more n s t (omega arith))

drop-more : (n : ℕ) (s t : List ℕ) → n ≤ length s → drop n (s ++ t) ≡ drop n s ++ t
drop-more zero s t h = refl
drop-more (suc n) [] t h = ground arith
drop-more (suc n) (x ∷ s) t h = drop-more n s t (omega arith)

drop-short : (n : ℕ) (s : List ℕ) → length (drop n s) ≤ length s
drop-short zero s = omega arith
drop-short (suc n) [] = omega arith
drop-short (suc n) (x ∷ s) = omega (arith, drop-short n s)

enough : (v : ℕ) (s t : List ℕ) → ltb (length s) v ≡ false → ltb (length (s ++ t)) v ≡ false
enough v s t h = ground (arith, length-append s t)

whole-GoesOn :
    (recv_size b header v : ℕ) (s t : List ℕ) (n : ℕ)
    → length s < n
    → GoesOn n t (whole recv_size b header v s) (whole recv_size b header v (s ++ t))
whole-GoesOn recv_size b header v s t n l = elim (Bool-cases (ltb recv_size (v + header))) [
  | inl h ↦ rw h same_malformed
  | inr h ↦ elim (Bool-cases (ltb (length s) v)) [
    | inl k ↦ rw (h, k) (open_more _)
    | inr k ↦
        let fits : v ≤ length s = ground arith in
        rw (h, k, enough v s t k, take-more v s t fits, drop-more v s t fits)
          (same_packet b _ _ (omega (arith, drop-short v s)))
  ]
]

header_length :
    (b : ℕ) (s t rest : List ℕ)
    → length rest ≤ length s
    → length (b ∷ (s ++ t)) - length (rest ++ t) ≡ length (b ∷ s) - length rest
header_length b s t rest h = omega (arith, length-append s t, length-append rest t)

header-GoesOn :
    (recv_size b : ℕ) (s t : List ℕ) (r q : Res ℕ)
    → VarintGoesOn 0 s t r q
    → GoesOn
        (length (b ∷ s))
        t
        (header_read recv_size b (length (b ∷ s)) r)
        (header_read recv_size b (length (b ∷ (s ++ t))) q)
header-GoesOn recv_size b s t _ _ (same_value v rest h) =
    rw (header_length b s t rest h) (whole-GoesOn recv_size b _ v rest t _ (omega arith))
header-GoesOn recv_size b s t _ _ same_fail = elim (Bool-cases (ltb (length (b ∷ s)) 5)) [
  | inl h ↦ rw h (open_more _)
  | inr h ↦ rw (h, enough_bytes h) same_malformed
]
  where
    enough_bytes : ltb (length (b ∷ s)) 5 ≡ false → ltb (length (b ∷ (s ++ t))) 5 ≡ false
    enough_bytes h = ground (arith, length-append s t)
header-GoesOn recv_size b s t _ _ (unfinished r h) = rw (few h) (open_more _)
  where
    few : 7 * length s + 0 < 28 → ltb (length (b ∷ s)) 5 ≡ true
    few h = ground arith

pub on_bytes-GoesOn :
    (recv_size : ℕ) (s t : List ℕ)
    → GoesOn (length s) t (on_bytes recv_size s) (on_bytes recv_size (s ++ t))
unfolding on_bytes varint_
on_bytes-GoesOn recv_size [] t = open_more _
on_bytes-GoesOn recv_size (b ∷ s) t = elim (Bool-cases (b / 16 == 0)) [
  | inl h ↦ rw h same_malformed
  | inr h ↦ rw h (header-GoesOn recv_size b s t _ _ (varint_goes_on 0 0 s t))
]
