-- ===== src/Codec/PropRoundTrip.antt =====
-- The decoder of properties on what the encoder of properties writes.
use async_mqtt.Base.{
  ℕ, zero, suc, ◌-◌, ◌%◌, ◌^◌, ◌<◌, ◌≤◌, ◌≡◌, refl, sym, List, [], ◌∷◌, ◌++◌, length, length-append,
  ◌==◌, ltb, none, some, arith, ap, ◌∙◌, Bool-cases, eq→==, ==→eq, inl, inr, true, false,
  append_assoc, append-nil,
}
use async_mqtt.Codec.Library.{Boost}
use async_mqtt.Codec.Cursor.{ok}
use async_mqtt.Codec.Varint.{to_variable_bytes}
use async_mqtt.Codec.VarintLaws.{
  varint-to_variable_bytes, variable_length_pos, variable_length-bytes,
}
use async_mqtt.Codec.Property.{PropValue, Stored, single, many, Prop}
use async_mqtt.Codec.PropEncoder.{
  encoder_for_prop_value, props_encode, props_val, prop_val, vector_encode, props_size,
}
use async_mqtt.Codec.Frame.{prop_value-IsSound, props_block-IsSound}
use async_mqtt.Codec.PropDecoder.{apply_on, props_loop, props_parser}
use async_mqtt.Codec.Entries.{
  Entry, type_of, InRange, values, entries_of, entries, put, put_all, type_at, blank, Fits, Typed,
  put_all-entries, put-Typed, entries-Typed,
}
use async_mqtt.Codec.ValueRoundTrip.{value_bytes, parse_value-reads, length-value_bytes}

module _ (lib : Boost) where
  entry_bytes : List Entry → List ℕ
  entry_bytes [] = []
  entry_bytes ((id, v) ∷ es) = id ∷ (value_bytes lib v ++ entry_bytes es)

  entry_bytes-append :
      (es fs : List Entry) → entry_bytes (es ++ fs) ≡ entry_bytes es ++ entry_bytes fs
  unfolding entry_bytes
  entry_bytes-append [] fs = refl
  entry_bytes-append ((id, v) ∷ es) fs =
      rw (entry_bytes-append es fs) (ap (◌∷◌ id) (sym (append_assoc (value_bytes lib v) _ _)))

  apply_on-put :
      (id last : ℕ) (v : PropValue) (rest : List ℕ) (ps : List Prop)
      → type_at id ps ≡ some (type_of v)
      → InRange v
      → last ≤ length rest
      → apply_on lib id last (value_bytes lib v ++ rest) ps ≡ ok (put id v ps) rest
  unfolding apply_on type_at put
  apply_on-put id last v rest [] t r l = cc
  apply_on-put id last v rest (p ∷ ps) t r l = elim (Bool-cases (p.id == id)) [
    | inl e ↦
        let own : p.type ≡ type_of v = ground (arith, e) in
        rw (e, own, parse_value-reads lib v last rest r l) refl
    | inr e ↦ rw (e, apply_on-put id last v rest ps (ground (arith, e)) r l) refl
  ]

  props_loop-entry :
      (fuel last id : ℕ) (v : PropValue) (tail : List ℕ) (attr : List Prop)
      → type_at id attr ≡ some (type_of v)
      → InRange v
      → last ≤ length tail
      → props_loop lib (suc fuel) last attr (id ∷ (value_bytes lib v ++ tail))
        ≡ props_loop lib fuel last (put id v attr) tail
  unfolding props_loop
  props_loop-entry fuel last id v tail attr t r l =
      rw (begun, apply_on-put id last v tail attr t r l, moved) refl
    where
      begun : ltb last (length (id ∷ (value_bytes lib v ++ tail))) ≡ true
      begun = ground (arith, length-append (value_bytes lib v) tail)

      moved : (length tail == length (value_bytes lib v ++ tail)) ≡ false
      moved = ground (arith, length-value_bytes lib v r, length-append (value_bytes lib v) tail)

  props_loop-put_all :
      (fuel last : ℕ) (es : List Entry) (attr : List Prop) (rest : List ℕ)
      → Typed attr es
      → length (entry_bytes es) ≤ fuel
      → last ≡ length rest
      → props_loop lib fuel last attr (entry_bytes es ++ rest) ≡ ok (put_all es attr) rest
  unfolding props_loop put_all entry_bytes
  props_loop-put_all fuel last [] attr [] t f l = refl
  props_loop-put_all zero last [] attr (b ∷ rest) t f l = ground arith
  props_loop-put_all (suc fuel) last [] attr (b ∷ rest) t f l = ground arith
  props_loop-put_all zero last ((id, v) ∷ es) attr rest t f l = absurd (omega (arith, f))
  props_loop-put_all (suc fuel) last ((id, v) ∷ es) attr rest ((t, r), h) f l =
      let longer : last ≤ length (entry_bytes es ++ rest) =
        omega (arith, l, length-append (entry_bytes es) rest) in
      let fewer : length (entry_bytes es) ≤ fuel =
        omega (arith, f, length-append (value_bytes lib v) (entry_bytes es)) in
      ap (λ (s : List ℕ). props_loop lib (suc fuel) last attr (id ∷ s))
        (append_assoc (value_bytes lib v) (entry_bytes es) rest)
      ∙ props_loop-entry fuel last id v (entry_bytes es ++ rest) attr t r longer
      ∙ props_loop-put_all fuel last es (put id v attr) rest (put-Typed id v attr es h) fewer l

  vector_encode-entries :
      (id : ℕ) (vs : List PropValue) (s : List ℕ)
      → vector_encode lib id vs s ≡ s ++ entry_bytes (entries_of id vs)
  unfolding vector_encode entry_bytes value_bytes
  vector_encode-entries id [] s = sym (append-nil s)
  vector_encode-entries id (v ∷ vs) s =
      vector_encode-entries id vs ((encoder_for_prop_value lib v).encode (s ++ (id ∷ [])))
      ∙ rw
          (
            (prop_value-IsSound lib v).appends (s ++ (id ∷ [])),
            append_assoc s (id ∷ []) ((encoder_for_prop_value lib v).encode []),
            append_assoc s (id ∷ (encoder_for_prop_value lib v).encode [])
                (entry_bytes (entries_of id vs)),
          )
          refl

  prop_val-entries :
      (id : ℕ) (s : Stored) → (prop_val lib id s).encode [] ≡ entry_bytes (entries_of id (values s))
  unfolding prop_val entry_bytes value_bytes
  prop_val-entries id (single none) = refl
  prop_val-entries id (single (some v)) =
      (prop_value-IsSound lib v).appends (id ∷ [])
      ∙ ap (◌∷◌ id) (sym (append-nil ((encoder_for_prop_value lib v).encode [])))
  prop_val-entries id (many vs) = vector_encode-entries id vs []

  props_encode-entries : (ps : List Prop) → props_encode lib ps [] ≡ entry_bytes (entries ps)
  unfolding props_encode entries
  props_encode-entries [] = unfold entry_bytes in refl
  props_encode-entries (p ∷ ps) =
      (props_block-IsSound lib ps).appends ((prop_val lib p.id p.value).encode [])
      ∙ rw (prop_val-entries p.id p.value, props_encode-entries ps)
          (sym (entry_bytes-append (entries_of p.id (values p.value)) (entries ps)))

  -- The length, and the entries behind it.
  props_val-entries :
      (ps : List Prop)
      → (props_val lib false ps).encode []
        ≡ to_variable_bytes [] (props_size lib ps % 2 ^ 32) ++ entry_bytes (entries ps)
  unfolding props_val
  props_val-entries ps =
      (props_block-IsSound lib ps).appends (to_variable_bytes [] (props_size lib ps % 2 ^ 32))
      ∙ ap (◌++◌ (to_variable_bytes [] (props_size lib ps % 2 ^ 32))) (props_encode-entries ps)

  length-entries : (ps : List Prop) → length (entry_bytes (entries ps)) ≡ props_size lib ps
  length-entries ps =
      ap (λ (s : List ℕ). length s) (sym (props_encode-entries ps))
      ∙ (props_block-IsSound lib ps).sized

  -- Behind the length the loop reads the entries.
  entries-read :
      (ps : List Prop) (rest : List ℕ)
      → Fits ps
      → props_loop lib
          (length (entry_bytes (entries ps) ++ rest))
          (length rest)
          (blank ps)
          (entry_bytes (entries ps) ++ rest)
        ≡ ok ps rest
  entries-read ps rest h =
      props_loop-put_all _ (length rest) (entries ps) (blank ps) rest (entries-Typed ps h)
        (omega (arith, length-append (entry_bytes (entries ps)) rest)) refl
      ∙ ap (λ (qs : List Prop). ok qs rest) (put_all-entries ps h)

  props_parser-entries :
      (ps : List Prop) (last : ℕ) (rest : List ℕ)
      → Fits ps
      → props_size lib ps < 2 ^ 28
      → last ≤ length rest
      → props_parser lib
          (blank ps)
          last
          (to_variable_bytes [] (props_size lib ps % 2 ^ 32) ++ (entry_bytes (entries ps) ++ rest))
        ≡ ok ps rest
  unfolding props_parser
  props_parser-entries ps last rest h z l =
      rw
        (
          more,
          small,
          varint-to_variable_bytes (props_size lib ps) last (entry_bytes (entries ps) ++ rest) z
              longer,
          inside,
          left,
        )
        (entries-read ps rest h)
    where
      small : props_size lib ps % 2 ^ 32 ≡ props_size lib ps
      small = omega (arith, z)

      longer : last ≤ length (entry_bytes (entries ps) ++ rest)
      longer = omega (arith, l, length-append (entry_bytes (entries ps)) rest)

      more :
          (length (
              to_variable_bytes [] (props_size lib ps % 2 ^ 32)
              ++ (entry_bytes (entries ps) ++ rest))
            == last)
          ≡ false
      more = ground (
        arith,
        l,
        z,
        variable_length_pos (props_size lib ps % 2 ^ 32),
        variable_length-bytes [] (props_size lib ps % 2 ^ 32),
        length-append (to_variable_bytes [] (props_size lib ps % 2 ^ 32))
            (entry_bytes (entries ps) ++ rest),
        length-append (entry_bytes (entries ps)) rest,
      )

      inside : ltb (length (entry_bytes (entries ps) ++ rest)) (props_size lib ps) ≡ false
      inside = ground (arith, length-entries ps, length-append (entry_bytes (entries ps)) rest)

      left : length (entry_bytes (entries ps) ++ rest) - props_size lib ps ≡ length rest
      left = omega (arith, length-entries ps, length-append (entry_bytes (entries ps)) rest)

  -- The decoder of a property list, started on the list without values, reads back every list of
  -- distinct properties whose values have the declared types and fit on the wire, from what the
  -- encoder writes for it, whatever follows, and stops there.
  pub props-read :
      (ps : List Prop) (last : ℕ) (rest : List ℕ)
      → Fits ps
      → props_size lib ps < 2 ^ 28
      → last ≤ length rest
      → props_parser lib (blank ps) last ((props_val lib false ps).encode [] ++ rest) ≡ ok ps rest
  props-read ps last rest h z l =
      ap (λ (s : List ℕ). props_parser lib (blank ps) last (s ++ rest)) (props_val-entries ps)
      ∙ ap (props_parser lib (blank ps) last)
          (append_assoc (to_variable_bytes [] (props_size lib ps % 2 ^ 32)) _ rest)
      ∙ props_parser-entries ps last rest h z l

  empty-blank : (ps : List Prop) → Fits ps → props_size lib ps ≡ 0 → blank ps ≡ ps
  empty-blank ps h z = no_entries (entries ps) (put_all-entries ps h) (length-entries ps ∙ z)
    where
      no_entries :
          (es : List Entry)
          → put_all es (blank ps) ≡ ps
          → length (entry_bytes es) ≡ 0
          → blank ps ≡ ps
      no_entries [] e n = unfold put_all in e
      no_entries ((id, v) ∷ es) e n = absurd (unfold entry_bytes in omega (arith, n))

  -- The same at the end of the range, for the encoder that omits an empty list.
  pub may_omit-read :
      (ps : List Prop) (rest : List ℕ)
      → Fits ps
      → props_size lib ps < 2 ^ 28
      → props_parser lib (blank ps) (length rest) ((props_val lib true ps).encode [] ++ rest)
        ≡ ok ps rest
  may_omit-read ps rest h z = elim (Bool-cases (props_size lib ps == 0)) [
    | inl e ↦ omitted e
    | inr e ↦
        ap (λ (s : List ℕ). props_parser lib (blank ps) (length rest) (s ++ rest)) (kept e)
        ∙ props-read ps (length rest) rest h z (omega arith)
  ]
    where
      omitted :
          (props_size lib ps == 0) ≡ true
          → props_parser lib (blank ps) (length rest) ((props_val lib true ps).encode [] ++ rest)
            ≡ ok ps rest
      omitted e =
          unfold props_val in
          unfold props_parser in
          rw (e, eq→== (length rest) (length rest) refl)
            (ap (λ (qs : List Prop). ok qs rest) (empty-blank ps h (==→eq _ _ e)))

      kept :
          (props_size lib ps == 0) ≡ false
          → (props_val lib true ps).encode [] ≡ (props_val lib false ps).encode []
      kept e = unfold props_val in rw e refl
