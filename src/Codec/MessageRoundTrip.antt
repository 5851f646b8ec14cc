-- ===== src/Codec/MessageRoundTrip.antt =====
-- The message decoders on what the message encoders write.
use async_mqtt.Base.{
  ℕ, ◌+◌, ◌-◌, ◌*◌, ◌/◌, ◌%◌, ◌^◌, ◌<◌, ◌≤◌, ◌≡◌, refl, List, [], ◌∷◌, ◌++◌, length, length-append,
  ◌==◌, ltb, not, if◌then◌else◌, arith, ap, ◌∙◌, Bool, false, append_assoc, take-append,
  drop-append,
}
use async_mqtt.Codec.Library.{Boost}
use async_mqtt.Codec.Cursor.{ok, Parser, ◌>>=◌}
use async_mqtt.Codec.Varint.{to_variable_bytes}
use async_mqtt.Codec.VarintLaws.{varint-to_variable_bytes}
use async_mqtt.Codec.Encoder.{Encoder, optional, ◌&◌}
use async_mqtt.Codec.Encoder
use async_mqtt.Codec.Property.{Prop, publish_props}
use async_mqtt.Codec.PropEncoder.{props_val, props_size}
use async_mqtt.Codec.Frame.{
  IsSound, optional-IsSound, int16-IsSound, verbatim-IsSound, props_val-IsSound,
}
use async_mqtt.Codec.Decoder.{limited, scope_limit_, verbatim_, if_}
use async_mqtt.Codec.Entries.{Fits, blank}
use async_mqtt.Codec.ValueRoundTrip.{utf8-reads, word-reads}
use async_mqtt.Codec.PropRoundTrip.{props-read}
use async_mqtt.Codec.Messages.{
  Qos, at_most_once, at_least_once, exactly_once, qos_value, used_packet_id, encode, publish_body,
  encode_publish,
}
use async_mqtt.Codec.Packets.{framed, encode_publish-framed, publish-IsSound}
use async_mqtt.Codec.MessageDecoders.{in_scope, decode_fixed_header, decode_publish, publish_fields}

-- The range of a packet ends where the packet does.
pub in_scope-exact :
    {A : Type 0} (p : Parser A) (body rest : List ℕ)
    → in_scope (length body) p (body ++ rest) ≡ p (length rest) (body ++ rest)
unfolding limited scope_limit_
in_scope-exact p body rest =
    let inside : ltb (length (body ++ rest)) (length body) ≡ false =
      ground (arith, length-append body rest) in
    let left : length (body ++ rest) - length body ≡ length rest =
      omega (arith, length-append body rest) in
    let within : ltb (length (body ++ rest)) (length rest + length body) ≡ false =
      ground (arith, length-append body rest) in
    rw (inside, left, within) refl

verbatim-reads : (u rest : List ℕ) → verbatim_ (length rest) (u ++ rest) ≡ ok u rest
unfolding verbatim_
verbatim-reads u rest =
    let left : length (u ++ rest) - length rest ≡ length u = omega (arith, length-append u rest) in
    rw (left, take-append u rest, drop-append u rest) refl

-- Two encoders in a row, before what follows.
pub split :
    (a b : Encoder) (rest : List ℕ)
    → IsSound b
    → encode (a & b) ++ rest ≡ encode a ++ (encode b ++ rest)
split a b rest s =
    ap (λ (t : List ℕ). t ++ rest) (s.appends (encode a)) ∙ append_assoc (encode a) (encode b) rest

module _ (lib : Boost) where
  pub fixed_header-reads :
      (control last : ℕ) (body rest : List ℕ)
      → length body < 2 ^ 28
      → last ≤ length rest
      → decode_fixed_header lib last (framed control body ++ rest)
        ≡ ok (control, length body) (body ++ rest)
  unfolding decode_fixed_header
  fixed_header-reads control last body rest h l =
      let longer : last ≤ length (body ++ rest) = omega (arith, l, length-append body rest) in
      let whole = append_assoc (to_variable_bytes [] (length body)) body rest in
      let far : last ≤ length (to_variable_bytes [] (length body) ++ (body ++ rest)) =
        omega (arith, longer, length-append (to_variable_bytes [] (length body)) (body ++ rest)) in
      rw
        (
          whole,
          lib.byte_reads last control _ far,
          varint-to_variable_bytes (length body) last (body ++ rest) h longer,
        )
        refl

  optional_word-reads :
      (q : Qos) (pid last : ℕ) (rest : List ℕ)
      → pid < 2 ^ 16
      → last ≤ length rest
      → if_
          (not (qos_value q == 0))
          lib.big_word
          last
          (encode (optional (Encoder.int16_ lib) (used_packet_id q pid)) ++ rest)
        ≡ ok (used_packet_id q pid) rest
  unfolding if_
  optional_word-reads at_most_once pid last rest h l = refl
  optional_word-reads at_least_once pid last rest h l = rw (word-reads lib pid last rest h l) refl
  optional_word-reads exactly_once pid last rest h l = rw (word-reads lib pid last rest h l) refl

  props-small :
      (ps : List Prop) (n : ℕ)
      → (props_val lib false ps).byte_size ≤ n
      → n < 2 ^ 28
      → props_size lib ps < 2 ^ 28
  unfolding props_val
  props-small ps n h k = omega arith

  verbatim_encode : (u : List ℕ) → encode (Encoder.verbatim_ lib u) ≡ u
  verbatim_encode [] = refl
  verbatim_encode (x ∷ u) = ground arith

  publish_parts :
      (packet_id : ℕ) (topic_name payload : List ℕ) (q : Qos) (props : List Prop) (rest : List ℕ)
      → encode (publish_body lib packet_id topic_name payload q props) ++ rest
        ≡ encode (Encoder.utf8_ lib topic_name)
          ++ (encode (optional (Encoder.int16_ lib) (used_packet_id q packet_id))
              ++ (encode (props_val lib false props) ++ (payload ++ rest)))
  publish_parts packet_id topic_name payload q props rest =
      let pid = optional (Encoder.int16_ lib) (used_packet_id q packet_id) in
      let pid_sound =
        optional-IsSound (Encoder.int16_ lib) (used_packet_id q packet_id) (int16-IsSound lib) in
      split (Encoder.utf8_ lib topic_name & pid & props_val lib false props)
        (Encoder.verbatim_ lib payload) rest (verbatim-IsSound lib payload)
      ∙ split (Encoder.utf8_ lib topic_name & pid) (props_val lib false props) _
          (props_val-IsSound lib false props)
      ∙ split (Encoder.utf8_ lib topic_name) pid _ pid_sound
      ∙ rw (verbatim_encode payload) refl

  publish_fields-read :
      (flags packet_id : ℕ) (topic_name payload : List ℕ) (q : Qos) (props : List Prop)
      (rest : List ℕ)
      → flags / 2 % 4 ≡ qos_value q
      → length topic_name < 2 ^ 16
      → packet_id < 2 ^ 16
      → Fits props
      → blank props ≡ publish_props
      → props_size lib props < 2 ^ 28
      → publish_fields lib flags (length rest) (
          encode (Encoder.utf8_ lib topic_name)
          ++ (encode (optional (Encoder.int16_ lib) (used_packet_id q packet_id))
              ++ (encode (props_val lib false props) ++ (payload ++ rest))))
        ≡ ok (topic_name, used_packet_id q packet_id, flags, props, payload) rest
  unfolding publish_fields
  publish_fields-read flags packet_id topic_name payload q props rest c t i f b z =
      rw
        (
          utf8-reads lib topic_name (length rest) _ t far,
          c,
          optional_word-reads q packet_id (length rest) _ i middle,
          ← b,
          props-read lib props (length rest) (payload ++ rest) f z near,
          verbatim-reads payload rest,
        )
        refl
    where
      near : length rest ≤ length (payload ++ rest)
      near = omega (arith, length-append payload rest)

      middle : length rest ≤ length (encode (props_val lib false props) ++ (payload ++ rest))
      middle =
          omega (arith, near, length-append (encode (props_val lib false props)) (payload ++ rest))

      far :
          length rest
          ≤ length (
              encode (optional (Encoder.int16_ lib) (used_packet_id q packet_id))
              ++ (encode (props_val lib false props) ++ (payload ++ rest)))
      far = omega (
        arith,
        middle,
        length-append (encode (optional (Encoder.int16_ lib) (used_packet_id q packet_id)))
            (encode (props_val lib false props) ++ (payload ++ rest)),
      )

  publish_body-reads :
      (control packet_id : ℕ) (topic_name payload : List ℕ) (q : Qos) (props : List Prop)
      (rest : List ℕ)
      → control % 16 / 2 % 4 ≡ qos_value q
      → length topic_name < 2 ^ 16
      → packet_id < 2 ^ 16
      → Fits props
      → blank props ≡ publish_props
      → props_size lib props < 2 ^ 28
      → decode_publish lib control
          (length (encode (publish_body lib packet_id topic_name payload q props)))
          (encode (publish_body lib packet_id topic_name payload q props) ++ rest)
        ≡ ok (topic_name, used_packet_id q packet_id, control % 16, props, payload) rest
  unfolding decode_publish
  publish_body-reads control packet_id topic_name payload q props rest c t i f b z =
      in_scope-exact (publish_fields lib (control % 16))
        (encode (publish_body lib packet_id topic_name payload q props)) rest
      ∙ ap (publish_fields lib (control % 16) (length rest))
          (publish_parts packet_id topic_name payload q props rest)
      ∙ publish_fields-read (control % 16) packet_id topic_name payload q props rest c t i f b z

  -- A PUBLISH packet that the encoder makes is read back, whatever follows it: the topic name, the
  -- packet identifier if the QoS is not 0, the flags in the low half of the first byte, the
  -- properties and the payload. The topic name is shorter than 2 ^ 16 bytes, the identifier below
  -- 2 ^ 16, the body shorter than 2 ^ 28 bytes, and the properties are those of PUBLISH with values
  -- that fit on the wire.
  pub decode-encode_publish :
      (packet_id : ℕ) (topic_name payload : List ℕ) (q : Qos) (retain dup : Bool)
      (props : List Prop) (rest : List ℕ)
      → length topic_name < 2 ^ 16
      → packet_id < 2 ^ 16
      → Fits props
      → blank props ≡ publish_props
      → (publish_body lib packet_id topic_name payload q props).byte_size < 2 ^ 28
      → (decode_fixed_header lib
            (length rest)
            (encode_publish lib packet_id topic_name payload q retain dup props ++ rest)
          >>= λ header t. decode_publish lib header.0 header.1 t)
        ≡ ok
            (
              topic_name,
              used_packet_id q packet_id,
              (if dup then 8 else 0) + 2 * qos_value q + (if retain then 1 else 0),
              props,
              payload,
            )
            rest
  decode-encode_publish packet_id topic_name payload q retain dup props rest t i f b z =
      rw
        (
          encode_publish-framed lib packet_id topic_name payload q retain dup props z,
          fixed_header-reads control (length rest) body rest short (omega arith),
          publish_body-reads control packet_id topic_name payload q props rest level t i f b small,
        )
        (ap (λ (n : ℕ). ok (topic_name, used_packet_id q packet_id, n, props, payload) rest) flags)
    where
      control : ℕ
      control = 0x30 + (if dup then 8 else 0) + 2 * qos_value q + (if retain then 1 else 0)

      body : List ℕ
      body = encode (publish_body lib packet_id topic_name payload q props)

      short : length body < 2 ^ 28
      short = omega (arith, (publish-IsSound lib packet_id topic_name payload q props).sized)

      small : props_size lib props < 2 ^ 28
      small =
          props-small props (publish_body lib packet_id topic_name payload q props).byte_size
            (omega arith) z

      flags : control % 16 ≡ (if dup then 8 else 0) + 2 * qos_value q + (if retain then 1 else 0)
      flags = ground arith

      level : control % 16 / 2 % 4 ≡ qos_value q
      level = ground arith
