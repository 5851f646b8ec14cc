-- ===== src/Codec/ReplyRoundTrip.antt =====
-- The decoders of PUBACK, PUBREC, PUBREL and PUBCOMP on what the encoders write.
use async_mqtt.Base.{
  ℕ, ◌+◌, ◌-◌, ◌%◌, ◌^◌, ◌<◌, ◌≤◌, ◌≡◌, refl, List, ◌∷◌, ◌++◌, length, length-append, ◌==◌, ltb,
  if◌then◌else◌, arith, ◌∙◌, true, false,
}
use async_mqtt.Codec.Library.{Boost}
use async_mqtt.Codec.Cursor.{Res, ok, ◌>>=◌}
use async_mqtt.Codec.Encoder.{Encoder, ◌&◌}
use async_mqtt.Codec.Encoder
use async_mqtt.Codec.Property.{Prop, puback_props}
use async_mqtt.Codec.PropEncoder.{props_val, props_size}
use async_mqtt.Codec.Frame.{length-store16, byte-IsSound, props_val-IsSound}
use async_mqtt.Codec.Decoder.{limited}
use async_mqtt.Codec.Entries.{Fits, blank}
use async_mqtt.Codec.ValueRoundTrip.{word-reads}
use async_mqtt.Codec.PropRoundTrip.{may_omit-read}
use async_mqtt.Codec.Messages.{
  encode, reply_body, encode_puback, encode_pubrec, encode_pubrel, encode_pubcomp,
}
use async_mqtt.Codec.Packets.{framed, encode_replies-framed, reply-IsSound}
use async_mqtt.Codec.MessageDecoders.{
  code_fields, code_and_props, decode_fixed_header, decode_packet_id, decode_puback, decode_pubrec,
  decode_pubrel, decode_pubcomp,
}
use async_mqtt.Codec.MessageRoundTrip.{in_scope-exact, split, fixed_header-reads}

module _ (lib : Boost) where
  -- A packet as the reading side takes it apart: the fixed header, the packet identifier, and the
  -- rest by the decoder of its kind.
  abbrev pub read_reply :
      (ℕ → List ℕ → Res (ℕ × List Prop)) → ℕ → List ℕ → Res (ℕ × ℕ × ℕ × List Prop)
  read_reply decode last s = decode_fixed_header lib last s >>= λ header t.
      decode_packet_id lib t >>= λ pid u.
      decode (header.1 - 2) u >>= λ message v. ok (header.0, pid, message.0, message.1) v

  packet_id-reads :
      (pid : ℕ) (rest : List ℕ)
      → pid < 2 ^ 16
      → decode_packet_id lib (lib.store16 (pid % 2 ^ 16) ++ rest) ≡ ok pid rest
  unfolding decode_packet_id limited
  packet_id-reads pid rest h =
      let whole = length-append (lib.store16 (pid % 2 ^ 16)) rest in
      let inside : ltb (length (lib.store16 (pid % 2 ^ 16) ++ rest)) 2 ≡ false =
        ground (arith, whole, length-store16 lib pid) in
      let left : length (lib.store16 (pid % 2 ^ 16) ++ rest) - 2 ≡ length rest =
        omega (arith, whole, length-store16 lib pid) in
      rw (inside, left, word-reads lib pid (length rest) rest h (omega arith)) refl

  code_fields-read :
      (code : ℕ) (props : List Prop) (rest : List ℕ)
      → Fits props
      → props_size lib props < 2 ^ 28
      → code_fields lib
          (blank props)
          (length rest)
          (code ∷ (encode (props_val lib true props) ++ rest))
        ≡ ok (code, props) rest
  unfolding code_fields
  code_fields-read code props rest f z =
      let longer : length rest ≤ length (encode (props_val lib true props) ++ rest) =
        omega (arith, length-append (encode (props_val lib true props)) rest) in
      rw (lib.byte_reads (length rest) code _ longer, may_omit-read lib props rest f z) refl

  reply_parts :
      (pid code : ℕ) (props : List Prop) (rest : List ℕ)
      → encode (reply_body lib pid code props) ++ rest
        ≡ lib.store16 (pid % 2 ^ 16) ++ ((code % 256) ∷ (encode (props_val lib true props) ++ rest))
  reply_parts pid code props rest =
      split (Encoder.int16_ lib pid & Encoder.byte_ code) (props_val lib true props) rest
        (props_val-IsSound lib true props)
      ∙ split (Encoder.int16_ lib pid) (Encoder.byte_ code) _ (byte-IsSound code)

  -- What the four decoders have in common.
  abbrev Decodes : List Prop → (ℕ → List ℕ → Res (ℕ × List Prop)) → Type 0
  Decodes attr decode =
      (n : ℕ) (s : List ℕ)
      → decode n s ≡ (if n == 0 then ok (0, attr) s else code_and_props lib attr n s)

  module _ (pid code : ℕ) (props : List Prop) (rest : List ℕ) (p : pid < 2 ^ 16) (c : code < 256)
      (f : Fits props) (z : (reply_body lib pid code props).byte_size < 2 ^ 28) where
    body : List ℕ
    body = encode (reply_body lib pid code props)

    length-body : length body ≡ 3 + (props_val lib true props).byte_size
    unfolding body
    length-body = omega (arith, (reply-IsSound lib pid code props).sized)

    props-small : props_size lib props < 2 ^ 28
    unfolding props_val
    props-small = ground (arith, z)

    short : length body < 2 ^ 28
    unfolding body
    short = omega (arith, z, (reply-IsSound lib pid code props).sized)

    parts :
        body ++ rest
        ≡ lib.store16 (pid % 2 ^ 16) ++ (code ∷ (encode (props_val lib true props) ++ rest))
    unfolding body
    parts =
        let e : code % 256 ≡ code = omega (arith, c) in reply_parts pid code props rest ∙ rw e refl

    decode-reads :
        (decode : ℕ → List ℕ → Res (ℕ × List Prop))
        → Decodes (blank props) decode
        → decode (length body - 2) (code ∷ (encode (props_val lib true props) ++ rest))
          ≡ ok (code, props) rest
    decode-reads decode d =
        let tail : length body - 2 ≡ length (code ∷ encode (props_val lib true props)) =
          omega (arith, length-body, (props_val-IsSound lib true props).sized) in
        let some_bytes : (length {A = ℕ} (code ∷ encode (props_val lib true props)) == 0) ≡ false =
          ground arith in
        rw
          (
            d (length body - 2) (code ∷ (encode (props_val lib true props) ++ rest)),
            tail,
            some_bytes,
          )
          (in_scope-exact (code_fields lib (blank props)) (code ∷ encode (props_val lib true props))
              rest
            ∙ code_fields-read code props rest f props-small)

    packet-reads :
        (control : ℕ) (decode : ℕ → List ℕ → Res (ℕ × List Prop))
        → Decodes (blank props) decode
        → read_reply decode (length rest) (framed control body ++ rest)
          ≡ ok (control, pid, code, props) rest
    packet-reads control decode d =
        rw
          (
            fixed_header-reads lib control (length rest) body rest short (omega arith),
            parts,
            packet_id-reads pid (code ∷ (encode (props_val lib true props) ++ rest)) p,
            decode-reads decode d,
          )
          refl

  -- PUBACK, PUBREC, PUBREL and PUBCOMP packets that the encoders make are read back, whatever
  -- follows them: the first byte, the packet identifier, the reason code and the properties. The
  -- identifier is below 2 ^ 16 and the reason code below 256, the body is shorter than 2 ^ 28 bytes,
  -- and the properties are those of the packets with values that fit on the wire.
  pub decode-encode_replies :
      (pid code : ℕ) (props : List Prop) (rest : List ℕ)
      → pid < 2 ^ 16
      → code < 256
      → Fits props
      → blank props ≡ puback_props
      → (reply_body lib pid code props).byte_size < 2 ^ 28
      → (read_reply (decode_puback lib) (length rest) (encode_puback lib pid code props ++ rest)
          ≡ ok (0x40, pid, code, props) rest)
        × (read_reply (decode_pubrec lib) (length rest) (encode_pubrec lib pid code props ++ rest)
            ≡ ok (0x50, pid, code, props) rest)
        × (read_reply (decode_pubrel lib) (length rest) (encode_pubrel lib pid code props ++ rest)
            ≡ ok (0x62, pid, code, props) rest)
        × (read_reply (decode_pubcomp lib) (length rest) (encode_pubcomp lib pid code props ++ rest)
            ≡ ok (0x70, pid, code, props) rest)
  decode-encode_replies pid code props rest p c f b z =
      let (ack, rec, rel, comp) = encode_replies-framed lib pid code props z in
      (
        rw ack (read 0x40 (decode_puback lib) λ n s. unfold decode_puback in rw b refl),
        rw rec (read 0x50 (decode_pubrec lib) λ n s. unfold decode_pubrec in rw b refl),
        rw rel (read 0x62 (decode_pubrel lib) λ n s. unfold decode_pubrel in rw b refl),
        rw comp (read 0x70 (decode_pubcomp lib) λ n s. unfold decode_pubcomp in rw b refl),
      )
    where
      read :
          (control : ℕ) (decode : ℕ → List ℕ → Res (ℕ × List Prop))
          → Decodes (blank props) decode
          → read_reply decode
              (length rest)
              (framed control (encode (reply_body lib pid code props)) ++ rest)
            ≡ ok (control, pid, code, props) rest
      read = unfold body in packet-reads pid code props rest p c f z
