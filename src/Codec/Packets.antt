-- ===== src/Codec/Packets.antt =====
-- The control packets as a control byte, a length and a body.
use async_mqtt.Base.{
  ◌^◌, append-nil, ℕ, ◌+◌, ◌*◌, ◌%◌, ◌<◌, ◌≡◌, refl, sym, List, [], ◌∷◌, ◌++◌, length,
  length-append, if◌then◌else◌, Option, arith, append_assoc, ap, ◌∙◌, Bool, true, false,
}
use async_mqtt.Codec.Library.{Boost}
use async_mqtt.Codec.Varint.{to_variable_bytes}
use async_mqtt.Codec.VarintLaws.{to_variable_bytes-append}
use async_mqtt.Codec.Encoder.{Encoder, Flag, flag_encoder, utf8_, ◌&◌}
use async_mqtt.Codec.Property.{Prop}
use async_mqtt.Codec.Messages.{
  Qos, Will, SubscribeTopic, encode, with_fixed_header, packet_type, publish_type, qos_value,
  used_packet_id, connect_flags, options_flags, connect_body, publish_body, reply_body, id_header,
  header_message, code_body, subscribe_payload_size, append_filters, encode_connect, encode_publish,
  encode_puback, encode_pubrec, encode_pubrel, encode_pubcomp, encode_subscribe, encode_disconnect,
  encode_auth,
}
use async_mqtt.Codec.Frame.{
  IsSound, flag-IsSound, byte-IsSound, &-IsSound, optional-IsSound, int16-IsSound, utf8-IsSound,
  verbatim-IsSound, props_val-IsSound,
}

-- A control byte, the number of the bytes of the body in the variable length format, the body.
abbrev pub framed : ℕ → List ℕ → List ℕ
framed control body = control ∷ (to_variable_bytes [] (length body) ++ body)

small : (n : ℕ) → n < 0x1000_0000 → n % 2 ^ 32 ≡ n
small n h = omega arith

fixed_header-framed :
    (type : Flag) (body : Encoder)
    → IsSound body
    → body.byte_size < 0x1000_0000
    → encode (with_fixed_header type body) ≡ framed type.val (encode body)
fixed_header-framed type body b h =
    b.appends (to_variable_bytes (type.val ∷ []) (body.byte_size % 2 ^ 32))
    ∙ rw
        (
          to_variable_bytes-append (type.val ∷ []) (body.byte_size % 2 ^ 32),
          small body.byte_size h,
          ← b.sized,
        )
        refl

header_message-framed :
    (type : Flag) (header : Encoder) (n : ℕ) (payload : List ℕ)
    → IsSound header
    → length payload ≡ n
    → header.byte_size + n < 0x1000_0000
    → encode (header_message type n header) ++ payload ≡ framed type.val (encode header ++ payload)
header_message-framed type header n payload b e h =
    ap (λ s. s ++ payload)
      (b.appends (to_variable_bytes (type.val ∷ []) ((header.byte_size + n) % 2 ^ 32)))
    ∙ rw (
      to_variable_bytes-append (type.val ∷ []) ((header.byte_size + n) % 2 ^ 32),
      small (header.byte_size + n) h,
      ← b.sized,
      ← e,
      length-append (header.encode []) payload,
      append_assoc,
    )

-- An appending loop over a list, given by the encoder of an item.
abbrev Appends {ℓ} : {A : Type ℓ} → (A → Encoder) → (List A → List ℕ → List ℕ) → Type ℓ
Appends {A} e loop =
    ((s : List ℕ) → loop [] s ≡ s)
    × ((a : A) (as' : List A) (s : List ℕ) → loop (a ∷ as') s ≡ loop as' ((e a).encode s))

loop-append {ℓ} :
    {A : Type ℓ} (e : A → Encoder) (loop : List A → List ℕ → List ℕ)
    → Appends e loop
    → ((a : A) → IsSound (e a))
    → (xs : List A) (s : List ℕ) → loop xs s ≡ s ++ loop xs []
loop-append e loop ap' sound [] s = ap'.0 s ∙ sym (append-nil s) ∙ ap (◌++◌ s) (sym (ap'.0 []))
loop-append e loop ap' sound (x ∷ xs) s =
    ap'.1 x xs s
    ∙ loop-append e loop ap' sound xs ((e x).encode s)
    ∙ rw ((sound x).appends s, append_assoc s ((e x).encode []) (loop xs []))
        (ap (◌++◌ s) (sym (ap'.1 x xs [] ∙ loop-append e loop ap' sound xs ((e x).encode []))))

module _ (lib : Boost) where
  connect-IsSound :
      (client_id : List ℕ) (user_name password : Option (List ℕ)) (keep_alive : ℕ)
      (clean_start : Bool) (props : List Prop) (w : Option Will)
      → IsSound (connect_body lib client_id user_name password keep_alive clean_start props w)
  connect-IsSound client_id user_name password keep_alive clean_start props w =
      &-IsSound _ _
        (&-IsSound _ _
          (&-IsSound _ _
            (&-IsSound _ _
              (&-IsSound _ _ (utf8-IsSound lib (b'M' ∷ b'Q' ∷ b'T' ∷ b'T' ∷ [])) (byte-IsSound 5))
              (flag-IsSound (connect_flags user_name password w clean_start)))
            (int16-IsSound lib keep_alive))
          (props_val-IsSound lib false props))
        (&-IsSound _ _
          (&-IsSound _ _
            (&-IsSound _ _
              (&-IsSound _ _
                (&-IsSound _ _ (utf8-IsSound lib client_id)
                  (optional-IsSound _ w (λ x. props_val-IsSound lib false x.props)))
                (optional-IsSound _ w (λ x. utf8-IsSound lib x.topic)))
              (optional-IsSound _ w (λ x. utf8-IsSound lib x.message)))
            (optional-IsSound _ user_name (utf8-IsSound lib)))
          (optional-IsSound _ password (utf8-IsSound lib)))

  pub publish-IsSound :
      (packet_id : ℕ) (topic_name payload : List ℕ) (qos : Qos) (props : List Prop)
      → IsSound (publish_body lib packet_id topic_name payload qos props)
  publish-IsSound packet_id topic_name payload qos props =
      &-IsSound _ _
        (&-IsSound _ _
          (&-IsSound _ _ (utf8-IsSound lib topic_name)
            (optional-IsSound _ (used_packet_id qos packet_id) (int16-IsSound lib)))
          (props_val-IsSound lib false props))
        (verbatim-IsSound lib payload)

  pub reply-IsSound :
      (packet_id reason_code : ℕ) (props : List Prop)
      → IsSound (reply_body lib packet_id reason_code props)
  reply-IsSound packet_id reason_code props =
      &-IsSound _ _ (&-IsSound _ _ (int16-IsSound lib packet_id) (byte-IsSound reason_code))
        (props_val-IsSound lib true props)

  id_header-IsSound : (packet_id : ℕ) (props : List Prop) → IsSound (id_header lib packet_id props)
  id_header-IsSound packet_id props =
      &-IsSound _ _ (int16-IsSound lib packet_id) (props_val-IsSound lib false props)

  code-IsSound : (reason_code : ℕ) (props : List Prop) → IsSound (code_body lib reason_code props)
  code-IsSound reason_code props =
      &-IsSound _ _ (byte-IsSound reason_code) (props_val-IsSound lib false props)

  -- A CONNECT packet whose body is shorter than 2 ^ 28 bytes is the byte 0x10, the length of the
  -- body, and the body.
  pub encode_connect-framed :
      (client_id : List ℕ) (user_name password : Option (List ℕ)) (keep_alive : ℕ)
      (clean_start : Bool) (props : List Prop) (w : Option Will)
      → (connect_body lib client_id user_name password keep_alive clean_start props w).byte_size
        < 0x1000_0000
      → encode_connect lib client_id user_name password keep_alive clean_start props w
        ≡ framed 0x10
            (encode (connect_body lib client_id user_name password keep_alive clean_start props w))
  unfolding encode_connect
  encode_connect-framed client_id user_name password keep_alive clean_start props w h =
      fixed_header-framed (packet_type 1 0) _
        (connect-IsSound client_id user_name password keep_alive clean_start props w) h

  publish_control :
      (dup : Bool) (qos : Qos) (retain : Bool)
      → (publish_type dup qos retain).val
        ≡ 0x30 + (if dup then 8 else 0) + 2 * qos_value qos + (if retain then 1 else 0)
  publish_control dup qos retain = ground arith

  -- A PUBLISH packet whose body is shorter than 2 ^ 28 bytes is a first byte with 3 in the high
  -- half and DUP, the QoS and RETAIN in the low half, the length of the body, and the body.
  pub encode_publish-framed :
      (packet_id : ℕ) (topic_name payload : List ℕ) (qos : Qos) (retain dup : Bool)
      (props : List Prop)
      → (publish_body lib packet_id topic_name payload qos props).byte_size < 0x1000_0000
      → encode_publish lib packet_id topic_name payload qos retain dup props
        ≡ framed
            (0x30 + (if dup then 8 else 0) + 2 * qos_value qos + (if retain then 1 else 0))
            (encode (publish_body lib packet_id topic_name payload qos props))
  unfolding encode_publish
  encode_publish-framed packet_id topic_name payload qos retain dup props h =
      fixed_header-framed (publish_type dup qos retain) _
        (publish-IsSound packet_id topic_name payload qos props) h
      ∙ ap (λ c. framed c (encode (publish_body lib packet_id topic_name payload qos props)))
          (publish_control dup qos retain)

  -- PUBACK, PUBREC, PUBREL and PUBCOMP packets whose body is shorter than 2 ^ 28 bytes are the byte
  -- 0x40, 0x50, 0x62 and 0x70, the length of the body, and the body.
  pub encode_replies-framed :
      (packet_id reason_code : ℕ) (props : List Prop)
      → (reply_body lib packet_id reason_code props).byte_size < 0x1000_0000
      → let body = encode (reply_body lib packet_id reason_code props) in
        (encode_puback lib packet_id reason_code props ≡ framed 0x40 body)
        × (encode_pubrec lib packet_id reason_code props ≡ framed 0x50 body)
        × (encode_pubrel lib packet_id reason_code props ≡ framed 0x62 body)
        × (encode_pubcomp lib packet_id reason_code props ≡ framed 0x70 body)
  unfolding encode_puback encode_pubrec encode_pubrel encode_pubcomp
  encode_replies-framed packet_id reason_code props h =
      let b = reply-IsSound packet_id reason_code props in
      (
        fixed_header-framed (packet_type 4 0) _ b h,
        fixed_header-framed (packet_type 5 0) _ b h,
        fixed_header-framed (packet_type 6 2) _ b h,
        fixed_header-framed (packet_type 7 0) _ b h,
      )

  -- DISCONNECT and AUTH packets whose body is shorter than 2 ^ 28 bytes are the byte 0xE0 and 0xF0,
  -- the length of the body, and the body.
  pub encode_codes-framed :
      (reason_code : ℕ) (props : List Prop)
      → (code_body lib reason_code props).byte_size < 0x1000_0000
      → let body = encode (code_body lib reason_code props) in
        (encode_disconnect lib reason_code props ≡ framed 0xE0 body)
        × (encode_auth lib reason_code props ≡ framed 0xF0 body)
  unfolding encode_disconnect encode_auth
  encode_codes-framed reason_code props h =
      let b = code-IsSound reason_code props in
      (fixed_header-framed (packet_type 14 0) _ b h, fixed_header-framed (packet_type 15 0) _ b h)

  filter_item : SubscribeTopic → Encoder
  filter_item t = utf8_ lib t.topic_filter & flag_encoder (options_flags t.sub_opts)

  filter-IsSound : (t : SubscribeTopic) → IsSound (filter_item t)
  unfolding filter_item
  filter-IsSound t =
      &-IsSound _ _ (utf8-IsSound lib t.topic_filter) (flag-IsSound (options_flags t.sub_opts))

  filters-append :
      (ts : List SubscribeTopic) (s : List ℕ)
      → append_filters lib ts s ≡ s ++ append_filters lib ts []
  unfolding append_filters filter_item
  filters-append ts s =
      loop-append filter_item (append_filters lib) (λ s. refl, λ t ts s. refl) filter-IsSound ts s

  length-filters :
      (ts : List SubscribeTopic) → length (append_filters lib ts []) ≡ subscribe_payload_size lib ts
  unfolding subscribe_payload_size
  length-filters [] = unfold append_filters in refl
  length-filters (t ∷ ts) =
      ap length (cons_filters t ts)
      ∙ omega (
        arith,
        length-append ((filter_item t).encode []) (append_filters lib ts []),
        length-filters ts,
        filter_size t,
      )
    where
      cons_filters :
          (t : SubscribeTopic) (ts : List SubscribeTopic)
          → append_filters lib (t ∷ ts) [] ≡ (filter_item t).encode [] ++ append_filters lib ts []
      cons_filters t ts =
          unfold append_filters filter_item in filters-append ts ((filter_item t).encode [])

      filter_size :
          (t : SubscribeTopic)
          → length ((filter_item t).encode []) ≡ (utf8_ lib t.topic_filter).byte_size + 1
      filter_size t = (filter-IsSound t).sized ∙ unfold filter_item in refl

  -- A SUBSCRIBE packet whose header and topic filters are together shorter than 2 ^ 28 bytes is the
  -- byte 0x82, the length of the two, the header, and the topic filters with their options.
  pub encode_subscribe-framed :
      (packet_id : ℕ) (topics : List SubscribeTopic) (props : List Prop)
      → (id_header lib packet_id props).byte_size + subscribe_payload_size lib topics < 0x1000_0000
      → encode_subscribe lib packet_id topics props
        ≡ framed 0x82 (encode (id_header lib packet_id props) ++ append_filters lib topics [])
  unfolding encode_subscribe
  encode_subscribe-framed packet_id topics props h =
      filters-append topics (
        encode (
          header_message (packet_type 8 2) (subscribe_payload_size lib topics)
            (id_header lib packet_id props)))
      ∙ header_message-framed (packet_type 8 2) _ _ _ (id_header-IsSound packet_id props)
          (length-filters topics) h
