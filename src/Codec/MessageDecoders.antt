-- ===== src/Codec/MessageDecoders.antt =====
-- include/boost/mqtt5/impl/codecs/message_decoders.hpp: one function for each control packet. A
-- message is the tuple of its parts. The bits of a byte are quotients and remainders.
use async_mqtt.Base.{
  ℕ, ◌/◌, ◌%◌, Bool, false, List, [], ◌∷◌, ◌==◌, not, ◌&&◌, if◌then◌else◌, Option, none, some,
}
use async_mqtt.Codec.Library.{Boost}
use async_mqtt.Codec.Cursor.{Res, ok, fail, Parser, ◌>>=◌}
use async_mqtt.Codec.Varint.{varint_}
use async_mqtt.Codec.Decoder.{limited, scope_limit_, verbatim_, if_, plus_, utf8_}
use async_mqtt.Codec.PropDecoder.{props_parser}
use async_mqtt.Codec.Property.{
  Prop, connect_props, connack_props, publish_props, puback_props, pubrec_props, pubrel_props,
  pubcomp_props, subscribe_props, suback_props, unsubscribe_props, unsuback_props, disconnect_props,
  auth_props, will_props,
}

-- `type_parse(it, it + remain_length, scope_limit_(remain_length)[p])`
abbrev pub in_scope : {A : Type 0} → ℕ → Parser A → List ℕ → Res A
in_scope remain_length p = limited remain_length (scope_limit_ remain_length p)

-- The texts and numbers of a will message as they come off the wire.
pub record WillMessage : Type 0 where
  pub props : List Prop
  pub topic : List ℕ
  pub message : List ℕ
  pub qos : ℕ
  pub retain : ℕ

pub record ConnectMessage : Type 0 where
  pub client_id : List ℕ
  pub user_name : Option (List ℕ)
  pub password : Option (List ℕ)
  pub keep_alive : ℕ
  pub clean_start : Bool
  pub props : List Prop
  pub will_message : Option WillMessage

abbrev pub will_of : ℕ → Option (List Prop) → Option (List ℕ) → Option (List ℕ) → Option WillMessage
will_of flags (some props) (some topic) (some message) = some (record {
  props = props;
  topic = topic;
  message = message;
  qos = flags / 8 % 4;
  retain = flags / 32 % 2;
})
will_of flags _ _ _ = none

module _ (lib : Boost) where
  unfoldable pub decode_fixed_header : ℕ → List ℕ → Res (ℕ × ℕ)
  decode_fixed_header last s =
      lib.byte_ last s >>= λ control t. varint_ last t >>= λ n u. ok (control, n) u

  unfoldable pub decode_packet_id : List ℕ → Res ℕ
  decode_packet_id s = limited 2 lib.big_word s

  abbrev connect_header : Parser (List ℕ × ℕ × ℕ × ℕ × List Prop)
  connect_header last s = utf8_ lib last s >>= λ name t. lib.byte_ last t >>= λ version u.
      lib.byte_ last u >>= λ flags v. lib.big_word last v >>= λ keep_alive w.
      props_parser lib connect_props last w >>= λ props x.
      ok (name, version, flags, keep_alive, props) x

  -- MQTT
  abbrev mqtt : List ℕ → Bool
  mqtt (a ∷ b ∷ c ∷ d ∷ []) = (a == b'M') && (b == b'Q') && (c == b'T') && (d == b'T')
  mqtt _ = false

  abbrev connect_payload : ℕ → ℕ → List Prop → Parser ConnectMessage
  connect_payload flags keep_alive props last s =
      let has_will = flags / 4 % 2 == 1 in
      utf8_ lib last s >>= λ client_id t.
      if_ has_will (props_parser lib will_props) last t >>= λ wprops u.
      if_ has_will (utf8_ lib) last u >>= λ topic v.
      if_ has_will (utf8_ lib) last v >>= λ message w.
      if_ (flags / 128 % 2 == 1) (utf8_ lib) last w >>= λ user_name x.
      if_ (flags / 64 % 2 == 1) (utf8_ lib) last x >>= λ password y.
      ok
        (record {
          client_id = client_id;
          user_name = user_name;
          password = password;
          keep_alive = keep_alive;
          clean_start = flags / 2 % 2 == 1;
          props = props;
          will_message = will_of flags wprops topic message;
        })
        y

  unfoldable pub decode_connect : ℕ → List ℕ → Res ConnectMessage
  decode_connect remain_length s =
      limited remain_length
        (λ last s. connect_header last s >>= λ header t.
          let (name, version, flags, keep_alive, props) = header in
          if mqtt name && (version == 5)
          then connect_payload flags keep_alive props last t
          else fail)
        s

  unfoldable pub decode_connack : ℕ → List ℕ → Res (ℕ × ℕ × List Prop)
  decode_connack remain_length = in_scope remain_length λ last s.
      lib.byte_ last s >>= λ session_present t. lib.byte_ last t >>= λ reason_code u.
      props_parser lib connack_props last u >>= λ props v.
      ok (session_present, reason_code, props) v

  unfoldable pub publish_fields : ℕ → Parser (List ℕ × Option ℕ × ℕ × List Prop × List ℕ)
  publish_fields flags last s = utf8_ lib last s >>= λ topic t.
      if_ (not (flags / 2 % 4 == 0)) lib.big_word last t >>= λ packet_id u.
      props_parser lib publish_props last u >>= λ props v.
      verbatim_ last v >>= λ payload w. ok (topic, packet_id, flags, props, payload) w

  unfoldable pub decode_publish : ℕ → ℕ → List ℕ → Res (List ℕ × Option ℕ × ℕ × List Prop × List ℕ)
  decode_publish control_byte remain_length =
      in_scope remain_length (publish_fields (control_byte % 16))

  -- A reason code and properties.
  unfoldable pub code_fields : List Prop → Parser (ℕ × List Prop)
  code_fields attr last s = lib.byte_ last s >>= λ reason_code t.
      props_parser lib attr last t >>= λ props u. ok (reason_code, props) u

  abbrev pub code_and_props : List Prop → ℕ → List ℕ → Res (ℕ × List Prop)
  code_and_props attr remain_length = in_scope remain_length (code_fields attr)

  unfoldable pub decode_puback : ℕ → List ℕ → Res (ℕ × List Prop)
  decode_puback remain_length s =
      if remain_length == 0
      then ok (0, puback_props) s
      else code_and_props puback_props remain_length s

  unfoldable pub decode_pubrec : ℕ → List ℕ → Res (ℕ × List Prop)
  decode_pubrec remain_length s =
      if remain_length == 0
      then ok (0, pubrec_props) s
      else code_and_props pubrec_props remain_length s

  unfoldable pub decode_pubrel : ℕ → List ℕ → Res (ℕ × List Prop)
  decode_pubrel remain_length s =
      if remain_length == 0
      then ok (0, pubrel_props) s
      else code_and_props pubrel_props remain_length s

  unfoldable pub decode_pubcomp : ℕ → List ℕ → Res (ℕ × List Prop)
  decode_pubcomp remain_length s =
      if remain_length == 0
      then ok (0, pubcomp_props) s
      else code_and_props pubcomp_props remain_length s

  unfoldable pub decode_subscribe : ℕ → List ℕ → Res (List Prop × List (List ℕ × ℕ))
  decode_subscribe remain_length = in_scope remain_length λ last s.
      props_parser lib subscribe_props last s >>= λ props t.
      plus_
        (λ last s. utf8_ lib last s >>= λ topic_filter t.
          lib.byte_ last t >>= λ options u. ok (topic_filter, options) u)
        last t
      >>= λ topics u. ok (props, topics) u

  unfoldable pub decode_suback : ℕ → List ℕ → Res (List Prop × List ℕ)
  decode_suback remain_length = in_scope remain_length λ last s.
      props_parser lib suback_props last s >>= λ props t.
      plus_ lib.byte_ last t >>= λ codes u. ok (props, codes) u

  unfoldable pub decode_unsubscribe : ℕ → List ℕ → Res (List Prop × List (List ℕ))
  decode_unsubscribe remain_length = in_scope remain_length λ last s.
      props_parser lib unsubscribe_props last s >>= λ props t.
      plus_ (utf8_ lib) last t >>= λ topics u. ok (props, topics) u

  unfoldable pub decode_unsuback : ℕ → List ℕ → Res (List Prop × List ℕ)
  decode_unsuback remain_length = in_scope remain_length λ last s.
      props_parser lib unsuback_props last s >>= λ props t.
      plus_ lib.byte_ last t >>= λ codes u. ok (props, codes) u

  unfoldable pub decode_disconnect : ℕ → List ℕ → Res (ℕ × List Prop)
  decode_disconnect remain_length s =
      if remain_length == 0
      then ok (0, disconnect_props) s
      else code_and_props disconnect_props remain_length s

  unfoldable pub decode_auth : ℕ → List ℕ → Res (ℕ × List Prop)
  decode_auth remain_length s =
      if remain_length == 0 then ok (0, auth_props) s else code_and_props auth_props remain_length s
