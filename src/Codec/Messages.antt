-- ===== src/Codec/Messages.antt =====
-- include/boost/mqtt5/impl/codecs/message_encoders.hpp: one function for each control packet.
--
-- Of the enumerations with two values, each named no or yes in one way or another, the one that is
-- 1 on the wire is `true`.
use async_mqtt.Base.{ℕ, ◌+◌, Bool, List, [], ◌∷◌, length, if◌then◌else◌, Option}
use async_mqtt.Codec.Library.{Boost}
use async_mqtt.Codec.Encoder.{
  Encoder, Flag, flag, flag_bool, flag_of, has_value, ◌or◌, flag_encoder, byte_, varlen_, int16_,
  utf8_, verbatim_, optional, ◌&◌,
}
use async_mqtt.Codec.Property.{Prop}
use async_mqtt.Codec.PropEncoder.{props_, props_may_omit_}

pub data Qos : Type 0 where
  at_most_once at_least_once exactly_once : Qos

abbrev pub qos_value : Qos → ℕ
qos_value at_most_once = 0
qos_value at_least_once = 1
qos_value exactly_once = 2

pub data RetainHandling : Type 0 where
  send new_subscription_only not_send : RetainHandling

abbrev pub retain_handling_value : RetainHandling → ℕ
retain_handling_value send = 0
retain_handling_value new_subscription_only = 1
retain_handling_value not_send = 2

abbrev pub bit : Bool → ℕ
bit b = if b then 1 else 0

-- `will`: its properties are its base class.
pub record Will : Type 0 where
  pub props : List Prop
  pub topic : List ℕ
  pub message : List ℕ
  pub qos : Qos
  pub retain : Bool

pub record SubscribeOptions : Type 0 where
  pub max_qos : Qos
  pub no_local : Bool
  pub retain_as_published : Bool
  pub retain_handling : RetainHandling

pub record SubscribeTopic : Type 0 where
  pub topic_filter : List ℕ
  pub sub_opts : SubscribeOptions

-- `encode`
abbrev pub encode : Encoder → List ℕ
encode e = e.encode []

-- The packet type and the remaining length before a body.
abbrev pub with_fixed_header : Flag → Encoder → Encoder
with_fixed_header packet_type body = (flag_encoder packet_type & varlen_ body.byte_size) & body

abbrev pub packet_type : ℕ → ℕ → Flag
packet_type code flags = flag 4 code or flag 4 flags

abbrev pub connect_flags : Option (List ℕ) → Option (List ℕ) → Option Will → Bool → Flag
connect_flags user_name password w clean_start =
    flag_bool 1 (has_value user_name)
    or flag_bool 1 (has_value password)
    or flag_of 1 w (λ x. bit x.retain)
    or flag_of 2 w (λ x. qos_value x.qos)
    or flag_bool 1 (has_value w)
    or flag_bool 1 clean_start
    or flag 1 0

abbrev pub publish_type : Bool → Qos → Bool → Flag
publish_type dup qos retain =
    flag 4 3 or flag_bool 1 dup or flag 2 (qos_value qos) or flag_bool 1 retain

-- `used_packet_id`
abbrev pub used_packet_id : Qos → ℕ → Option ℕ
used_packet_id at_most_once packet_id = Option.none
used_packet_id at_least_once packet_id = Option.some packet_id
used_packet_id exactly_once packet_id = Option.some packet_id

abbrev pub options_flags : SubscribeOptions → Flag
options_flags o =
    flag 2 (retain_handling_value o.retain_handling)
    or flag_bool 1 o.retain_as_published
    or flag_bool 1 o.no_local
    or flag 2 (qos_value o.max_qos)

-- The packet type, the remaining length of header and payload, and the header.
abbrev pub header_message : Flag → ℕ → Encoder → Encoder
header_message type payload_size header =
    flag_encoder type & varlen_ (header.byte_size + payload_size) & header

module _ (lib : Boost) where
  abbrev pub connect_body :
      List ℕ → Option (List ℕ) → Option (List ℕ) → ℕ → Bool → List Prop → Option Will → Encoder
  connect_body client_id user_name password keep_alive clean_start props w =
      (utf8_ lib (b'M' ∷ b'Q' ∷ b'T' ∷ b'T' ∷ [])
        & byte_ 5
        & flag_encoder (connect_flags user_name password w clean_start)
        & int16_ lib keep_alive
        & props_ lib props)
      & (utf8_ lib client_id
          & optional (λ x. props_ lib x.props) w
          & optional (λ x. utf8_ lib x.topic) w
          & optional (λ x. utf8_ lib x.message) w
          & optional (utf8_ lib) user_name
          & optional (utf8_ lib) password)

  unfoldable pub encode_connect :
      List ℕ → Option (List ℕ) → Option (List ℕ) → ℕ → Bool → List Prop → Option Will → List ℕ
  encode_connect client_id user_name password keep_alive clean_start props w = encode (
      with_fixed_header (packet_type 1 0)
        (connect_body client_id user_name password keep_alive clean_start props w))

  abbrev pub connack_body : Bool → ℕ → List Prop → Encoder
  connack_body session_present reason_code props =
      flag_encoder (flag_bool 1 session_present) & byte_ reason_code & props_ lib props

  unfoldable pub encode_connack : Bool → ℕ → List Prop → List ℕ
  encode_connack session_present reason_code props =
      encode (with_fixed_header (packet_type 2 0) (connack_body session_present reason_code props))

  abbrev pub publish_body : ℕ → List ℕ → List ℕ → Qos → List Prop → Encoder
  publish_body packet_id topic_name payload qos props =
      (utf8_ lib topic_name
        & optional (int16_ lib) (used_packet_id qos packet_id)
        & props_ lib props)
      & verbatim_ lib payload

  unfoldable pub encode_publish : ℕ → List ℕ → List ℕ → Qos → Bool → Bool → List Prop → List ℕ
  encode_publish packet_id topic_name payload qos retain dup props = encode (
      with_fixed_header (publish_type dup qos retain)
        (publish_body packet_id topic_name payload qos props))

  -- The body of PUBACK, PUBREC, PUBREL and PUBCOMP.
  abbrev pub reply_body : ℕ → ℕ → List Prop → Encoder
  reply_body packet_id reason_code props =
      int16_ lib packet_id & byte_ reason_code & props_may_omit_ lib props

  unfoldable pub encode_puback : ℕ → ℕ → List Prop → List ℕ
  encode_puback packet_id reason_code props =
      encode (with_fixed_header (packet_type 4 0) (reply_body packet_id reason_code props))

  unfoldable pub encode_pubrec : ℕ → ℕ → List Prop → List ℕ
  encode_pubrec packet_id reason_code props =
      encode (with_fixed_header (packet_type 5 0) (reply_body packet_id reason_code props))

  unfoldable pub encode_pubrel : ℕ → ℕ → List Prop → List ℕ
  encode_pubrel packet_id reason_code props =
      encode (with_fixed_header (packet_type 6 2) (reply_body packet_id reason_code props))

  unfoldable pub encode_pubcomp : ℕ → ℕ → List Prop → List ℕ
  encode_pubcomp packet_id reason_code props =
      encode (with_fixed_header (packet_type 7 0) (reply_body packet_id reason_code props))

  abbrev pub id_header : ℕ → List Prop → Encoder
  id_header packet_id props = int16_ lib packet_id & props_ lib props

  unfoldable pub subscribe_payload_size : List SubscribeTopic → ℕ
  subscribe_payload_size [] = 0
  subscribe_payload_size (t ∷ ts) =
      ((utf8_ lib t.topic_filter).byte_size + 1) + subscribe_payload_size ts

  -- The loop that appends the topic filters with their options.
  unfoldable pub append_filters : List SubscribeTopic → List ℕ → List ℕ
  append_filters [] s = s
  append_filters (t ∷ ts) s =
      append_filters ts
        ((utf8_ lib t.topic_filter & flag_encoder (options_flags t.sub_opts)).encode s)

  unfoldable pub encode_subscribe : ℕ → List SubscribeTopic → List Prop → List ℕ
  encode_subscribe packet_id topics props = append_filters topics (
      encode (
        header_message (packet_type 8 2) (subscribe_payload_size topics)
          (id_header packet_id props)))

  unfoldable pub append_codes : List ℕ → List ℕ → List ℕ
  append_codes [] s = s
  append_codes (c ∷ cs) s = append_codes cs ((byte_ c).encode s)

  unfoldable pub encode_suback : ℕ → List ℕ → List Prop → List ℕ
  encode_suback packet_id reason_codes props =
      append_codes reason_codes (
        encode (header_message (packet_type 9 0) (length reason_codes) (id_header packet_id props)))

  unfoldable pub unsubscribe_payload_size : List (List ℕ) → ℕ
  unsubscribe_payload_size [] = 0
  unsubscribe_payload_size (t ∷ ts) = (utf8_ lib t).byte_size + unsubscribe_payload_size ts

  unfoldable pub append_topics : List (List ℕ) → List ℕ → List ℕ
  append_topics [] s = s
  append_topics (t ∷ ts) s = append_topics ts ((utf8_ lib t).encode s)

  unfoldable pub encode_unsubscribe : ℕ → List (List ℕ) → List Prop → List ℕ
  encode_unsubscribe packet_id topics props = append_topics topics (
      encode (
        header_message (packet_type 10 2) (unsubscribe_payload_size topics)
          (id_header packet_id props)))

  unfoldable pub encode_unsuback : ℕ → List ℕ → List Prop → List ℕ
  encode_unsuback packet_id reason_codes props =
      append_codes reason_codes (
        encode
          (header_message (packet_type 11 0) (length reason_codes) (id_header packet_id props)))

  -- The body of DISCONNECT and AUTH.
  abbrev pub code_body : ℕ → List Prop → Encoder
  code_body reason_code props = byte_ reason_code & props_ lib props

  unfoldable pub encode_disconnect : ℕ → List Prop → List ℕ
  encode_disconnect reason_code props =
      encode (with_fixed_header (packet_type 14 0) (code_body reason_code props))

  unfoldable pub encode_auth : ℕ → List Prop → List ℕ
  encode_auth reason_code props =
      encode (with_fixed_header (packet_type 15 0) (code_body reason_code props))

unfoldable pub encode_pingreq : List ℕ
encode_pingreq = encode (flag_encoder (packet_type 12 0) & byte_ 0)

unfoldable pub encode_pingresp : List ℕ
encode_pingresp = encode (flag_encoder (packet_type 13 0) & byte_ 0)
