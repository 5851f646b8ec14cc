-- ===== src/ControlPacket/Publish.antt =====
-- What the class reads from, and changes in, the PUBLISH packets that the encoder makes.
use async_mqtt.Base.{
  ℕ, ◌*◌, ◌/◌, ◌%◌, ◌^◌, ◌≡◌, refl, List, [], ◌∷◌, ◌++◌, Bool, true, false, arith, ap, ◌∙◌,
}
use Prim.Native.Nat.{bit_or}
use async_mqtt.Codec.Library.{Boost}
use async_mqtt.Codec.Varint.{to_variable_bytes}
use async_mqtt.Codec.VarintLaws.{to_variable_bytes-append}
use async_mqtt.Codec.Encoder.{Encoder, Flag}
use async_mqtt.Codec.Property.{Prop}
use async_mqtt.Codec.Messages.{
  Qos, at_most_once, at_least_once, exactly_once, qos_value, encode, with_fixed_header,
  publish_type, publish_body, encode_publish,
}
use async_mqtt.Codec.Frame.{IsSound}
use async_mqtt.Codec.Packets.{publish-IsSound}
use async_mqtt.ControlPacket.{of_with_pid, control_code, qos, set_dup}

-- What stands behind the first byte.
abbrev after_first : Encoder → List ℕ
after_first body = to_variable_bytes [] (body.byte_size % 2 ^ 32) ++ encode body

first_and_rest :
    (type : Flag) (body : Encoder)
    → IsSound body
    → encode (with_fixed_header type body) ≡ type.val ∷ after_first body
first_and_rest type body b =
    b.appends (to_variable_bytes (type.val ∷ []) (body.byte_size % 2 ^ 32))
    ∙ rw (to_variable_bytes-append (type.val ∷ []) (body.byte_size % 2 ^ 32)) refl

module _ (lib : Boost) where
  publish_packet :
      (packet_id : ℕ) (topic_name payload : List ℕ) (q : Qos) (retain dup : Bool)
      (props : List Prop)
      → encode_publish lib packet_id topic_name payload q retain dup props
        ≡ (publish_type dup q retain).val
          ∷ after_first (publish_body lib packet_id topic_name payload q props)
  unfolding encode_publish
  publish_packet packet_id topic_name payload q retain dup props =
      first_and_rest (publish_type dup q retain) _
        (publish-IsSound lib packet_id topic_name payload q props)

  -- The control packet of a PUBLISH message has the control code 0x30 and the QoS that it was made
  -- with, and set_dup turns the one made without DUP into the one made with DUP.
  pub publish_of :
      (packet_id : ℕ) (topic_name payload : List ℕ) (q : Qos) (retain dup : Bool)
      (props : List Prop)
      → let made = λ (d : Bool).
        of_with_pid (λ pid. encode_publish lib pid topic_name payload q retain d props) packet_id in
        (control_code (made dup) ≡ 0x30)
        × (qos (made dup) ≡ qos_value q)
        × (set_dup (made false) ≡ made true)
  unfolding of_with_pid control_code qos set_dup
  publish_of packet_id topic_name payload q retain dup props =
      rw
        (
          publish_packet packet_id topic_name payload q retain dup props,
          publish_packet packet_id topic_name payload q retain false props,
          publish_packet packet_id topic_name payload q retain true props,
        )
        (
          codes q retain dup,
          read q retain dup,
          ap
              (λ (b : ℕ). record {
                packet_id = packet_id;
                packet = b ∷ after_first (publish_body lib packet_id topic_name payload q props);
              })
              (dups q retain),
        )
    where
      codes : (q : Qos) (retain dup : Bool) → (publish_type dup q retain).val / 16 * 16 ≡ 0x30
      codes q retain dup = ground arith

      read : (q : Qos) (retain dup : Bool) → (publish_type dup q retain).val / 2 % 4 ≡ qos_value q
      read q retain dup = ground arith

      dups :
          (q : Qos) (retain : Bool)
          → bit_or (publish_type false q retain).val 8 ≡ (publish_type true q retain).val
      dups at_most_once true = refl
      dups at_most_once false = refl
      dups at_least_once true = refl
      dups at_least_once false = refl
      dups exactly_once true = refl
      dups exactly_once false = refl

  -- A second set_dup changes nothing.
  pub dup_again :
      (packet_id : ℕ) (topic_name payload : List ℕ) (q : Qos) (retain : Bool) (props : List Prop)
      → let made =
          of_with_pid
            (λ pid. encode_publish lib pid topic_name payload q retain true props)
            packet_id in
        set_dup made ≡ made
  unfolding of_with_pid set_dup
  dup_again packet_id topic_name payload q retain props =
      rw (publish_packet packet_id topic_name payload q retain true props) (
        ap
          (λ (b : ℕ). record {
            packet_id = packet_id;
            packet = b ∷ after_first (publish_body lib packet_id topic_name payload q props);
          })
          (stays q retain))
    where
      stays :
          (q : Qos) (retain : Bool)
          → bit_or (publish_type true q retain).val 8 ≡ (publish_type true q retain).val
      stays at_most_once true = refl
      stays at_most_once false = refl
      stays at_least_once true = refl
      stays at_least_once false = refl
      stays exactly_once true = refl
      stays exactly_once false = refl
