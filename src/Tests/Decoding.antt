-- ===== src/Tests/Decoding.antt =====
-- The decoders at concrete packets, over the functions of the module Library.
use async_mqtt.Assemble.{dispatch_kind, valid_header}
use async_mqtt.Assemble.Loop.{waiting, on_read, on_reads, joined}
use async_mqtt.Assemble.Loop.Frames.{wire, handed, on_reads-wire}
use async_mqtt.Assemble.Loop.Chunks.{on_reads-joined}
use async_mqtt.Base.{ℕ, ◌≡◌, ◌++◌, refl, false, true, List, [], ◌∷◌, arith, some}
use async_mqtt.Codec.Cursor.{ok, ◌>>=◌}
use async_mqtt.Codec.Property.{
  Prop, reason_string, user_property, publish_props, single, many, text_value, pair_value,
}
use async_mqtt.Codec.PropEncoder.{
  props_val, props_size, prop_val, encoder_for_prop_value, vector_size,
}
use async_mqtt.Codec.Varint.{
  to_variable_loop, to_variable_bytes, variable_length, variable_length_loop,
}
use async_mqtt.Codec.Entries.{blank, Fits, type_at}
use async_mqtt.Codec.PropDecoder.{props_parser}
use async_mqtt.Codec.PropRoundTrip.{props-read}
use async_mqtt.Codec.MessageDecoders.{decode_puback, decode_publish, decode_fixed_header}
use async_mqtt.Codec.Messages.{at_least_once, encode_puback, encode_publish}
use async_mqtt.Codec.MessageRoundTrip.{decode-encode_publish}
use async_mqtt.Codec.ReplyRoundTrip.{decode-encode_replies, read_reply}
use async_mqtt.Tests.Library.{library}

abbrev answer : List Prop
answer =
    record reason_string { value = single (some (text_value (b'n' ∷ b'o' ∷ []))) }
    ∷ record user_property {
      value = many (pair_value (b'k' ∷ []) [] ∷ pair_value [] (b'v' ∷ []) ∷ []);
    }
    ∷ []

answer-Fits : Fits answer
unfolding Fits type_at
answer-Fits = (
  refl,
  ((refl, omega arith), tt),
  (refl, ((refl, (omega arith, omega arith)), ((refl, (omega arith, omega arith)), tt)), tt),
)

props-read_example :
    props_parser library (blank answer) 1 ((props_val library false answer).encode [] ++ (7 ∷ []))
    ≡ ok answer (7 ∷ [])
unfolding props_size prop_val encoder_for_prop_value vector_size
props-read_example = props-read library answer 1 (7 ∷ []) answer-Fits (omega arith) (omega arith)

decode-encode_replies_example :
    read_reply library (decode_puback library) 1 (encode_puback library 5 0x87 answer ++ (9 ∷ []))
    ≡ ok (0x40, 5, 0x87, answer) (9 ∷ [])
unfolding props_val props_size prop_val encoder_for_prop_value vector_size blank variable_length
    variable_length_loop
decode-encode_replies_example =
    (decode-encode_replies library 5 0x87 answer (9 ∷ []) (omega arith) (omega arith) answer-Fits
      refl (omega arith)).0

publish_props-Fits : Fits publish_props
unfolding Fits type_at
publish_props-Fits = (
  refl,
  tt,
  (refl, tt, (refl, tt, (refl, tt, (refl, tt, (refl, tt, (refl, tt, (refl, tt, tt))))))),
)

decode-encode_publish_example :
    (decode_fixed_header library 1 (
        encode_publish library 5 (b't' ∷ []) (b'p' ∷ []) at_least_once true false publish_props
        ++ (9 ∷ []))
      >>= λ header t. decode_publish library header.0 header.1 t)
    ≡ ok (b't' ∷ [], some 5, 3, publish_props, b'p' ∷ []) (9 ∷ [])
unfolding props_val props_size prop_val encoder_for_prop_value vector_size blank variable_length
    variable_length_loop
decode-encode_publish_example =
    decode-encode_publish library 5 (b't' ∷ []) (b'p' ∷ []) at_least_once true false publish_props
      (9 ∷ []) (omega arith) (omega arith) publish_props-Fits refl (omega arith)

-- A PUBACK, a PINGRESP and a PUBLISH packet, cut anywhere.
abbrev received_packets : List (ℕ × List ℕ)
received_packets = (0x40, 0 ∷ 5 ∷ []) ∷ (0xD0, []) ∷ (0x30, 7 ∷ []) ∷ []

abbrev reads_of_them : List (List ℕ)
reads_of_them = (0x40 ∷ 2 ∷ []) ∷ (0 ∷ 5 ∷ 0xD0 ∷ []) ∷ [] ∷ (0 ∷ 0x30 ∷ 1 ∷ []) ∷ (7 ∷ []) ∷ []

on_reads-wire_example :
    on_reads library 65536 (waiting []) reads_of_them ≡ (handed received_packets, waiting [])
unfolding wire to_variable_bytes to_variable_loop dispatch_kind valid_header
on_reads-wire_example =
    on_reads-wire library 65536 received_packets reads_of_them
      (
        (refl, omega arith, omega arith, λ e. ground arith, λ e. omega arith),
        (
          (refl, omega arith, omega arith, λ e. ground arith, λ e. ground arith),
          ((refl, omega arith, omega arith, λ e. ground arith, λ e. ground arith), tt),
        ),
      )
      refl

on_reads-joined_example :
    on_reads library 65536 (waiting []) reads_of_them
    ≡ on_read library 65536 (waiting []) (joined reads_of_them)
on_reads-joined_example = on_reads-joined library 65536 reads_of_them
