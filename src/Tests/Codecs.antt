-- ===== src/Tests/Codecs.antt =====
-- The encoders at concrete packets, over the functions of the module Library.
use async_mqtt.Base.{◌≡◌, refl, false, true, List, [], ◌∷◌, arith, some}
use async_mqtt.Codec.Varint.{
  to_variable_bytes, to_variable_loop, variable_length, variable_length_loop,
}
use async_mqtt.Codec.Property.{Prop, reason_string, single, text_value, user_property}
use async_mqtt.Codec.PropEncoder.{props_encode, props_size, props_val}
use async_mqtt.Codec.Messages.{
  at_least_once, Will, SubscribeTopic, encode, publish_body, encode_publish, new_subscription_only,
}
use async_mqtt.Codec.Packets.{framed, encode_publish-framed}
use async_mqtt.Tests.Library.{library}

abbrev reason : List Prop
reason =
    record reason_string { value = single (some (text_value (b'x' ∷ []))) } ∷ user_property ∷ []

encode_publish-framed_example :
    encode_publish library 5 (b't' ∷ []) (b'p' ∷ []) at_least_once true false []
    ≡ framed 0x33 (encode (publish_body library 5 (b't' ∷ []) (b'p' ∷ []) at_least_once []))
unfolding props_val props_size variable_length variable_length_loop
encode_publish-framed_example =
    encode_publish-framed library 5 (b't' ∷ []) (b'p' ∷ []) at_least_once true false []
      (omega arith)

publish_bytes :
    encode_publish library 5 (b't' ∷ []) (b'p' ∷ []) at_least_once true false []
    ≡ 0x33 ∷ 7 ∷ 0 ∷ 1 ∷ b't' ∷ 0 ∷ 5 ∷ 0 ∷ b'p' ∷ []
unfolding encode_publish props_val props_size variable_length variable_length_loop to_variable_bytes
    to_variable_loop props_encode
publish_bytes = refl

abbrev last_will : Will
last_will = record {
  props = [];
  topic = b'w' ∷ [];
  message = [];
  qos = at_least_once;
  retain = false;
}

abbrev topic : SubscribeTopic
topic = record {
  topic_filter = b'#' ∷ [];
  sub_opts = record {
    max_qos = at_least_once;
    no_local = true;
    retain_as_published = false;
    retain_handling = new_subscription_only;
  };
}
