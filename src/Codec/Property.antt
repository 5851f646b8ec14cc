-- ===== src/Codec/Property.antt =====
-- include/boost/mqtt5/property_types.hpp, and the property lists of include/boost/mqtt5/types.hpp.
--
-- A class `properties<...>` is the list of its properties in the order of declaration, each with
-- its identifier and its value: an optional, or a vector.
use async_mqtt.Base.{ℕ, List, [], ◌∷◌, Option, none}

-- The value types of properties: uint8_t, uint16_t, int32_t, uint32_t, std::string, and a pair of
-- strings.
pub data PropType : Type 0 where
  u8 u16 varint u32 text text_pair : PropType

pub data PropValue : Type 0 where
  u8_value u16_value varint_value u32_value : ℕ → PropValue
  text_value : List ℕ → PropValue
  pair_value : List ℕ → List ℕ → PropValue

pub data Stored : Type 0 where
  single : Option PropValue → Stored
  many : List PropValue → Stored

pub record Prop : Type 0 where
  pub id : ℕ
  pub type : PropType
  pub value : Stored

abbrev optional_prop : ℕ → PropType → Prop
optional_prop id t = record { id = id; type = t; value = single none }

abbrev vector_prop : ℕ → PropType → Prop
vector_prop id t = record { id = id; type = t; value = many [] }

-- Each property_type with its property_traits, without a value.
abbrev pub payload_format_indicator : Prop
payload_format_indicator = optional_prop 0x01 u8

abbrev pub message_expiry_interval : Prop
message_expiry_interval = optional_prop 0x02 u32

abbrev pub content_type : Prop
content_type = optional_prop 0x03 text

abbrev pub response_topic : Prop
response_topic = optional_prop 0x08 text

abbrev pub correlation_data : Prop
correlation_data = optional_prop 0x09 text

abbrev pub subscription_identifier : Prop
subscription_identifier = vector_prop 0x0b varint

abbrev pub session_expiry_interval : Prop
session_expiry_interval = optional_prop 0x11 u32

abbrev pub assigned_client_identifier : Prop
assigned_client_identifier = optional_prop 0x12 text

abbrev pub server_keep_alive : Prop
server_keep_alive = optional_prop 0x13 u16

abbrev pub authentication_method : Prop
authentication_method = optional_prop 0x15 text

abbrev pub authentication_data : Prop
authentication_data = optional_prop 0x16 text

abbrev pub request_problem_information : Prop
request_problem_information = optional_prop 0x17 u8

abbrev pub will_delay_interval : Prop
will_delay_interval = optional_prop 0x18 u32

abbrev pub request_response_information : Prop
request_response_information = optional_prop 0x19 u8

abbrev pub response_information : Prop
response_information = optional_prop 0x1a text

abbrev pub server_reference : Prop
server_reference = optional_prop 0x1c text

abbrev pub reason_string : Prop
reason_string = optional_prop 0x1f text

abbrev pub receive_maximum : Prop
receive_maximum = optional_prop 0x21 u16

abbrev pub topic_alias_maximum : Prop
topic_alias_maximum = optional_prop 0x22 u16

abbrev pub topic_alias : Prop
topic_alias = optional_prop 0x23 u16

abbrev pub maximum_qos : Prop
maximum_qos = optional_prop 0x24 u8

abbrev pub retain_available : Prop
retain_available = optional_prop 0x25 u8

abbrev pub user_property : Prop
user_property = vector_prop 0x26 text_pair

abbrev pub maximum_packet_size : Prop
maximum_packet_size = optional_prop 0x27 u32

abbrev pub wildcard_subscription_available : Prop
wildcard_subscription_available = optional_prop 0x28 u8

abbrev pub subscription_identifier_available : Prop
subscription_identifier_available = optional_prop 0x29 u8

abbrev pub shared_subscription_available : Prop
shared_subscription_available = optional_prop 0x2a u8

-- The property lists of the control packets and of the will message.
abbrev pub connect_props : List Prop
connect_props =
    session_expiry_interval ∷ receive_maximum ∷ maximum_packet_size ∷ topic_alias_maximum
    ∷ request_response_information ∷ request_problem_information ∷ user_property
    ∷ authentication_method ∷ authentication_data ∷ []

abbrev pub connack_props : List Prop
connack_props =
    session_expiry_interval ∷ receive_maximum ∷ maximum_qos ∷ retain_available ∷ maximum_packet_size
    ∷ assigned_client_identifier ∷ topic_alias_maximum ∷ reason_string ∷ user_property
    ∷ wildcard_subscription_available ∷ subscription_identifier_available
    ∷ shared_subscription_available ∷ server_keep_alive ∷ response_information ∷ server_reference
    ∷ authentication_method ∷ authentication_data ∷ []

abbrev pub publish_props : List Prop
publish_props =
    payload_format_indicator ∷ message_expiry_interval ∷ content_type ∷ response_topic
    ∷ correlation_data ∷ subscription_identifier ∷ topic_alias ∷ user_property ∷ []

abbrev pub puback_props : List Prop
puback_props = reason_string ∷ user_property ∷ []

abbrev pub pubcomp_props : List Prop
pubcomp_props = reason_string ∷ user_property ∷ []

abbrev pub pubrec_props : List Prop
pubrec_props = reason_string ∷ user_property ∷ []

abbrev pub pubrel_props : List Prop
pubrel_props = reason_string ∷ user_property ∷ []

abbrev pub subscribe_props : List Prop
subscribe_props = subscription_identifier ∷ user_property ∷ []

abbrev pub suback_props : List Prop
suback_props = reason_string ∷ user_property ∷ []

abbrev pub unsubscribe_props : List Prop
unsubscribe_props = user_property ∷ []

abbrev pub unsuback_props : List Prop
unsuback_props = reason_string ∷ user_property ∷ []

abbrev pub disconnect_props : List Prop
disconnect_props = session_expiry_interval ∷ reason_string ∷ user_property ∷ server_reference ∷ []

abbrev pub auth_props : List Prop
auth_props = authentication_method ∷ authentication_data ∷ reason_string ∷ user_property ∷ []

abbrev pub will_props : List Prop
will_props =
    will_delay_interval ∷ payload_format_indicator ∷ message_expiry_interval ∷ content_type
    ∷ response_topic ∷ correlation_data ∷ user_property ∷ []
