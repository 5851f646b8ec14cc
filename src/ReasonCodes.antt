-- ===== src/ReasonCodes.antt =====
-- include/boost/mqtt5/reason_codes.hpp: the reason codes, the tables of the codes that each packet
-- may carry, and the search in them. The texts of `message` are not modelled.
pub mod Tables
use async_mqtt.Base.{Bool, ℕ, List, [], ◌∷◌, ltb, leb, ◌==◌, if◌then◌else◌}

-- reason_codes::category; `uncategorised` is `category::none`.
pub data Category : Type 0 where
  uncategorised connack puback pubrec pubrel pubcomp suback unsuback auth disconnect : Category

pub record ReasonCode : Type 0 where
  pub code : ℕ
  pub category : Category

-- The constructor from a byte.
abbrev pub of_byte : ℕ → ReasonCode
of_byte code = record { code = code; category = uncategorised }

-- `explicit operator bool`
unfoldable pub is_error : ReasonCode → Bool
is_error rc = leb 0x80 rc.code

abbrev pub empty : ReasonCode
empty = of_byte 0xff

abbrev pub success : ReasonCode
success = of_byte 0x00

abbrev pub normal_disconnection : ReasonCode
normal_disconnection = record { code = 0x00; category = disconnect }

abbrev pub granted_qos_0 : ReasonCode
granted_qos_0 = record { code = 0x00; category = suback }

abbrev pub granted_qos_1 : ReasonCode
granted_qos_1 = of_byte 0x01

abbrev pub granted_qos_2 : ReasonCode
granted_qos_2 = of_byte 0x02

abbrev pub disconnect_with_will_message : ReasonCode
disconnect_with_will_message = of_byte 0x04

abbrev pub no_matching_subscribers : ReasonCode
no_matching_subscribers = of_byte 0x10

abbrev pub no_subscription_existed : ReasonCode
no_subscription_existed = of_byte 0x11

abbrev pub continue_authentication : ReasonCode
continue_authentication = of_byte 0x18

abbrev pub reauthenticate : ReasonCode
reauthenticate = of_byte 0x19

abbrev pub unspecified_error : ReasonCode
unspecified_error = of_byte 0x80

abbrev pub malformed_packet : ReasonCode
malformed_packet = of_byte 0x81

abbrev pub protocol_error : ReasonCode
protocol_error = of_byte 0x82

abbrev pub implementation_specific_error : ReasonCode
implementation_specific_error = of_byte 0x83

abbrev pub unsupported_protocol_version : ReasonCode
unsupported_protocol_version = of_byte 0x84

abbrev pub client_identifier_not_valid : ReasonCode
client_identifier_not_valid = of_byte 0x85

abbrev pub bad_username_or_password : ReasonCode
bad_username_or_password = of_byte 0x86

abbrev pub not_authorized : ReasonCode
not_authorized = of_byte 0x87

abbrev pub server_unavailable : ReasonCode
server_unavailable = of_byte 0x88

abbrev pub server_busy : ReasonCode
server_busy = of_byte 0x89

abbrev pub banned : ReasonCode
banned = of_byte 0x8a

abbrev pub server_shutting_down : ReasonCode
server_shutting_down = of_byte 0x8b

abbrev pub bad_authentication_method : ReasonCode
bad_authentication_method = of_byte 0x8c

abbrev pub keep_alive_timeout : ReasonCode
keep_alive_timeout = of_byte 0x8d

abbrev pub session_taken_over : ReasonCode
session_taken_over = of_byte 0x8e

abbrev pub topic_filter_invalid : ReasonCode
topic_filter_invalid = of_byte 0x8f

abbrev pub topic_name_invalid : ReasonCode
topic_name_invalid = of_byte 0x90

abbrev pub packet_identifier_in_use : ReasonCode
packet_identifier_in_use = of_byte 0x91

abbrev pub packet_identifier_not_found : ReasonCode
packet_identifier_not_found = of_byte 0x92

abbrev pub receive_maximum_exceeded : ReasonCode
receive_maximum_exceeded = of_byte 0x93

abbrev pub topic_alias_invalid : ReasonCode
topic_alias_invalid = of_byte 0x94

abbrev pub packet_too_large : ReasonCode
packet_too_large = of_byte 0x95

abbrev pub message_rate_too_high : ReasonCode
message_rate_too_high = of_byte 0x96

abbrev pub quota_exceeded : ReasonCode
quota_exceeded = of_byte 0x97

abbrev pub administrative_action : ReasonCode
administrative_action = of_byte 0x98

abbrev pub payload_format_invalid : ReasonCode
payload_format_invalid = of_byte 0x99

abbrev pub retain_not_supported : ReasonCode
retain_not_supported = of_byte 0x9a

abbrev pub qos_not_supported : ReasonCode
qos_not_supported = of_byte 0x9b

abbrev pub use_another_server : ReasonCode
use_another_server = of_byte 0x9c

abbrev pub server_moved : ReasonCode
server_moved = of_byte 0x9d

abbrev pub shared_subscriptions_not_supported : ReasonCode
shared_subscriptions_not_supported = of_byte 0x9e

abbrev pub connection_rate_exceeded : ReasonCode
connection_rate_exceeded = of_byte 0x9f

abbrev pub maximum_connect_time : ReasonCode
maximum_connect_time = of_byte 0xa0

abbrev pub subscription_ids_not_supported : ReasonCode
subscription_ids_not_supported = of_byte 0xa1

abbrev pub wildcard_subscriptions_not_supported : ReasonCode
wildcard_subscriptions_not_supported = of_byte 0xa2

-- `operator<`
abbrev pub less_code : ReasonCode → ReasonCode → Bool
less_code lhs rhs = ltb lhs.code rhs.code

-- `valid_codes<cat>()`; there is none for `category::none`.
abbrev pub valid_codes : Category → List ReasonCode
valid_codes uncategorised = []
valid_codes connack =
    success ∷ unspecified_error ∷ malformed_packet ∷ protocol_error ∷ implementation_specific_error
    ∷ unsupported_protocol_version ∷ client_identifier_not_valid ∷ bad_username_or_password
    ∷ not_authorized ∷ server_unavailable ∷ server_busy ∷ banned ∷ bad_authentication_method
    ∷ topic_name_invalid ∷ packet_too_large ∷ quota_exceeded ∷ payload_format_invalid
    ∷ retain_not_supported ∷ qos_not_supported ∷ use_another_server ∷ server_moved
    ∷ connection_rate_exceeded ∷ []
valid_codes puback =
    success ∷ no_matching_subscribers ∷ unspecified_error ∷ implementation_specific_error
    ∷ not_authorized ∷ topic_name_invalid ∷ packet_identifier_in_use ∷ quota_exceeded
    ∷ payload_format_invalid ∷ []
valid_codes pubrec =
    success ∷ no_matching_subscribers ∷ unspecified_error ∷ implementation_specific_error
    ∷ not_authorized ∷ topic_name_invalid ∷ packet_identifier_in_use ∷ quota_exceeded
    ∷ payload_format_invalid ∷ []
valid_codes pubrel = success ∷ packet_identifier_not_found ∷ []
valid_codes pubcomp = success ∷ packet_identifier_not_found ∷ []
valid_codes suback =
    granted_qos_0 ∷ granted_qos_1 ∷ granted_qos_2 ∷ unspecified_error
    ∷ implementation_specific_error ∷ not_authorized ∷ topic_filter_invalid
    ∷ packet_identifier_in_use ∷ quota_exceeded ∷ shared_subscriptions_not_supported
    ∷ subscription_ids_not_supported ∷ wildcard_subscriptions_not_supported ∷ []
valid_codes unsuback =
    success ∷ no_subscription_existed ∷ unspecified_error ∷ implementation_specific_error
    ∷ not_authorized ∷ topic_filter_invalid ∷ packet_identifier_in_use ∷ []
valid_codes auth = success ∷ continue_authentication ∷ reauthenticate ∷ []
valid_codes disconnect =
    normal_disconnection ∷ unspecified_error ∷ malformed_packet ∷ protocol_error
    ∷ implementation_specific_error ∷ not_authorized ∷ server_busy ∷ server_shutting_down
    ∷ keep_alive_timeout ∷ session_taken_over ∷ topic_filter_invalid ∷ topic_name_invalid
    ∷ receive_maximum_exceeded ∷ topic_alias_invalid ∷ packet_too_large ∷ message_rate_too_high
    ∷ quota_exceeded ∷ administrative_action ∷ payload_format_invalid ∷ retain_not_supported
    ∷ qos_not_supported ∷ use_another_server ∷ server_moved ∷ shared_subscriptions_not_supported
    ∷ connection_rate_exceeded ∷ maximum_connect_time ∷ subscription_ids_not_supported
    ∷ wildcard_subscriptions_not_supported ∷ []

-- What `to_reason_code` comes to: a code, std::nullopt, or a read behind the table, when no code of
-- the table is large enough.
pub data Lookup : Type 0 where
  found : ReasonCode → Lookup
  nullopt past_end : Lookup

-- `std::lower_bound` on a sorted range: its elements from the first one that is not less.
unfoldable pub lower_bound : ReasonCode → List ReasonCode → List ReasonCode
lower_bound value [] = []
lower_bound value (rc ∷ rcs) = if less_code rc value then lower_bound value rcs else (rc ∷ rcs)

abbrev pub value_at : ℕ → List ReasonCode → Lookup
value_at code [] = past_end
value_at code (rc ∷ rcs) = if rc.code == code then found rc else nullopt

unfoldable pub to_reason_code : Category → ℕ → Lookup
to_reason_code cat code = value_at code (lower_bound (of_byte code) (valid_codes cat))
