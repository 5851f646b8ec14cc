-- ===== src/Errors.antt =====
-- The error codes that the operations complete with: `client::error` of
-- include/boost/mqtt5/error.hpp, and the ones of Boost.Asio.
use async_mqtt.Base.{Bool, true, false}
use async_mqtt.Replies.{Error, success, operation_aborted, try_again, no_recovery, other_error}

pub data ClientError : Type 0 where
  malformed_packet packet_too_large session_expired pid_overrun invalid_topic qos_not_supported :
      ClientError
  retain_not_available topic_alias_maximum_reached wildcard_subscription_not_available : ClientError
  subscription_identifier_not_available shared_subscription_not_available : ClientError

pub data ErrorCode : Type 0 where
  io : Error → ErrorCode
  client : ClientError → ErrorCode

-- `if (ec)`
abbrev pub failed : Error → Bool
failed success = false
failed operation_aborted = true
failed try_again = true
failed no_recovery = true
failed other_error = true

abbrev pub is_try_again : Error → Bool
is_try_again success = false
is_try_again operation_aborted = false
is_try_again try_again = true
is_try_again no_recovery = false
is_try_again other_error = false

-- `if (ec)` on an error code that a validation returns.
abbrev pub refused : ErrorCode → Bool
refused (io ec) = failed ec
refused (client e) = true
