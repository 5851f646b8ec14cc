-- ===== src/Background/Timers.antt =====
-- include/boost/mqtt5/impl/ping_op.hpp and sentry_op.hpp: the timers that send PINGREQ packets and that
-- look for replies which are overdue.
--
-- A stage is named by the tag of the next handler; whether the stream is open and what the timer and the
-- other parts answer are arguments. The longest duration is `forever`.
use async_mqtt.Base.{ℕ, Bool, not, ◌||◌, List, [], ◌∷◌, ◌==◌, if◌then◌else◌}
use async_mqtt.Codec.Property.{server_keep_alive}
use async_mqtt.Codec.Messages.{encode_pingreq}
use async_mqtt.Context.{Context}
use async_mqtt.Operation.{number_at, value_or}
use async_mqtt.ReasonCodes
use async_mqtt.Replies.{Error, Replies, any_expired}
use async_mqtt.Errors.{failed, is_try_again}
use async_mqtt.Reconnect.{is_aborted}

pub data Wait : Type 0 where
  seconds : ℕ → Wait
  forever : Wait

-- `client_service::negotiated_keep_alive`
unfoldable pub negotiated_keep_alive : Context → ℕ
negotiated_keep_alive c = value_or (number_at server_keep_alive c.ca_props) c.keep_alive

unfoldable pub compute_wait_time : Context → Wait
compute_wait_time c =
    let negotiated_ka = negotiated_keep_alive c in
    if negotiated_ka == 0 then forever else seconds negotiated_ka

-- The calls of both operations. `async_disconnect` is given the reason code.
pub data Call : Type 0 where
  async_wait : Wait → Call
  async_send : (wire_data : List ℕ) → Call
  async_disconnect : (reason : ℕ) → Call
  completes : Call

pub data Ping : Type 0 where
  ping_on_timer on_pingreq ping_done : Ping

abbrev pub perform_ping : Context → Ping × List Call
perform_ping c = (ping_on_timer, async_wait (compute_wait_time c) ∷ [])

unfoldable pub handle_ping : Context → (is_open : Bool) → Error → Ping → Ping × List Call
handle_ping c is_open ec ping_on_timer =
    if not is_open
    then (ping_done, completes ∷ [])
    else (if is_aborted ec then perform_ping c else (on_pingreq, async_send encode_pingreq ∷ []))
handle_ping c is_open ec on_pingreq =
    if not (failed ec) || is_try_again ec then perform_ping c else (ping_done, completes ∷ [])
handle_ping c is_open ec ping_done = (ping_done, [])

abbrev pub check_interval : ℕ
check_interval = 3

pub data Sentry : Type 0 where
  sentry_on_timer sentry_on_disconnect sentry_done : Sentry

abbrev pub perform_sentry : Sentry × List Call
perform_sentry = (sentry_on_timer, async_wait (seconds check_interval) ∷ [])

unfoldable pub handle_sentry :
    (now : ℕ) → Replies → (is_open : Bool) → Error → Sentry → Sentry × List Call
handle_sentry now r is_open ec sentry_on_timer =
    if not is_open
    then (sentry_done, completes ∷ [])
    else (if any_expired now r
        then (sentry_on_disconnect, async_disconnect ReasonCodes.unspecified_error.code ∷ [])
        else perform_sentry)
handle_sentry now r is_open ec sentry_on_disconnect =
    if failed ec then (sentry_done, completes ∷ []) else perform_sentry
handle_sentry now r is_open ec sentry_done = (sentry_done, [])
