-- ===== src/Stream/Write.antt =====
-- include/boost/mqtt5/impl/write_op.hpp: a write to the stream.
use async_mqtt.Base.{ℕ, not, ◌&&◌, ◌||◌, if◌then◌else◌}
use async_mqtt.Replies.{Error, success, operation_aborted, try_again, no_recovery}
use async_mqtt.Errors.{failed}
use async_mqtt.Reconnect.{is_aborted}
use async_mqtt.Stream.{
  Transfer, Reconnected, Outcome, completes, async_reconnect, should_reconnect, is_ok,
  is_aborted_layer, transferred,
}

unfoldable pub handle_write : Transfer → Outcome
handle_write t =
    if not t.is_open
    then completes operation_aborted 0
    else (if is_ok t.ec
        then completes success t.bytes
        else (if should_reconnect t.ec || is_aborted_layer t.ec
            then async_reconnect
            else completes no_recovery 0))

unfoldable pub on_reconnect : Reconnected → Error × ℕ
on_reconnect r =
    if (is_aborted r.ec && r.is_open) || not (failed r.ec) then (try_again, 0) else (r.ec, 0)

abbrev pub resumed : Outcome → Reconnected → Error × ℕ
resumed (completes ec bytes) r = (ec, bytes)
resumed async_reconnect r = on_reconnect r

unfoldable pub perform : Transfer → Reconnected → Error × ℕ
perform t r = resumed (handle_write (transferred t)) r
