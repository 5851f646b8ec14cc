-- ===== src/Stream/Read.antt =====
-- include/boost/mqtt5/impl/read_op.hpp: a read from the stream, with its timer.
use async_mqtt.Base.{ℕ, not, ◌&&◌, ◌||◌, if◌then◌else◌}
use async_mqtt.Replies.{Error, success, operation_aborted, try_again, no_recovery}
use async_mqtt.Errors.{failed}
use async_mqtt.Reconnect.{is_aborted}
use async_mqtt.Stream.{
  timed_out, Transfer, Reconnected, Outcome, completes, async_reconnect, should_reconnect, is_ok,
  is_aborted_layer, transferred,
}

unfoldable pub handle_read : Transfer → Outcome
handle_read t =
    if not t.is_open
    then completes operation_aborted t.bytes
    else (let ec = if not t.layer_first then timed_out else t.ec in
        let bytes_read = if t.layer_first then t.bytes else 0 in
        if is_ok ec
        then completes success bytes_read
        else (if should_reconnect ec || is_aborted_layer ec
            then async_reconnect
            else completes no_recovery bytes_read))

unfoldable pub on_reconnect : Reconnected → Error × ℕ
on_reconnect r =
    if (is_aborted r.ec && r.is_open) || not (failed r.ec) then (try_again, 0) else (r.ec, 0)

abbrev pub resumed : Outcome → Reconnected → Error × ℕ
resumed (completes ec bytes) r = (ec, bytes)
resumed async_reconnect r = on_reconnect r

-- `perform` and the handlers in turn.
unfoldable pub perform : Transfer → Reconnected → Error × ℕ
perform t r = resumed (handle_read (transferred t)) r
