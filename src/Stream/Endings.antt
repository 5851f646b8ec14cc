-- ===== src/Stream/Endings.antt =====
-- What a read or a write of the stream can complete with.
use async_mqtt.Base.{◌==◌, ℕ, Bool, true, false, ◌&&◌, ◌||◌, ◌≡◌, ◌≢◌, refl, by_test}
use async_mqtt.Replies.{Error, success, operation_aborted, try_again, no_recovery, other_error}
use async_mqtt.Stream.{
  LayerCode, no_error, aborted, connection_aborted, not_connected, timed_out, connection_reset,
  broken_pipe, eof, code, Transfer, Reconnected, is_ok, should_reconnect,
}
use async_mqtt.Stream.Read
use async_mqtt.Stream.Write

-- Success only with all that was transferred, in time, on a stream that was connected and is open;
-- operation_aborted only when the stream is closed.
pub data Ends (whole : Bool) (bytes : ℕ) (first_open last_open : Bool) : Error × ℕ → Type 0 where
  moved : whole ≡ true → Ends whole bytes first_open last_open (success, bytes)
  closed :
      (n : ℕ) → first_open ≡ false → Ends whole bytes first_open last_open (operation_aborted, n)
  closed_later : last_open ≡ false → Ends whole bytes first_open last_open (operation_aborted, 0)
  again : Ends whole bytes first_open last_open (try_again, 0)
  unrecoverable : (n : ℕ) → Ends whole bytes first_open last_open (no_recovery, n)

abbrev pub read_whole : Transfer → Bool
read_whole t = t.was_connected && (t.is_open && (t.layer_first && is_ok t.ec))

abbrev pub written_whole : Transfer → Bool
written_whole t = t.was_connected && (t.is_open && is_ok t.ec)

read_on-Ends :
    (whole : Bool) (bytes : ℕ) (first_open last_open : Bool) (ec : Error)
    → ec ≢ other_error
    → Ends whole bytes first_open last_open
        (Read.on_reconnect (record { is_open = last_open; ec = ec }))
unfolding Read.on_reconnect
read_on-Ends whole bytes first_open last_open success h = again
read_on-Ends whole bytes first_open true operation_aborted h = again
read_on-Ends whole bytes first_open false operation_aborted h = closed_later refl
read_on-Ends whole bytes first_open last_open try_again h = again
read_on-Ends whole bytes first_open last_open no_recovery h = unrecoverable 0
read_on-Ends whole bytes first_open last_open other_error h = elim (h refl) [ ]

write_on-Ends :
    (whole : Bool) (bytes : ℕ) (first_open last_open : Bool) (ec : Error)
    → ec ≢ other_error
    → Ends whole bytes first_open last_open
        (Write.on_reconnect (record { is_open = last_open; ec = ec }))
unfolding Write.on_reconnect
write_on-Ends whole bytes first_open last_open success h = again
write_on-Ends whole bytes first_open true operation_aborted h = again
write_on-Ends whole bytes first_open false operation_aborted h = closed_later refl
write_on-Ends whole bytes first_open last_open try_again h = again
write_on-Ends whole bytes first_open last_open no_recovery h = unrecoverable 0
write_on-Ends whole bytes first_open last_open other_error h = elim (h refl) [ ]

-- A read that the layer answers first, on an open stream.
read_answered :
    (ec : LayerCode) (bytes : ℕ) (r : Reconnected)
    → r.ec ≢ other_error
    → Ends (is_ok ec) bytes true r.is_open (
        Read.resumed
          (Read.handle_read (record {
            was_connected = true;
            is_open = true;
            layer_first = true;
            ec = ec;
            bytes = bytes;
          }))
          r)
unfolding Read.handle_read should_reconnect
read_answered no_error bytes r h = moved refl
read_answered aborted bytes r h = read_on-Ends false bytes true r.is_open r.ec h
read_answered connection_aborted bytes r h = read_on-Ends false bytes true r.is_open r.ec h
read_answered not_connected bytes r h = read_on-Ends false bytes true r.is_open r.ec h
read_answered timed_out bytes r h = read_on-Ends false bytes true r.is_open r.ec h
read_answered connection_reset bytes r h = read_on-Ends false bytes true r.is_open r.ec h
read_answered broken_pipe bytes r h = read_on-Ends false bytes true r.is_open r.ec h
read_answered eof bytes r h = read_on-Ends false bytes true r.is_open r.ec h
read_answered (code value) bytes r h =
    by_test (λ o. Ends false bytes true r.is_open (Read.resumed o r))
      (((value == 1236) || (value == 121)) || false) _ _
      (λ e. read_on-Ends false bytes true r.is_open r.ec h) (λ e. unrecoverable _)

read_of :
    (connected first_open in_time : Bool) (ec : LayerCode) (bytes : ℕ) (r : Reconnected)
    → r.ec ≢ other_error
    → Ends
        (read_whole (record {
          was_connected = connected;
          is_open = first_open;
          layer_first = in_time;
          ec = ec;
          bytes = bytes;
        }))
        bytes
        first_open
        r.is_open
        (Read.perform
          (record {
            was_connected = connected;
            is_open = first_open;
            layer_first = in_time;
            ec = ec;
            bytes = bytes;
          })
          r)
unfolding Read.perform Read.handle_read should_reconnect
read_of true false in_time ec bytes r h = closed _ refl
read_of false false in_time ec bytes r h = closed _ refl
read_of false true in_time ec bytes r h = read_on-Ends false bytes true r.is_open r.ec h
read_of true true false ec bytes r h = read_on-Ends false bytes true r.is_open r.ec h
read_of true true true ec bytes r h = read_answered ec bytes r h

-- A write that the layer answers first, on an open stream.
write_answered :
    (ec : LayerCode) (bytes : ℕ) (r : Reconnected)
    → r.ec ≢ other_error
    → Ends (is_ok ec) bytes true r.is_open (
        Write.resumed
          (Write.handle_write (record {
            was_connected = true;
            is_open = true;
            layer_first = true;
            ec = ec;
            bytes = bytes;
          }))
          r)
unfolding Write.handle_write should_reconnect
write_answered no_error bytes r h = moved refl
write_answered aborted bytes r h = write_on-Ends false bytes true r.is_open r.ec h
write_answered connection_aborted bytes r h = write_on-Ends false bytes true r.is_open r.ec h
write_answered not_connected bytes r h = write_on-Ends false bytes true r.is_open r.ec h
write_answered timed_out bytes r h = write_on-Ends false bytes true r.is_open r.ec h
write_answered connection_reset bytes r h = write_on-Ends false bytes true r.is_open r.ec h
write_answered broken_pipe bytes r h = write_on-Ends false bytes true r.is_open r.ec h
write_answered eof bytes r h = write_on-Ends false bytes true r.is_open r.ec h
write_answered (code value) bytes r h =
    by_test (λ o. Ends false bytes true r.is_open (Write.resumed o r))
      (((value == 1236) || (value == 121)) || false) _ _
      (λ e. write_on-Ends false bytes true r.is_open r.ec h) (λ e. unrecoverable _)

write_of :
    (connected first_open in_time : Bool) (ec : LayerCode) (bytes : ℕ) (r : Reconnected)
    → r.ec ≢ other_error
    → Ends
        (written_whole (record {
          was_connected = connected;
          is_open = first_open;
          layer_first = in_time;
          ec = ec;
          bytes = bytes;
        }))
        bytes
        first_open
        r.is_open
        (Write.perform
          (record {
            was_connected = connected;
            is_open = first_open;
            layer_first = in_time;
            ec = ec;
            bytes = bytes;
          })
          r)
unfolding Write.perform Write.handle_write should_reconnect
write_of true false in_time ec bytes r h = closed _ refl
write_of false false in_time ec bytes r h = closed _ refl
write_of false true in_time ec bytes r h = write_on-Ends false bytes true r.is_open r.ec h
write_of true true in_time ec bytes r h = write_answered ec bytes r h

-- Whatever the layer and the timer answer, a read ends with all that was read in time on an open stream
-- that was connected, and a write with what was written on one; or they end with try_again or
-- no_recovery, or with operation_aborted on a stream that has been closed. async_reconnect is taken to
-- complete with one of its own codes.
pub transfer-Ends :
    (t : Transfer) (r : Reconnected)
    → r.ec ≢ other_error
    → Ends (read_whole t) t.bytes t.is_open r.is_open (Read.perform t r)
      × Ends (written_whole t) t.bytes t.is_open r.is_open (Write.perform t r)
transfer-Ends t r h = (
  read_of t.was_connected t.is_open t.layer_first t.ec t.bytes r h,
  write_of t.was_connected t.is_open t.layer_first t.ec t.bytes r h,
)
