-- ===== src/Disconnect/Limits.antt =====
-- The size of the DISCONNECT packets that are sent.
use async_mqtt.Base.{
  All-append, All, ℕ, ◌≤◌, Bool, true, false, ltb, ◌≡◌, refl, List, [], ◌∷◌, length, arith, by_test,
}
use async_mqtt.Codec.Library.{Boost}
use async_mqtt.Codec.Varint.{
  to_variable_bytes, to_variable_loop, variable_length, variable_length_loop,
}
use async_mqtt.Codec.PropEncoder.{
  props_val, props_encode, prop_val, vector_encode, props_size, vector_size,
}
use async_mqtt.Codec.Property.{Prop, disconnect_props}
use async_mqtt.Codec.Messages.{encode_disconnect}
use async_mqtt.ControlPacket.{of_no_pid, size}
use async_mqtt.Replies.{Error, success, operation_aborted, try_again, no_recovery, other_error}
use async_mqtt.Errors.{refused}
use async_mqtt.Disconnect.{
  DisconnectContext, Call, async_send_terminal, async_shutdown, cancel, completes, Stage,
  on_disconnect, on_shutdown, done, Next, validate_disconnect, disconnect_of, max_packet_size,
  perform, handle, run,
}

-- Without properties there are four bytes.
bare_length : (lib : Boost) (code : ℕ) → size (disconnect_of lib code disconnect_props) ≡ 4
unfolding size disconnect_of of_no_pid encode_disconnect props_val props_encode prop_val
    vector_encode to_variable_bytes props_size vector_size to_variable_loop variable_length
    variable_length_loop
bare_length lib code = refl

abbrev pub IsWithin : ℕ → Call → Type 0
IsWithin max (async_send_terminal wire_data) = length wire_data ≤ max
IsWithin max async_shutdown = Unit {0}
IsWithin max cancel = Unit {0}
IsWithin max (completes immediate ec) = Unit {0}

abbrev Resendable : ℕ → Stage → Type 0
Resendable max (on_disconnect disconnect) = length disconnect.packet ≤ max
Resendable max on_shutdown = Unit {0}
Resendable max done = Unit {0}

-- What is sent, and what will be sent again.
abbrev IsBounded : ℕ → Next → Type 0
IsBounded max (stage, calls) = Resendable max stage × All (IsWithin max) calls

handled-IsBounded :
    (max : ℕ) (terminal : Bool) (ec : Error) (stage : Stage)
    → Resendable max stage
    → IsBounded max (handle terminal ec stage)
unfolding handle
handled-IsBounded max terminal success (on_disconnect disconnect) h = (tt, (tt, tt))
handled-IsBounded max terminal operation_aborted (on_disconnect disconnect) h = (tt, (tt, tt))
handled-IsBounded max true try_again (on_disconnect disconnect) h = (h, (h, tt))
handled-IsBounded max false try_again (on_disconnect disconnect) h = (tt, (tt, tt))
handled-IsBounded max terminal no_recovery (on_disconnect disconnect) h = (tt, (tt, tt))
handled-IsBounded max terminal other_error (on_disconnect disconnect) h = (tt, (tt, tt))
handled-IsBounded max true ec on_shutdown h = (tt, (tt, (tt, tt)))
handled-IsBounded max false ec on_shutdown h = (tt, (tt, tt))
handled-IsBounded max terminal ec done h = (tt, tt)

run-IsBounded :
    (max : ℕ) (terminal : Bool) (answers : List Error) (now : Next)
    → IsBounded max now
    → IsBounded max (run terminal answers now)
unfolding run
run-IsBounded max terminal [] now h = h
run-IsBounded max terminal (ec ∷ more) (stage, calls) (h, k) =
    let (p, q) = handled-IsBounded max terminal ec stage h in
    run-IsBounded max terminal more _ (p, All-append (IsWithin max) calls _ k q)

perform-IsBounded :
    (lib : Boost) (connack : List Prop) (c : DisconnectContext)
    → 4 ≤ max_packet_size connack
    → IsBounded (max_packet_size connack) (perform lib connack c)
unfolding perform size of_no_pid
perform-IsBounded lib connack c h =
    by_test (IsBounded (max_packet_size connack)) (refused (validate_disconnect c.props)) _ _
      (λ e. (tt, (tt, tt)))
      (λ e.
        by_test (IsBounded (max_packet_size connack))
          (ltb (max_packet_size connack) (size (disconnect_of lib c.reason_code c.props))) _ _
          (λ k.
            let b : length (disconnect_of lib c.reason_code disconnect_props).packet
                ≤ max_packet_size connack =
              omega (arith, bare_length lib c.reason_code) in
            (b, (b, tt)))
          (λ k.
            let b : length (disconnect_of lib c.reason_code c.props).packet
                ≤ max_packet_size connack =
              ground arith in
            (b, (b, tt))))

-- Where the broker's Maximum Packet Size leaves room for the four bytes of a DISCONNECT packet without
-- properties, no DISCONNECT packet that the operation sends is larger, whatever properties it was
-- given and whatever the sender and the stream answer.
pub disconnect-IsWithin :
    (lib : Boost) (connack : List Prop) (c : DisconnectContext) (answers : List Error)
    → 4 ≤ max_packet_size connack
    → All (IsWithin (max_packet_size connack)) (run c.terminal answers (perform lib connack c)).1
disconnect-IsWithin lib connack c answers h =
    (run-IsBounded (max_packet_size connack) c.terminal answers (perform lib connack c)
      (perform-IsBounded lib connack c h)).1
