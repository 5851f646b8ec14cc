-- ===== src/Tests/Connecting.antt =====
-- Connecting and the stream, at concrete answers.
use async_mqtt.Base.{
  ◌^◌, ◌*◌, ◌-◌, ltb, if◌then◌else◌, ℕ, ◌+◌, ◌≤◌, true, false, ◌≡◌, refl, List, [], ◌∷◌, ◌++◌, none,
  arith,
}
use async_mqtt.Codec.Property.{connect_props, connack_props}
use async_mqtt.Context.{Credentials}
use async_mqtt.Replies.{success, operation_aborted, try_again, other_error}
use async_mqtt.Errors.{io}
use async_mqtt.Connect.{Answer, Negotiated}
use async_mqtt.Connect
use async_mqtt.Connect.Protocol
use async_mqtt.Connect.Attempt.{Follows, transcript, calls_of, attempt-Leads}
use async_mqtt.Endpoints.{gives}
use async_mqtt.Reconnect.{
  Event, Owner, on_next_endpoint, async_next_endpoint, complete, connect, handle_locked,
}
use async_mqtt.Reconnect
use async_mqtt.Reconnect.Backoff.{delay, capped, delay-bounds}
use async_mqtt.Reconnect.Lock
use async_mqtt.Reconnect.Lock.{reconnect-Leads}
use async_mqtt.Reconnect.Layers.{succeeded, handle_locked-run}
use async_mqtt.Reconnect.Rounds.{attempts, one_fails, none_left, run-attempts}
use async_mqtt.Stream.{Transfer, Reconnected, eof}
use async_mqtt.Stream.Read
use async_mqtt.Stream.Write
use async_mqtt.Stream.Endings.{Ends, read_whole, written_whole, transfer-Ends}
use async_mqtt.Tests.Library.{library}
use async_mqtt.Codec.Varint.{varint_, varint_loop}
use async_mqtt.Codec.MessageDecoders.{decode_connack}
use async_mqtt.Codec.Decoder.{limited, scope_limit_}
use async_mqtt.Codec.PropDecoder.{props_parser, props_loop}
use async_mqtt.ReasonCodes.{to_reason_code, lower_bound, is_error}
use async_mqtt.Operation.{stored_at}
use async_mqtt.Connect.Buffer.{larger, wanted, read_rest-bounds}

abbrev creds : Credentials
creds = record { client_id = 99 ∷ []; username = none; password = none }

abbrev negotiated : Negotiated
negotiated = record { co_props = connect_props; ca_props = connack_props; state = 0 }

abbrev answer : List ℕ → Answer
answer bytes = record { cancelled = false; ec = success; bytes = bytes }

-- A CONNACK packet of five bytes, of which none are left to read.
abbrev connack_answers : List Answer
connack_answers = answer [] ∷ answer [] ∷ answer (0x20 ∷ 3 ∷ 0 ∷ 0 ∷ 0 ∷ []) ∷ answer [] ∷ []

connected :
    (Connect.run library false false creds none 60 [] connack_answers
      (Connect.perform negotiated)).0
    ≡ Connect.done
unfolding Connect.run Connect.handle Connect.handle_connect Connect.do_tls_handshake
    Connect.do_ws_handshake Connect.handle_ws_handshake Connect.handle_send_connect
    Connect.handle_fixed_header Connect.fixed_header_of varint_ varint_loop
    Connect.handle_read_packet Connect.on_connack decode_connack limited scope_limit_ props_parser
    props_loop to_reason_code lower_bound is_error stored_at
connected = refl

attempt-Leads_example :
    Follows library false false creds none 60 [] Connect.Protocol.opening
      (transcript library false false creds none 60 [] connack_answers Connect.on_connect
        negotiated)
      (Connect.run library false false creds none 60 [] connack_answers
        (Connect.perform negotiated)).0
    × ((Connect.run library false false creds none 60 [] connack_answers
          (Connect.perform negotiated)).2
        ≡ Connect.async_connect
          ∷ calls_of (
              transcript library false false creds none 60 [] connack_answers Connect.on_connect
                negotiated))
attempt-Leads_example =
    attempt-Leads library false false creds none 60 [] connack_answers negotiated

-- A CONNACK packet whose rest is nine bytes, of which three were read.
read_rest-bounds_example :
    (if ltb 9 3
      then (Connect.read_rest library false false creds none 60 [] 5 5 0x20 9
          (0 ∷ 0 ∷ 6 ∷ [])
          negotiated).0
        ≡ Connect.unknown
      else (Connect.read_rest library false false creds none 60 [] 5 5 0x20 9
            (0 ∷ 0 ∷ 6 ∷ [])
            negotiated
          ≡ (
            Connect.on_read_packet (larger 5 (wanted 5 9 (0 ∷ 0 ∷ 6 ∷ []))) 0x20 9 (0 ∷ 0 ∷ 6 ∷ []),
            negotiated,
            Connect.async_read (larger 5 (wanted 5 9 (0 ∷ 0 ∷ 6 ∷ []))) 5 (9 - 3) ∷ [],
          ))
        × (5 + (9 - 3) ≤ larger 5 (wanted 5 9 (0 ∷ 0 ∷ 6 ∷ []))))
read_rest-bounds_example =
    read_rest-bounds library false false creds none 60 [] 5 5 0x20 9 (0 ∷ 0 ∷ 6 ∷ []) negotiated
      (omega arith) (omega arith) (omega arith) (omega arith)

-- The CONNACK packet of an older version of the protocol, with a rest of two bytes, and one more byte.
short_connack :
    (Connect.run library false false creds none 60 []
      (answer [] ∷ answer [] ∷ answer (0x20 ∷ 2 ∷ 0 ∷ 0 ∷ 0 ∷ []) ∷ [])
      (Connect.perform negotiated)).0
    ≡ Connect.unknown
unfolding Connect.run Connect.handle Connect.handle_connect Connect.do_tls_handshake
    Connect.do_ws_handshake Connect.handle_ws_handshake Connect.handle_send_connect
    Connect.handle_fixed_header Connect.fixed_header_of varint_ varint_loop
short_connack = refl

abbrev owner : Owner
owner = record { stream_ptr = 0; layers = 1; curr_exp = 0 }

abbrev event : Event
event = record {
  is_open = true;
  ec = success;
  found = gives (record { host = 104 ∷ []; port = []; path = [] });
  eps = 7 ∷ [];
  noise = 500;
  connect_first = true;
  connect_ec = io success;
  timer_ec = operation_aborted;
}

abbrev broken : Event
broken = record event { connect_ec = io other_error }

delay-bounds_example :
    (delay (λ i. 300) 2 + 500 ≡ 2 ^ capped 2 * 1000 + 300)
    × (500 ≤ delay (λ i. 300) 2)
    × (delay (λ i. 300) 2 ≤ 16500)
delay-bounds_example = delay-bounds (λ i. 300) (λ i. omega arith) 2

reconnect-Leads_example :
    Reconnect.Lock.Leads
      (Reconnect.Lock.idle false)
      (Reconnect.run (event ∷ event ∷ event ∷ []) (Reconnect.perform 0 owner))
reconnect-Leads_example = reconnect-Leads event (event ∷ event ∷ []) 0 owner

handle_locked-run_example :
    handle_locked event 0 (Reconnect.run (event ∷ event ∷ event ∷ []) (Reconnect.perform 0 owner)).1
    ≡ complete try_again (Reconnect.run (event ∷ event ∷ event ∷ []) (Reconnect.perform 0 owner)).1
unfolding Reconnect.run Reconnect.perform Reconnect.handle handle_locked
    Reconnect.handle_next_endpoint Reconnect.handle_connect connect succeeded
handle_locked-run_example =
    handle_locked-run (event ∷ event ∷ event ∷ []) owner event (omega arith) refl refl refl

run-attempts_example : Reconnect.run (broken ∷ broken ∷ []) (connect (7 ∷ 8 ∷ []) owner) ≡ (
  on_next_endpoint,
  record owner { layers = 1 + 2 },
  attempts 1 (7 ∷ 8 ∷ []) ++ (async_next_endpoint ∷ []),
)
run-attempts_example =
    run-attempts 7 (8 ∷ []) (broken ∷ broken ∷ []) owner (one_fails refl (one_fails refl none_left))

abbrev dropped : Transfer
dropped = record { was_connected = true; is_open = true; layer_first = true; ec = eof; bytes = 0 }

abbrev reconnected : Reconnected
reconnected = record { is_open = true; ec = success }

transfer-Ends_example :
    Ends (read_whole dropped) 0 true true (Read.perform dropped reconnected)
    × Ends (written_whole dropped) 0 true true (Write.perform dropped reconnected)
transfer-Ends_example = transfer-Ends dropped reconnected (λ e. ground arith)
