-- ===== src/Assemble.antt =====
-- include/boost/mqtt5/impl/assemble_op.hpp: packets from the bytes of the stream.
--
-- `_data_span` is the list of the bytes that were received and not used yet. Its iterator of the
-- packet is the list from there on, and the packet ends where `body` ends. How the read buffer is
-- moved is not modelled.
pub mod Packets
pub mod Prefix
pub mod Loop
use async_mqtt.Base.{
  ℕ, ◌+◌, ◌-◌, ◌*◌, ◌/◌, ◌%◌, Bool, true, false, not, ◌&&◌, ◌||◌, List, [], ◌∷◌, length, ltb, ◌==◌,
  if◌then◌else◌, take, drop,
}
use async_mqtt.Codec.Cursor.{Res, ok, fail, fault}
use async_mqtt.Codec.Varint.{varint_}
use async_mqtt.Operation.{number_at, value_or}

-- max_recv_size
abbrev pub max_recv_size : ℕ
max_recv_size = 65536

-- What the handler of a read does next: it reads on, it completes with malformed_packet, or it has a
-- packet and leaves the bytes behind it.
pub data Assembled : Type 0 where
  read_more malformed : Assembled
  packet : (control_byte : ℕ) (body rest : List ℕ) → Assembled

-- From the remaining length on: the bytes of the fixed header are counted in `header`.
abbrev pub whole : (recv_size control_byte header varlen : ℕ) → List ℕ → Assembled
whole recv_size control_byte header varlen first =
    if ltb recv_size (varlen + header)
    then malformed
    else if ltb (length first) varlen
    then read_more
    else packet control_byte (take varlen first) (drop varlen first)

abbrev pub header_read : (recv_size control_byte size : ℕ) → Res ℕ → Assembled
header_read recv_size control_byte size (ok varlen first) =
    whole recv_size control_byte (size - length first) varlen first
header_read recv_size control_byte size fail = if ltb size 5 then read_more else malformed
header_read recv_size control_byte size fault = malformed

-- `operator()(on_read, ...)` on the bytes of the span, of which there is at least one.
unfoldable pub on_bytes : ℕ → List ℕ → Assembled
on_bytes recv_size [] = read_more
on_bytes recv_size (control_byte ∷ first) =
    if control_byte / 16 == 0
    then malformed
    else header_read recv_size control_byte (length (control_byte ∷ first)) (varint_ 0 first)

-- valid_header
unfoldable pub valid_header : ℕ → Bool
valid_header control_byte =
    let code = control_byte / 16 * 16 in
    let res = control_byte % 16 in
    if code == 0x30 then true else if code == 0x60 then res == 2 else res == 0

-- What `dispatch` does with a packet: it refuses the header, reads on after a PINGRESP, gives a reply
-- to the operation that waits for it, or hands the packet to read_message_op.
pub data Dispatched : Type 0 where
  refused pong reply message : Dispatched

unfoldable pub dispatch_kind : ℕ → Dispatched
dispatch_kind control_byte =
    let code = control_byte / 16 * 16 in
    if not (valid_header control_byte)
    then refused
    else if code == 0xD0
    then pong
    else if (code == 0x30) || ((code == 0xF0) || (code == 0xE0))
    then message
    else reply
