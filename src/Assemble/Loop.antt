-- ===== src/Assemble/Loop.antt =====
-- The loop of assemble_op over the packets of the stream: perform and on_read of
-- include/boost/mqtt5/impl/assemble_op.hpp in turn, with async_assemble called again once a message was
-- dealt with.
--
-- A state is the bytes of `_data_span`, until the loop has completed with malformed_packet; the
-- connection is closed then. Behind a reply with fewer than two bytes it is `undefined`: the packet
-- identifier is read from bytes behind the packet, and the range that is handed out ends before it
-- begins.
pub mod Chunks
pub mod Frames
use async_mqtt.Codec.Library.{Boost}
use async_mqtt.Codec.Cursor.{Res, ok, fail, fault}
use async_mqtt.Codec.MessageDecoders.{decode_packet_id}
use async_mqtt.Base.{◌*◌, ◌/◌, ℕ, zero, suc, List, [], ◌∷◌, ◌++◌, length}
use async_mqtt.Assemble.{
  Assembled, read_more, malformed, packet, on_bytes, Dispatched, refused, pong, reply, message,
  dispatch_kind,
}

-- What `dispatch` hands out: to the operation that waits for it a reply, by its control code and packet
-- identifier, with the bytes behind the identifier; to read_message_op a message.
pub data Handed : Type 0 where
  gives_reply : (code packet_id : ℕ) (body : List ℕ) → Handed
  gives_message : (control_byte : ℕ) (body : List ℕ) → Handed

pub data State : Type 0 where
  waiting : (span : List ℕ) → State
  completed_malformed undefined : State

abbrev pub Drained : Type 0
Drained = List Handed × State

-- The bytes behind a packet.
abbrev pub rest_of : Assembled → List ℕ
rest_of read_more = []
rest_of malformed = []
rest_of (packet control_byte body rest) = rest

-- `decode_packet_id(first).value()` and the call of `_replies.dispatch`.
abbrev pub replied : (code : ℕ) → Res ℕ → Drained → Drained
replied code (ok packet_id rest) (handed, s) = (gives_reply code packet_id rest ∷ handed, s)
replied code fail more = ([], undefined)
replied code fault more = ([], undefined)

abbrev pub after : List Handed → Drained → Drained
after handed (more, s) = (handed ++ more, s)

module _ (lib : Boost) where
  abbrev pub dispatched : Dispatched → ℕ → List ℕ → Drained → Drained
  dispatched refused control_byte body more = ([], completed_malformed)
  dispatched pong control_byte body more = more
  dispatched reply control_byte body more =
      replied (control_byte / 16 * 16) (decode_packet_id lib body) more
  dispatched message control_byte body more = after (gives_message control_byte body ∷ []) more

  abbrev pub assembled : Assembled → List ℕ → Drained → Drained
  assembled read_more span more = ([], waiting span)
  assembled malformed span more = ([], completed_malformed)
  assembled (packet control_byte body rest) span more =
      dispatched (dispatch_kind control_byte) control_byte body more

  -- On fuel: the packets of the span up to one that is not complete. Every packet takes bytes off.
  unfoldable pub drain : (fuel : ℕ) → (recv_size : ℕ) → List ℕ → Drained
  drain zero recv_size span = ([], waiting span)
  drain (suc fuel) recv_size span =
      let now = on_bytes recv_size span in
      let more = drain fuel recv_size (rest_of now) in assembled now span more

  -- A read of some bytes.
  abbrev pub on_read : (recv_size : ℕ) → State → List ℕ → Drained
  on_read recv_size completed_malformed chunk = ([], completed_malformed)
  on_read recv_size undefined chunk = ([], undefined)
  on_read recv_size (waiting span) chunk = drain (length (span ++ chunk)) recv_size (span ++ chunk)

  -- One read after the other.
  unfoldable pub on_reads : (recv_size : ℕ) → State → List (List ℕ) → Drained
  on_reads recv_size s [] = ([], s)
  on_reads recv_size s (chunk ∷ chunks) =
      let (handed, next) = on_read recv_size s chunk in
      let later = on_reads recv_size next chunks in after handed later

abbrev pub joined : List (List ℕ) → List ℕ
joined [] = []
joined (chunk ∷ chunks) = chunk ++ joined chunks
