-- ===== src/Stream.antt =====
-- The reads and writes of include/boost/mqtt5/impl/autoconnect_stream.hpp: read_op.hpp and write_op.hpp
-- of include/boost/mqtt5/impl.
--
-- A transfer is what the layer answers: whether the stream was connected when it began, whether it is
-- open when the handler is called, whether the layer was before the timer, and its code and bytes.
-- `Reconnected` is the completion of async_reconnect with the stream as it is then.
pub mod Endings
pub mod Read
pub mod Write
use async_mqtt.Base.{ℕ, Bool, true, false, not, ◌&&◌, ◌||◌, ◌==◌, if◌then◌else◌}
use async_mqtt.Replies.{Error, success, operation_aborted, try_again, no_recovery}
use async_mqtt.Errors.{failed}
use async_mqtt.Reconnect.{is_aborted}

-- The codes of the layer; the ones without a name here by their value.
pub data LayerCode : Type 0 where
  no_error aborted connection_aborted not_connected timed_out connection_reset broken_pipe eof :
      LayerCode
  code : (value : ℕ) → LayerCode

pub record Transfer : Type 0 where
  pub was_connected : Bool
  pub is_open : Bool
  pub layer_first : Bool
  pub ec : LayerCode
  pub bytes : ℕ

pub record Reconnected : Type 0 where
  pub is_open : Bool
  pub ec : Error

pub data Outcome : Type 0 where
  completes : Error → (bytes : ℕ) → Outcome
  async_reconnect : Outcome

unfoldable pub should_reconnect : LayerCode → Bool
should_reconnect no_error = false
should_reconnect aborted = false
should_reconnect connection_aborted = true
should_reconnect not_connected = true
should_reconnect timed_out = true
should_reconnect connection_reset = true
should_reconnect broken_pipe = true
should_reconnect eof = true
should_reconnect (code value) = (value == 1236) || (value == 121)

abbrev pub is_ok : LayerCode → Bool
is_ok no_error = true
is_ok _ = false

abbrev pub is_aborted_layer : LayerCode → Bool
is_aborted_layer aborted = true
is_aborted_layer _ = false

-- What the handler is called with: a stream that was not connected is not read.
abbrev pub transferred : Transfer → Transfer
transferred t =
    if t.was_connected then t else (record t { layer_first = true; ec = not_connected; bytes = 0 })
