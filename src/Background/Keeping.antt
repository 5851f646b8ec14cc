-- ===== src/Background/Keeping.antt =====
-- The operations behind a client go on until they complete.
use async_mqtt.Base.{length, ◌≢◌, ℕ, ◌+◌, Bool, true, false, ◌≡◌, List, [], ◌∷◌, ◌/◌}
use async_mqtt.Codec.Cursor.{ok, fault}
use async_mqtt.Codec.Library.{Boost}
use async_mqtt.Codec.Property.{Prop}
use async_mqtt.Context.{Context}
use async_mqtt.ReasonCodes.{past_end, disconnect, to_reason_code}
use async_mqtt.Codec.MessageDecoders.{decode_publish, decode_disconnect, decode_auth}
use async_mqtt.Replies.{Replies, success}
use async_mqtt.Errors.{ErrorCode, io}
use async_mqtt.Background.Timers
use async_mqtt.Background.Timers.{Ping, ping_done, Sentry, sentry_done}
use async_mqtt.Background.ReadMessage
use async_mqtt.Background.ReadMessage.{Stage, on_message, on_disconnect, done, unknown, Next}

-- The calls that come back to a handler of the operation, and those that complete it.
abbrev pub timer_counts : List Timers.Call → ℕ × ℕ
timer_counts [] = (0, 0)
timer_counts (Timers.async_wait w ∷ calls) = let (n, k) = timer_counts calls in (n + 1, k)
timer_counts (Timers.async_send wire_data ∷ calls) = let (n, k) = timer_counts calls in (n + 1, k)
timer_counts (Timers.async_disconnect reason ∷ calls) =
    let (n, k) = timer_counts calls in (n + 1, k)
timer_counts (Timers.completes ∷ calls) = let (n, k) = timer_counts calls in (n, k + 1)

abbrev pub read_counts : List ReadMessage.Call → ℕ × ℕ
read_counts [] = (0, 0)
read_counts (ReadMessage.async_assemble ∷ calls) = let (n, k) = read_counts calls in (n + 1, k)
read_counts (ReadMessage.async_shutdown ∷ calls) = let (n, k) = read_counts calls in (n + 1, k)
read_counts (ReadMessage.async_disconnect reason ∷ calls) =
    let (n, k) = read_counts calls in (n + 1, k)
read_counts (ReadMessage.completes ∷ calls) = let (n, k) = read_counts calls in (n, k + 1)
read_counts (ReadMessage.undefined ∷ calls) = read_counts calls
read_counts (ReadMessage.cancel ∷ calls) = read_counts calls
read_counts (ReadMessage.receives m ∷ calls) = read_counts calls
read_counts (ReadMessage.re_authenticates code props ∷ calls) = read_counts calls
read_counts (ReadMessage.logs_disconnect rc ∷ calls) = read_counts calls

-- One call that comes back while the operation runs, and one completion when it is done.
abbrev pub PingKeeps : Ping × List Timers.Call → Type 0
PingKeeps (ping_done, calls) = timer_counts calls ≡ (0, 1)
PingKeeps (_, calls) = timer_counts calls ≡ (1, 0)

abbrev pub SentryKeeps : Sentry × List Timers.Call → Type 0
SentryKeeps (sentry_done, calls) = timer_counts calls ≡ (0, 1)
SentryKeeps (_, calls) = timer_counts calls ≡ (1, 0)

-- Where the behaviour of dispatch is undefined: a decoder leaves the packet, no reason code of the table
-- is as large, or the packet is none of the three.
pub data IsUndefined (lib : Boost) (control_byte : ℕ) (body : List ℕ) : Type 0 where
  publish_left :
      control_byte / 16 ≡ 3
      → decode_publish lib control_byte (length body) body ≡ fault
      → IsUndefined lib control_byte body
  disconnect_left :
      control_byte / 16 ≡ 14
      → decode_disconnect lib (length body) body ≡ fault
      → IsUndefined lib control_byte body
  reason_left :
      (code : ℕ) (props : List Prop) (rest : List ℕ)
      → control_byte / 16 ≡ 14
      → decode_disconnect lib (length body) body ≡ ok (code, props) rest
      → to_reason_code disconnect code ≡ past_end
      → IsUndefined lib control_byte body
  auth_left :
      control_byte / 16 ≡ 15
      → decode_auth lib (length body) body ≡ fault
      → IsUndefined lib control_byte body
  other_packet :
      control_byte / 16 ≢ 3
      → control_byte / 16 ≢ 14
      → control_byte / 16 ≢ 15
      → IsUndefined lib control_byte body

-- The same, and in a stage where nothing is known, that the behaviour is undefined.
abbrev pub ReadKeeps : Type 0 → Next → Type 0
ReadKeeps U (on_message, calls) = read_counts calls ≡ (1, 0)
ReadKeeps U (on_disconnect, calls) = read_counts calls ≡ (1, 0)
ReadKeeps U (done, calls) = read_counts calls ≡ (0, 1)
ReadKeeps U (unknown, calls) = U

-- The operation to read messages, behind an error code and a packet.
abbrev pub MessageKeeps : Boost → ErrorCode → ℕ → List ℕ → Next → Type 0
MessageKeeps lib ec control_byte body =
    ReadKeeps ((ec ≡ io success) × IsUndefined lib control_byte body)

-- Whether an operation has still a handler to be called.
abbrev pub pinging : Ping → Bool
pinging ping_done = false
pinging _ = true

abbrev pub watching : Sentry → Bool
watching sentry_done = false
watching _ = true
