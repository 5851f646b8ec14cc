-- ===== src/Operation.antt =====
-- What the operations of a client share: the values of properties, the part of client_service that
-- they call, and the calls that they make in order.
use async_mqtt.Base.{ℕ, Bool, List, [], ◌∷◌, ◌==◌, if◌then◌else◌, Option, none, some}
use async_mqtt.PacketId.{Interval, allocate, release}
use async_mqtt.Sender.Request.{next_serial_num}
use async_mqtt.Codec.Cursor.{Res, ok, fail, fault}
use async_mqtt.Codec.Property.{
  PropValue, u8_value, u16_value, varint_value, u32_value, text_value, pair_value, Stored, single,
  many, Prop,
}
use async_mqtt.ReasonCodes.{Category, ReasonCode, Lookup, found, nullopt, past_end, to_reason_code}
use async_mqtt.Errors.{ErrorCode}

-- `operator[]` of `properties`, for the property with this identifier.
unfoldable pub stored_at : Prop → List Prop → Stored
stored_at key [] = single none
stored_at key (p ∷ ps) = if p.id == key.id then p.value else stored_at key ps

-- `props[key] = value`
unfoldable pub set_at : Prop → Stored → List Prop → List Prop
set_at key value [] = []
set_at key value (p ∷ ps) =
    if p.id == key.id then record p { value = value } ∷ ps else (p ∷ set_at key value ps)

abbrev number_of : Stored → Option ℕ
number_of (single (some (u8_value v))) = some v
number_of (single (some (u16_value v))) = some v
number_of (single (some (varint_value v))) = some v
number_of (single (some (u32_value v))) = some v
number_of _ = none

abbrev text_of : Stored → Option (List ℕ)
text_of (single (some (text_value u))) = some u
text_of _ = none

abbrev pairs_of : List PropValue → List (List ℕ × List ℕ)
pairs_of [] = []
pairs_of (pair_value u v ∷ vs) = (u, v) ∷ pairs_of vs
pairs_of (_ ∷ vs) = pairs_of vs

abbrev numbers_of : List PropValue → List ℕ
numbers_of [] = []
numbers_of (varint_value v ∷ vs) = v ∷ numbers_of vs
numbers_of (_ ∷ vs) = numbers_of vs

abbrev vector_of : Stored → List PropValue
vector_of (single o) = []
vector_of (many vs) = vs

-- The value of an optional number, an optional text, and the elements of the two kinds of vectors.
abbrev pub number_at : Prop → List Prop → Option ℕ
number_at key ps = number_of (stored_at key ps)

abbrev pub text_at : Prop → List Prop → Option (List ℕ)
text_at key ps = text_of (stored_at key ps)

abbrev pub pairs_at : Prop → List Prop → List (List ℕ × List ℕ)
pairs_at key ps = pairs_of (vector_of (stored_at key ps))

abbrev pub numbers_at : Prop → List Prop → List ℕ
numbers_at key ps = numbers_of (vector_of (stored_at key ps))

abbrev pub value_or : Option ℕ → ℕ → ℕ
value_or (some v) default = v
value_or none default = default

abbrev pub default_max_send_size : ℕ
default_max_send_size = 268_435_460

-- The packet identifiers, the serial number that the sender gave last, the properties of the CONNACK
-- packet, and the subscriptions_present bit of the session.
pub record Service : Type 0 where
  pub free_ids : List Interval
  pub last_serial_num : ℕ
  pub connack : List Prop
  pub subscriptions_present : Bool

abbrev pub allocate_pid : Service → ℕ × Service
allocate_pid s = ((allocate s.free_ids).0, record s { free_ids = (allocate s.free_ids).1 })

abbrev pub service_next_serial : Service → ℕ × Service
service_next_serial s =
    let n = next_serial_num s.last_serial_num in (n, record s { last_serial_num = n })

-- The calls that an operation makes. `async_disconnect` is given the reason code; its texts are not
-- modelled. The result of `completes` is what the handler gets behind the error code, and
-- `immediate` says that it is `complete_immediate`.
pub data Effect (R : Type 0) : Type 0 where
  async_send : (wire_data : List ℕ) (serial_num flags : ℕ) → Effect R
  async_wait_reply : (code packet_id : ℕ) → Effect R
  async_disconnect : (reason : ℕ) → Effect R
  free_pid : (packet_id : ℕ) (was_throttled : Bool) → Effect R
  session_subscriptions : (present : Bool) → Effect R
  channel_store : (message : R) → Effect R
  completes : (immediate : Bool) (ec : ErrorCode) (result : R) → Effect R

-- `free_pid` on the identifiers. That `throttled_op_done` is called on the sender then is the flag
-- of the call.
abbrev pub apply_effect : {R : Type 0} → Effect R → Service → Service
apply_effect (free_pid pid was_throttled) s = record s { free_ids = release pid s.free_ids }
apply_effect (session_subscriptions present) s = record s { subscriptions_present = present }
apply_effect _ s = s

unfoldable pub apply_effects : {R : Type 0} → List (Effect R) → Service → Service
apply_effects [] s = s
apply_effects (e ∷ es) s = apply_effects es (apply_effect e s)

-- A decoded reason code: one that the packet may carry, or none. Nothing is known when the decoder
-- leaves the packet or the search its table.
pub data Decoded : Type 0 where
  valid : ReasonCode → List Prop → Decoded
  malformed undefined : Decoded

abbrev looked_up : List Prop → Lookup → Decoded
looked_up props (found rc) = valid rc props
looked_up props nullopt = malformed
looked_up props past_end = undefined

unfoldable pub read_code : Category → Res (ℕ × List Prop) → Decoded
read_code cat (ok (code, props) rest) = looked_up props (to_reason_code cat code)
read_code cat fail = malformed
read_code cat fault = undefined
