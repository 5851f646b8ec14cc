-- ===== src/Reconnect.antt =====
-- include/boost/mqtt5/impl/reconnect_op.hpp: the back-off and the operation that connects again, with
-- the layers of include/boost/mqtt5/impl/autoconnect_stream.hpp.
--
-- A stage is named by the tag of the next handler. Layers are numbers in the order they are made, and
-- endpoints of a look-up are numbers too. What the other parts answer, and whether the current layer
-- is open, comes with each event. `noise` is what the generator draws, plus 500.
pub mod Layers
pub mod Lock
pub mod Rounds
pub mod Backoff
use async_mqtt.Base.{
  ℕ, ◌+◌, ◌-◌, ◌*◌, ◌^◌, Bool, true, false, not, ◌&&◌, ◌||◌, List, [], ◌∷◌, ◌++◌, ltb, ◌==◌,
  if◌then◌else◌,
}
use async_mqtt.Replies.{Error, success, operation_aborted, try_again, no_recovery}
use async_mqtt.Errors.{ErrorCode, io, client, failed, refused}
use async_mqtt.Endpoints.{
  Answer, gives, operation_aborted as lookup_aborted, try_again as lookup_again, host_not_found,
}

abbrev pub base_multiplier : ℕ
base_multiplier = 1000

abbrev pub max_exp : ℕ
max_exp = 4

-- `exponential_backoff::generate`: the milliseconds, and the next `_curr_exp`.
unfoldable pub generate : (noise curr_exp : ℕ) → ℕ × ℕ
generate noise curr_exp =
    let exponent = if ltb curr_exp max_exp then curr_exp else max_exp in
    let next = if ltb curr_exp max_exp then curr_exp + 1 else curr_exp in
    (2 ^ exponent * base_multiplier + noise - 500, next)

-- `stream_ptr` is the current layer, `layers` counts the ones that were made, and `curr_exp` is the
-- exponent of the operation's own back-off.
pub record Owner : Type 0 where
  pub stream_ptr : ℕ
  pub layers : ℕ
  pub curr_exp : ℕ

pub data Call : Type 0 where
  lock async_next_endpoint close_layer unlock : Call
  async_wait : (milliseconds : ℕ) → Call
  open_layer replace_next_layer : (sptr : ℕ) → Call
  async_connect : (sptr ep : ℕ) → Call
  completes : Error → Call

pub data Stage : Type 0 where
  on_locked : (s : ℕ) → Stage
  on_next_endpoint on_backoff done unknown : Stage
  on_connect : (sptr : ℕ) (eps : List ℕ) → Stage

pub record Event : Type 0 where
  pub is_open : Bool
  pub ec : Error
  pub found : Answer
  pub eps : List ℕ
  pub noise : ℕ
  pub connect_first : Bool
  pub connect_ec : ErrorCode
  pub timer_ec : Error

abbrev pub Next : Type 0
Next = Stage × Owner × List Call

abbrev pub is_aborted : Error → Bool
is_aborted operation_aborted = true
is_aborted _ = false

abbrev pub is_aborted_code : ErrorCode → Bool
is_aborted_code (io ec) = is_aborted ec
is_aborted_code (client e) = false

abbrev pub is_aborted_lookup : Answer → Bool
is_aborted_lookup lookup_aborted = true
is_aborted_lookup _ = false

abbrev pub complete : Error → Owner → Next
complete ec o = (done, o, unlock ∷ completes ec ∷ [])

-- The back-off belongs to the operation, and so begins anew.
unfoldable pub perform : (s : ℕ) → Owner → Next
perform s o = (on_locked s, record o { curr_exp = 0 }, lock ∷ [])

abbrev pub do_reconnect : Owner → Next
do_reconnect o = (on_next_endpoint, o, async_next_endpoint ∷ [])

unfoldable pub backoff_and_reconnect : ℕ → Owner → Next
backoff_and_reconnect noise o =
    let (milliseconds, next) = generate noise o.curr_exp in
    (on_backoff, record o { curr_exp = next }, async_wait milliseconds ∷ [])

-- `connect`, with `construct_and_open_next_layer`. A successful look-up of the resolver has endpoints.
unfoldable pub connect : List ℕ → Owner → Next
connect [] o = (unknown, o, [])
connect (ep ∷ eps) o = (
  on_connect o.layers (ep ∷ eps),
  record o { layers = o.layers + 1 },
  open_layer o.layers ∷ async_connect o.layers ep ∷ [],
)

unfoldable pub handle_locked : Event → ℕ → Owner → Next
handle_locked e s o =
    if is_aborted e.ec
    then (done, o, completes e.ec ∷ [])
    else (if not e.is_open
        then complete operation_aborted o
        else (if not (s == o.stream_ptr) then complete try_again o else do_reconnect o))

unfoldable pub handle_backoff : Event → Owner → Next
handle_backoff e o =
    if is_aborted e.ec || not e.is_open then complete operation_aborted o else do_reconnect o

abbrev pub looked_up : Answer → ℕ → List ℕ → Owner → Next
looked_up (gives server) noise eps o = connect eps o
looked_up lookup_aborted noise eps o = complete operation_aborted o
looked_up lookup_again noise eps o = backoff_and_reconnect noise o
looked_up host_not_found noise eps o = complete no_recovery o

unfoldable pub handle_next_endpoint : Event → Owner → Next
handle_next_endpoint e o =
    if is_aborted_lookup e.found || not e.is_open
    then complete operation_aborted o
    else looked_up e.found e.noise e.eps o

-- Behind `++eps`, from the endpoint that failed on.
unfoldable pub next_or_reconnect : List ℕ → Owner → Next
next_or_reconnect [] o = do_reconnect o
next_or_reconnect (failed_ep ∷ []) o = do_reconnect o
next_or_reconnect (failed_ep ∷ ep ∷ eps) o = connect (ep ∷ eps) o

unfoldable pub handle_connect : Event → ℕ → List ℕ → Owner → Next
handle_connect e sptr eps o =
    if (e.connect_first && is_aborted_code e.connect_ec)
      || (not e.connect_first && is_aborted e.timer_ec)
      || not e.is_open
    then complete operation_aborted o
    else (if not e.connect_first || refused e.connect_ec then next_or_reconnect eps o else (
      done,
      record o { stream_ptr = sptr },
      close_layer ∷ replace_next_layer sptr ∷ unlock ∷ completes success ∷ [],
    ))

unfoldable pub handle : Event → Stage → Owner → Next
handle e (on_locked s) o = handle_locked e s o
handle e on_next_endpoint o = handle_next_endpoint e o
handle e on_backoff o = handle_backoff e o
handle e (on_connect sptr eps) o = handle_connect e sptr eps o
handle e done o = (done, o, [])
handle e unknown o = (unknown, o, [])

-- The calls under a sequence of events, behind those that were made.
unfoldable pub run : List Event → Next → Next
run [] now = now
run (e ∷ more) (stage, o, calls) =
    let (next, p, made) = handle e stage o in run more (next, p, calls ++ made)
