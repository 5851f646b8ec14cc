-- ===== src/Sender.antt =====
-- include/boost/mqtt5/impl/async_sender.hpp, with the parts of client_service.hpp that it calls.
--
-- The state is the sender's, the replies, the flags of session_state, the Receive Maximum of the
-- last CONNACK and whether the stream is open. An operation returns the new state and its effects
-- in order. A completion handler is a number. What the operation behind it does before it returns,
-- when it is completed with an error code, is the argument `react`: it may send again, report that
-- a throttled operation is done, and wait for a reply. A posted completion runs later, and is an
-- effect only.
pub mod Request
pub mod Order
pub mod Batch
pub mod Busy
pub mod OneWrite
pub mod Balance
use async_mqtt.Base.{
  ℕ, ◌+◌, ◌-◌, ◌%◌, ◌^◌, Bool, true, false, not, ◌&&◌, ◌||◌, List, [], ◌∷◌, ◌++◌, map, ltb, ◌==◌,
  if◌then◌else◌, Option, none, some,
}
use async_mqtt.Replies.{
  Error, success, operation_aborted, try_again, no_recovery, other_error, Replies, Completion,
  async_wait_reply, resend_unanswered, cancel_unanswered, clear_fast_replies, clear_pending_pubrels,
}
use Request.{WriteReq, throttled, terminal, sort, next_serial_num}

pub record Sender : Type 0 where
  pub write_queue : List WriteReq
  pub write_in_progress : Bool
  pub limit : ℕ
  pub quota : ℕ
  pub last_serial_num : ℕ
  pub replies : Replies
  pub session_present : Bool
  pub subscriptions_present : Bool
  pub receive_maximum : Option ℕ
  pub is_open : Bool

pub data Effect : Type 0 where
  -- `_stream.async_write` of these requests.
  writes : List WriteReq → Effect
  completes : Completion → Effect
  session_expired cancels_ping cancels_stream : Effect

pub data Action : Type 0 where
  sends : WriteReq → Action
  throttled_done : Action
  waits : ℕ → ℕ → ℕ → ℕ → Action

abbrev pub max_limit : ℕ
max_limit = 65535

abbrev pub Outcome : Type 0
Outcome = Sender × List Effect

-- One step after another.
infixl 5 ◌then_do◌
abbrev pub ◌then_do◌ : Outcome → (Sender → Outcome) → Outcome
◌then_do◌ (s, es) f = let (t, fs) = f s in (t, es ++ fs)

unfoldable pub next_serial : Sender → Sender × ℕ
next_serial s = let n = next_serial_num s.last_serial_num in (record s { last_serial_num = n }, n)

abbrev pub keep_before :
    WriteReq → Option (WriteReq × List WriteReq) → Option (WriteReq × List WriteReq)
keep_before r none = none
keep_before r (some (t, kept)) = some (t, r ∷ kept)

-- The first terminal request, and the queue without it.
unfoldable pub take_terminal : List WriteReq → Option (WriteReq × List WriteReq)
take_terminal [] = none
take_terminal (r ∷ rs) =
    let rest = take_terminal rs in if terminal r then some (r, rs) else keep_before r rest

-- The loop over the queue under a limit: what is written, what is kept, and the quota left.
unfoldable pub select : ℕ → List WriteReq → List WriteReq × List WriteReq × ℕ
select quota [] = ([], [], quota)
select quota (r ∷ rs) =
    let takes = not (throttled r) || ltb 0 quota in
    let (batch, kept, left) = select (if throttled r && ltb 0 quota then quota - 1 else quota) rs in
    if takes then (r ∷ batch, kept, left) else (batch, r ∷ kept, left)

-- `_svc._stream.async_write` with the flag set before it and the fast replies cleared.
abbrev pub begin_write : List WriteReq → List WriteReq → ℕ → Sender → Outcome
begin_write batch kept left s = (
  record s {
    write_queue = kept;
    write_in_progress = true;
    quota = left;
    replies = clear_fast_replies s.replies;
  },
  writes batch ∷ [],
)

abbrev pub write_selected : List WriteReq × List WriteReq × ℕ → Sender → Outcome
write_selected ([], kept, left) s = (s, [])
write_selected (r ∷ batch, kept, left) s = begin_write (r ∷ batch) kept left s

-- With a limit other than MAX_LIMIT the throttled requests spend the quota.
abbrev pub write_limited : Bool → List WriteReq → Sender → Outcome
write_limited true queue s = begin_write queue [] s.quota s
write_limited false queue s = write_selected (select s.quota queue) s

-- A terminal request goes alone.
abbrev pub write_taken : Option (WriteReq × List WriteReq) → List WriteReq → Sender → Outcome
write_taken (some (t, kept)) queue s = begin_write (t ∷ []) kept s.quota s
write_taken none queue s = write_limited (s.limit == max_limit) queue s

abbrev pub write_queue_of : List WriteReq → Sender → Outcome
write_queue_of [] s = (s, [])
write_queue_of (r ∷ rs) s = write_taken (take_terminal (r ∷ rs)) (r ∷ rs) s

abbrev pub write_unless : Bool → Sender → Outcome
write_unless true s = (s, [])
write_unless false s = write_queue_of s.write_queue s

unfoldable pub do_write : Sender → Outcome
do_write s = write_unless s.write_in_progress s

unfoldable pub async_send : WriteReq → Sender → Outcome
async_send r s = do_write (record s { write_queue = s.write_queue ++ (r ∷ []) })

-- `++_quota` is on a uint16_t.
unfoldable pub throttled_op_done : Sender → Outcome
throttled_op_done s =
    if s.limit == max_limit then (s, []) else do_write (record s { quota = (s.quota + 1) % 2 ^ 16 })

abbrev pub completions : List Completion → List Effect
completions = map completes

unfoldable pub act : Action → Sender → Outcome
act (sends r) s = async_send r s
act throttled_done s = throttled_op_done s
act (waits now code pid handler) s =
    let (r, done) = async_wait_reply now code pid handler s.replies in
    (record s { replies = r }, completions done)

unfoldable pub act_all : List Action → Sender → Outcome
act_all [] s = (s, [])
act_all (a ∷ as') s = act a s then_do act_all as'

abbrev pub completion : ℕ → Error → Completion
completion handler ec = record { handler = handler; error = ec; packet = []; posted = false }

-- `async_sender::cancel`
unfoldable pub cancel_sender : Sender → Outcome
cancel_sender s = (
  record s { write_queue = [] },
  map
      (λ (r : WriteReq).
        completes
          (record { handler = r.handler; error = operation_aborted; packet = []; posted = true }))
      s.write_queue,
)

-- `client_service::cancel`; the timers and the channel are not part of the state.
unfoldable pub cancel_service : Sender → Outcome
cancel_service s =
    if s.is_open
    then (let (r, done) = cancel_unanswered s.replies in
        (record s { replies = r; is_open = false }, completions done)
        then_do cancel_sender
        then_do λ t. (t, cancels_stream ∷ []))
    else (s, [])

module _ (react : ℕ → Error → List Action) where
  -- A handler that is completed at once acts before the next step.
  unfoldable pub complete_one : ℕ → Error → Sender → Outcome
  complete_one handler ec s =
      (s, completes (completion handler ec) ∷ []) then_do act_all (react handler ec)

  unfoldable pub complete_requests : Error → List WriteReq → Sender → Outcome
  complete_requests ec [] s = (s, [])
  complete_requests ec (r ∷ rs) s = complete_one r.handler ec s then_do complete_requests ec rs

  unfoldable pub complete_replies : List Completion → Sender → Outcome
  complete_replies [] s = (s, [])
  complete_replies (c ∷ cs) s = complete_one c.handler c.error s then_do complete_replies cs

  -- The part of `resend` behind its guard. `value_or(MAX_LIMIT)` is the Receive Maximum.
  abbrev pub receive_limit : Option ℕ → ℕ
  receive_limit none = max_limit
  receive_limit (some n) = n

  unfoldable pub resend_all : Sender → Outcome
  resend_all s =
      let new_limit = receive_limit s.receive_maximum in
      let (r, unanswered) = resend_unanswered s.replies in
      complete_replies unanswered (record s {
        write_queue = [];
        write_in_progress = true;
        limit = new_limit;
        quota = new_limit;
        replies = r;
      })
      then_do complete_requests try_again s.write_queue
      then_do λ t.
          do_write (record t { write_queue = sort t.write_queue; write_in_progress = false })

  unfoldable pub resend : Sender → Outcome
  resend s = if s.write_in_progress then (s, []) else resend_all s

  -- `client_service::update_session_state`
  abbrev pub expire_subscriptions : Sender → Outcome
  expire_subscriptions s =
      if s.subscriptions_present
      then (record s { subscriptions_present = false }, session_expired ∷ [])
      else (s, [])

  unfoldable pub renew_session : Sender → Outcome
  renew_session s =
      let (r, done) = clear_pending_pubrels s.replies in
      complete_replies done (record s { replies = r }) then_do λ t.
      expire_subscriptions (record t { session_present = true })

  unfoldable pub update_session_state : Sender → Outcome
  update_session_state s =
      (if s.session_present then (s, []) else renew_session s) then_do λ t. (t, cancels_ping ∷ [])

  -- The completion of a write.
  unfoldable pub on_write : List WriteReq → Error → Sender → Outcome
  on_write batch try_again s =
      update_session_state (record s { write_in_progress = false }) then_do λ t.
      resend (record t { write_queue = batch ++ t.write_queue })
  on_write batch no_recovery s =
      cancel_service (record s { write_in_progress = false })
      then_do complete_requests no_recovery batch
  on_write batch operation_aborted s =
      complete_requests operation_aborted batch (record s { write_in_progress = false })
  on_write batch success s =
      complete_requests success batch (record s { write_in_progress = false }) then_do do_write
  on_write batch other_error s =
      complete_requests other_error batch (record s { write_in_progress = false }) then_do do_write
