-- ===== src/Sender/Busy.antt =====
-- The flag of the sender against the writes that its operations start.
use async_mqtt.Base.{
  ◌^◌, ℕ, ◌+◌, ◌%◌, ◌≤◌, ◌≡◌, refl, List, [], ◌∷◌, ◌++◌, ◌==◌, if◌then◌else◌, arith, Bool, true,
  false,
}
use async_mqtt.Replies.{
  Error, success, operation_aborted, try_again, no_recovery, other_error, Replies, Completion,
  async_wait_reply, resend_unanswered, cancel_unanswered, clear_pending_pubrels,
}
use async_mqtt.Sender.Batch.{do_write_cases}
use async_mqtt.Sender.Request.{WriteReq, sort}
use async_mqtt.Sender.{
  Sender, Effect, writes, completes, session_expired, cancels_ping, cancels_stream, Action, sends,
  throttled_done, waits, Outcome, ◌then_do◌, do_write, max_limit, async_send, throttled_op_done,
  act, act_all, completions, completion, cancel_sender, cancel_service, complete_one,
  complete_requests, complete_replies, resend_all, resend, expire_subscriptions, renew_session,
  update_session_state, on_write, receive_limit,
}
use async_mqtt.Base.{map}

abbrev pub bit : Bool → ℕ
bit b = if b then 1 else 0

abbrev pub is_write : Effect → ℕ
is_write (writes rs) = 1
is_write _ = 0

-- How many writes the effects start.
unfoldable pub started : List Effect → ℕ
started [] = 0
started (e ∷ es) = is_write e + started es

started-append : (es fs : List Effect) → started (es ++ fs) ≡ started es + started fs
unfolding started
started-append [] fs = omega arith
started-append (e ∷ es) fs = omega (arith, started-append es fs)

-- The flag after a step says whether a write was under way or was started.
abbrev pub Busy : Sender → Outcome → Type 0
Busy s (t, es) = bit t.write_in_progress ≡ bit s.write_in_progress + started es

pub bit-le : (b : Bool) → bit b ≤ 1
bit-le true = omega arith
bit-le false = omega arith

then-Busy :
    (s : Sender) (o : Outcome) (f : Sender → Outcome)
    → Busy s o
    → Busy o.0 (f o.0)
    → Busy s (o then_do f)
then-Busy s o f b c = omega (arith, started-append o.1 (f o.0).1)

do_write-Busy : (s : Sender) → Busy s (do_write s)
unfolding started
do_write-Busy s =
    do_write_cases (Busy s) s (omega arith) (λ batch kept left e t. rw e (omega arith))

pub async_send-Busy : (r : WriteReq) (s : Sender) → Busy s (async_send r s)
unfolding async_send
async_send-Busy r s = do_write-Busy (record s { write_queue = s.write_queue ++ (r ∷ []) })

pub throttled_op_done-Busy : (s : Sender) → Busy s (throttled_op_done s)
unfolding throttled_op_done started
throttled_op_done-Busy s =
    branch (s.limit == max_limit) (do_write-Busy (record s { quota = (s.quota + 1) % 2 ^ 16 }))
  where
    branch :
        (b : Bool)
        → Busy s (do_write (record s { quota = (s.quota + 1) % 2 ^ 16 }))
        → Busy s (if b then (s, []) else do_write (record s { quota = (s.quota + 1) % 2 ^ 16 }))
    branch true h = omega arith
    branch false h = h

started-completions : (cs : List Completion) → started (map completes cs) ≡ 0
unfolding started
started-completions [] = refl
started-completions (c ∷ cs) = omega (arith, started-completions cs)

act-Busy : (a : Action) (s : Sender) → Busy s (act a s)
unfolding act
act-Busy (sends r) s = async_send-Busy r s
act-Busy throttled_done s = throttled_op_done-Busy s
act-Busy (waits now code pid handler) s =
    omega (arith, started-completions (async_wait_reply now code pid handler s.replies).1)

act_all-Busy : (as' : List Action) (s : Sender) → Busy s (act_all as' s)
unfolding act_all started
act_all-Busy [] s = omega arith
act_all-Busy (a ∷ as') s =
    then-Busy s (act a s) (act_all as') (act-Busy a s) (act_all-Busy as' (act a s).0)

queue_completions :
    (rs : List WriteReq)
    → started (
        map
          (λ (r : WriteReq).
            completes (record {
              handler = r.handler;
              error = operation_aborted;
              packet = [];
              posted = true;
            }))
          rs)
      ≡ 0
unfolding started
queue_completions [] = refl
queue_completions (r ∷ rs) = omega (arith, queue_completions rs)

cancel_sender-Busy : (s : Sender) → Busy s (cancel_sender s)
unfolding cancel_sender
cancel_sender-Busy s = omega (arith, queue_completions s.write_queue)

pub cancel_service-Busy : (s : Sender) → Busy s (cancel_service s)
unfolding cancel_service started
cancel_service-Busy s = branch s.is_open
  where
    r : Replies
    r = (cancel_unanswered s.replies).0

    closed : Outcome
    closed =
        (record s { replies = r; is_open = false }, completions (cancel_unanswered s.replies).1)

    both : Busy s (closed then_do cancel_sender)
    both =
        then-Busy s closed cancel_sender
          (omega (arith, started-completions (cancel_unanswered s.replies).1))
          (cancel_sender-Busy closed.0)

    branch :
        (b : Bool)
        → Busy s (
            if b
            then closed then_do cancel_sender then_do (λ t. (t, cancels_stream ∷ []))
            else (s, []))
    branch true =
        then-Busy s (closed then_do cancel_sender) (λ t. (t, cancels_stream ∷ [])) both
          (omega arith)
    branch false = omega arith

module _ (react : ℕ → Error → List Action) where
  complete_one-Busy :
      (handler : ℕ) (ec : Error) (s : Sender) → Busy s (complete_one react handler ec s)
  unfolding complete_one started
  complete_one-Busy handler ec s =
      then-Busy s (s, completes (completion handler ec) ∷ []) (act_all (react handler ec))
        (omega arith) (act_all-Busy (react handler ec) s)

  complete_requests-Busy :
      (ec : Error) (rs : List WriteReq) (s : Sender) → Busy s (complete_requests react ec rs s)
  unfolding complete_requests started
  complete_requests-Busy ec [] s = omega arith
  complete_requests-Busy ec (r ∷ rs) s =
      then-Busy s (complete_one react r.handler ec s) (complete_requests react ec rs)
        (complete_one-Busy r.handler ec s)
        (complete_requests-Busy ec rs (complete_one react r.handler ec s).0)

  complete_replies-Busy : (cs : List Completion) (s : Sender) → Busy s (complete_replies react cs s)
  unfolding complete_replies started
  complete_replies-Busy [] s = omega arith
  complete_replies-Busy (c ∷ cs) s =
      then-Busy s (complete_one react c.handler c.error s) (complete_replies react cs)
        (complete_one-Busy c.handler c.error s)
        (complete_replies-Busy cs (complete_one react c.handler c.error s).0)

  -- While the flag is set, nothing is written.
  silent : (s : Sender) (o : Outcome) → s.write_in_progress ≡ true → Busy s o → started o.1 ≡ 0
  silent s o e b = ground (arith, bit-le o.0.write_in_progress)

  resend_all-Busy : (s : Sender) → s.write_in_progress ≡ false → Busy s (resend_all react s)
  unfolding resend_all
  resend_all-Busy s e = omega (
    arith,
    quiet,
    started-append answered.1 (final answered.0).1,
    do_write-Busy (rearmed answered.0),
    idle,
  )
    where
      limit : ℕ
      limit = receive_limit react s.receive_maximum

      armed : Sender
      armed = record s {
        write_queue = [];
        write_in_progress = true;
        limit = limit;
        quota = limit;
        replies = (resend_unanswered s.replies).0;
      }

      first : Outcome
      first = complete_replies react (resend_unanswered s.replies).1 armed

      answered : Outcome
      answered = first then_do complete_requests react try_again s.write_queue

      rearmed : Sender → Sender
      rearmed t = record t { write_queue = sort t.write_queue; write_in_progress = false }

      final : Sender → Outcome
      final t = do_write (rearmed t)

      quiet : started answered.1 ≡ 0
      quiet = silent armed answered refl (
          then-Busy armed first (complete_requests react try_again s.write_queue)
            (complete_replies-Busy (resend_unanswered s.replies).1 armed)
            (complete_requests-Busy try_again s.write_queue first.0))

      idle : bit s.write_in_progress ≡ 0
      idle = rw e

  pub resend-Busy : (s : Sender) → Busy s (resend react s)
  unfolding resend started
  resend-Busy s = branch s.write_in_progress refl
    where
      branch :
          (b : Bool) → s.write_in_progress ≡ b → Busy s (if b then (s, []) else resend_all react s)
      branch true e = omega arith
      branch false e = resend_all-Busy s e

  expire-Busy : (s : Sender) → Busy s (expire_subscriptions react s)
  unfolding started
  expire-Busy s = branch s.subscriptions_present
    where
      branch :
          (b : Bool)
          → Busy s (
              if b
              then (record s { subscriptions_present = false }, session_expired ∷ [])
              else (s, []))
      branch true = omega arith
      branch false = omega arith

  renew_session-Busy : (s : Sender) → Busy s (renew_session react s)
  unfolding renew_session
  renew_session-Busy s =
      then-Busy s cleared (λ t. expire_subscriptions react (record t { session_present = true }))
        (complete_replies-Busy (clear_pending_pubrels s.replies).1
          (record s { replies = (clear_pending_pubrels s.replies).0 }))
        (expire-Busy (record (cleared.0) { session_present = true }))
    where
      cleared : Outcome
      cleared =
          complete_replies react (clear_pending_pubrels s.replies).1
            (record s { replies = (clear_pending_pubrels s.replies).0 })

  update_session_state-Busy : (s : Sender) → Busy s (update_session_state react s)
  unfolding update_session_state started
  update_session_state-Busy s = branch s.session_present
    where
      branch :
          (b : Bool)
          → Busy s
              ((if b then (s, []) else renew_session react s) then_do λ t. (t, cancels_ping ∷ []))
      branch true = omega arith
      branch false =
          then-Busy s (renew_session react s) (λ t. (t, cancels_ping ∷ [])) (renew_session-Busy s)
            (omega arith)

  pub on_write-Busy :
      (batch : List WriteReq) (ec : Error) (s : Sender)
      → Busy (record s { write_in_progress = false }) (on_write react batch ec s)
  unfolding on_write
  on_write-Busy batch try_again s =
      let idle = record s { write_in_progress = false } in
      then-Busy idle (update_session_state react idle)
        (λ t. resend react (record t { write_queue = batch ++ t.write_queue }))
        (update_session_state-Busy idle) (resend-Busy _)
  on_write-Busy batch no_recovery s =
      let idle = record s { write_in_progress = false } in
      then-Busy idle (cancel_service idle) (complete_requests react no_recovery batch)
        (cancel_service-Busy idle) (complete_requests-Busy no_recovery batch _)
  on_write-Busy batch operation_aborted s =
      complete_requests-Busy operation_aborted batch (record s { write_in_progress = false })
  on_write-Busy batch success s =
      let idle = record s { write_in_progress = false } in
      then-Busy idle (complete_requests react success batch idle) do_write
        (complete_requests-Busy success batch idle) (do_write-Busy _)
  on_write-Busy batch other_error s =
      let idle = record s { write_in_progress = false } in
      then-Busy idle (complete_requests react other_error batch idle) do_write
        (complete_requests-Busy other_error batch idle) (do_write-Busy _)
