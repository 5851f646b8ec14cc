-- ===== src/Tests/Sending.antt =====
-- The replies and the sender at concrete states.
use async_mqtt.Base.{ℕ, ◌+◌, ◌≡◌, ◌≤◌, ◌==◌, if◌then◌else◌, refl, true, false, List, [], ◌∷◌, some}
use async_mqtt.Replies.{
  find_handler, find_fast_reply, Error, success, try_again, Replies, async_wait_reply, dispatch,
  resend_unanswered, cancel_unanswered, clear_pending_pubrels,
}
use async_mqtt.Replies.Laws.{waiting, completed, replies_balance}
use async_mqtt.Replies.Delivery.{reply_delivered}
use async_mqtt.Sender.Request.{WriteReq, serial_lt, sort, less, insert}
use async_mqtt.Sender.{
  Sender, Action, sends, throttled_done, select, do_write, async_send, on_write, take_terminal,
}
use async_mqtt.Sender.Batch.{Fair, select-Fair, queued, written}
use async_mqtt.Sender.Busy.{bit, started}
use async_mqtt.Sender.OneWrite.{Run, begins, runs_send, runs_write, Run-one_write}
use async_mqtt.Sender.Balance.{do_write_balance}

-- One operation waits for PUBACK 3.
abbrev one_waits : Replies
one_waits = record {
  handlers = record { handler = 7; code = 0x40; packet_id = 3; ts = 0 } ∷ [];
  fast_replies = [];
}

replies_balance_example :
    (let (r', done) = async_wait_reply 1 0x40 3 8 one_waits in
      waiting 7 r'.handlers + completed 7 done
      ≡ waiting 7 one_waits.handlers + (if 8 == 7 then 1 else 0))
    × (let (r', done) = dispatch success 0x40 3 (0 ∷ []) one_waits in
        waiting 7 r'.handlers + completed 7 done ≡ waiting 7 one_waits.handlers)
    × (let (r', done) = resend_unanswered one_waits in
        waiting 7 r'.handlers + completed 7 done ≡ waiting 7 one_waits.handlers)
    × (let (r', done) = cancel_unanswered one_waits in
        waiting 7 r'.handlers + completed 7 done ≡ waiting 7 one_waits.handlers)
    × (let (r', done) = clear_pending_pubrels one_waits in
        waiting 7 r'.handlers + completed 7 done ≡ waiting 7 one_waits.handlers)
replies_balance_example = replies_balance 7 1 0x40 3 8 success (0 ∷ []) one_waits

reply_delivered_example :
    (let (early, c) = dispatch success 0x40 4 (0 ∷ []) one_waits in
      (c ≡ [])
      × (async_wait_reply 1 0x40 4 8 early ≡ (
        one_waits,
        record { handler = 8; error = success; packet = 0 ∷ []; posted = true } ∷ [],
      )))
    × (let (later, c) = async_wait_reply 1 0x40 4 8 one_waits in
        (c ≡ [])
        × (dispatch success 0x40 4 (0 ∷ []) later ≡ (
          one_waits,
          record { handler = 8; error = success; packet = 0 ∷ []; posted = false } ∷ [],
        )))
unfolding find_handler find_fast_reply
reply_delivered_example = reply_delivered 1 0x40 4 8 (0 ∷ []) one_waits refl refl

abbrev request : ℕ → ℕ → ℕ → WriteReq
request serial flags handler = record {
  buffer = [];
  serial_num = serial;
  flags = flags;
  handler = handler;
}

-- Two PUBLISH packets, of which the second was sent after the numbers wrapped, and a PUBREL.
abbrev queue : List WriteReq
queue = request 1 1 11 ∷ request 0xFFFF_FFFE 1 12 ∷ request 3 2 13 ∷ []

sorts : sort queue ≡ request 3 2 13 ∷ request 0xFFFF_FFFE 1 12 ∷ request 1 1 11 ∷ []
unfolding sort insert less serial_lt
sorts = refl

select-Fair_example : Fair 1 queue (select 1 queue).0 (select 1 queue).1 (select 1 queue).2
select-Fair_example = select-Fair 1 queue

-- The broker takes two messages at a time, of which one is under way.
abbrev sender : Sender
sender = record {
  write_queue = queue;
  write_in_progress = false;
  limit = 2;
  quota = 1;
  last_serial_num = 3;
  replies = one_waits;
  session_present = true;
  subscriptions_present = false;
  receive_maximum = some 2;
  is_open = true;
}

do_write_balance_example :
    queued 12 (do_write sender).0.write_queue + queued 12 (written (do_write sender).1)
    ≡ queued 12 sender.write_queue
do_write_balance_example = do_write_balance 12 sender

-- A handler that sends again on try_again, as publish_send_op does.
abbrev react : ℕ → Error → List Action
react handler try_again = sends (request 9 1 handler) ∷ []
react handler _ = throttled_done ∷ []

-- A request is sent, and its write ends with try_again.
abbrev sent : Sender
sent = (async_send (request 4 1 14) sender).0

abbrev rewritten : Sender
rewritten = (on_write react (request 1 1 11 ∷ []) try_again sent).0

run : Run react sent 1
unfolding async_send do_write take_terminal select started
run = runs_send (request 4 1 14) (begins sender refl)

Run-one_write_example :
    (0 + started (on_write react (request 1 1 11 ∷ []) try_again sent).1
      ≡ bit rewritten.write_in_progress)
    × (0 + started (on_write react (request 1 1 11 ∷ []) try_again sent).1 ≤ 1)
Run-one_write_example = Run-one_write react (runs_write (request 1 1 11 ∷ []) try_again run)
