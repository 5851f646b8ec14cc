-- ===== src/Sender/OneWrite.antt =====
-- All calls of the sender together, and the writes under way.
use async_mqtt.Base.{ℕ, suc, ◌+◌, ◌≤◌, ◌≡◌, List, arith, false}
use async_mqtt.Replies.{Error}
use async_mqtt.Sender.Request.{WriteReq}
use async_mqtt.Sender.{
  Sender, Action, async_send, throttled_op_done, resend, cancel_service, on_write,
}
use async_mqtt.Sender.Busy.{
  bit, started, bit-le, async_send-Busy, throttled_op_done-Busy, resend-Busy, cancel_service-Busy,
  on_write-Busy,
}

module _ (react : ℕ → Error → List Action) where
  -- A sender and the number of its writes that have begun and not completed: a new sender, and what
  -- any calls of it lead to. A write completes only if one is under way.
  pub data Run : Sender → ℕ → Type 0 where
    begins : (s : Sender) → s.write_in_progress ≡ false → Run s 0
    runs_send :
        {s : Sender} {n : ℕ} (r : WriteReq)
        → Run s n
        → Run (async_send r s).0 (n + started (async_send r s).1)
    runs_done :
        {s : Sender} {n : ℕ}
        → Run s n
        → Run (throttled_op_done s).0 (n + started (throttled_op_done s).1)
    runs_resend :
        {s : Sender} {n : ℕ} → Run s n → Run (resend react s).0 (n + started (resend react s).1)
    runs_cancel :
        {s : Sender} {n : ℕ} → Run s n → Run (cancel_service s).0 (n + started (cancel_service s).1)
    runs_write :
        {s : Sender} {n : ℕ} (batch : List WriteReq) (ec : Error)
        → Run s (suc n)
        → Run (on_write react batch ec s).0 (n + started (on_write react batch ec s).1)

  Run-counts : {s : Sender} {n : ℕ} → Run s n → n ≡ bit s.write_in_progress
  Run-counts (begins s e) = rw e
  Run-counts (runs_send {s} r h) = omega (arith, Run-counts h, async_send-Busy r s)
  Run-counts (runs_done {s} h) = omega (arith, Run-counts h, throttled_op_done-Busy s)
  Run-counts (runs_resend {s} h) = omega (arith, Run-counts h, resend-Busy react s)
  Run-counts (runs_cancel {s} h) = omega (arith, Run-counts h, cancel_service-Busy s)
  Run-counts (runs_write {s} {n} batch ec h) =
      omega (arith, Run-counts h, bit-le s.write_in_progress, on_write-Busy react batch ec s)

  -- Whatever the handlers do, the flag of the sender tells whether a write is under way, and there
  -- are never two.
  pub Run-one_write : {s : Sender} {n : ℕ} → Run s n → (n ≡ bit s.write_in_progress) × (n ≤ 1)
  Run-one_write {s} r = (Run-counts r, omega (arith, Run-counts r, bit-le s.write_in_progress))
