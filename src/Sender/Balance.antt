-- ===== src/Sender/Balance.antt =====
-- The requests and the quota before and after do_write.
use async_mqtt.Base.{
  Option-cases, subst, append-nil, ℕ, ◌+◌, ◌≡◌, ◌≢◌, List, [], ◌∷◌, ◌++◌, All, some, arith, false,
  ◌&&◌, inl, inr,
}
use async_mqtt.Sender.Request.{WriteReq, throttled, terminal}
use async_mqtt.Sender.{Sender, take_terminal, do_write, max_limit}
use async_mqtt.Sender.Batch.{
  once, queued, throttled_in, written, Interleaves, done, takes, keeps, select-Fair, Taken,
  one_terminal, unlimited, limited, do_write_cases,
}

terminal-balance :
    (x : ℕ) (rs : List WriteReq) (t : WriteReq) (kept : List WriteReq)
    → take_terminal rs ≡ some (t, kept)
    → queued x rs ≡ once t.handler x + queued x kept
unfolding take_terminal queued
terminal-balance x [] t kept e = cc
terminal-balance x (r ∷ rs) t kept e = elim (Option-cases (take_terminal rs)) [
  | inl f ↦ ground (arith, f)
  | inr ((t', kept'), f) ↦ ground (arith, f, terminal-balance x rs t' kept' f)
]

queued-append : (x : ℕ) (rs ss : List WriteReq) → queued x (rs ++ ss) ≡ queued x rs + queued x ss
unfolding queued
queued-append x [] ss = omega arith
queued-append x (r ∷ rs) ss = omega (arith, queued-append x rs ss)

interleave-balance :
    (x : ℕ) {rs as' bs : List WriteReq}
    → Interleaves rs as' bs
    → queued x rs ≡ queued x as' + queued x bs
unfolding queued
interleave-balance x done = omega arith
interleave-balance x (takes h) = omega (arith, interleave-balance x h)
interleave-balance x (keeps h) = omega (arith, interleave-balance x h)

Taken-balance :
    (x : ℕ) (s : Sender) {batch kept : List WriteReq} {left : ℕ}
    → Taken s batch kept left
    → queued x kept + queued x batch ≡ queued x s.write_queue
Taken-balance x s (one_terminal t kept e) =
    unfold queued in omega (arith, terminal-balance x s.write_queue t kept e)
Taken-balance x s (unlimited e) = unfold queued in omega arith
Taken-balance x s (limited batch kept left l n e) =
    let fair : Interleaves s.write_queue batch kept =
      subst (λ (p : List WriteReq × List WriteReq × ℕ). Interleaves s.write_queue p.0 p.1) e
        (select-Fair s.quota s.write_queue).order in
    omega (arith, interleave-balance x fair)

-- Every request of the queue is after do_write as often in the queue or in the write that it began
-- as it was in the queue before.
pub do_write_balance :
    (x : ℕ) (s : Sender)
    → queued x (do_write s).0.write_queue + queued x (written (do_write s).1)
      ≡ queued x s.write_queue
unfolding written
do_write_balance x s =
    do_write_cases (λ o. queued x o.0.write_queue + queued x (written o.1) ≡ queued x s.write_queue)
      s (unfold queued in omega arith)
      (λ batch kept left e t. rw (append-nil batch) (Taken-balance x s t))

terminal-throttled :
    (rs : List WriteReq) (t : WriteReq) (kept : List WriteReq)
    → All (λ r. (throttled r && terminal r) ≡ false) rs
    → take_terminal rs ≡ some (t, kept)
    → throttled_in (t ∷ []) ≡ 0
unfolding take_terminal throttled_in
terminal-throttled [] t kept h e = cc
terminal-throttled (r ∷ rs) t kept h e = elim (Option-cases (take_terminal rs)) [
  | inl f ↦ ground (arith, f)
  | inr ((t', kept'), f) ↦ ground (arith, f, terminal-throttled rs t' kept' h.1 f)
]

Taken-quota :
    (s : Sender) {batch kept : List WriteReq} {left : ℕ}
    → s.limit ≢ max_limit
    → All (λ r. (throttled r && terminal r) ≡ false) s.write_queue
    → Taken s batch kept left
    → left + throttled_in batch ≡ s.quota
Taken-quota s l h (one_terminal t kept e) =
    omega (arith, terminal-throttled s.write_queue t kept h e)
Taken-quota s l h (unlimited e) = absurd (l e)
Taken-quota s l h (limited batch kept left _ n e) =
    subst (λ (p : List WriteReq × List WriteReq × ℕ). p.2 + throttled_in p.0 ≡ s.quota) e
      (select-Fair s.quota s.write_queue).spends

-- Under a limit other than 65535, and if no request is both throttled and terminal, the quota falls
-- by the number of the throttled requests in the write that do_write begins.
pub do_write_quota :
    (s : Sender)
    → s.limit ≢ max_limit
    → All (λ r. (throttled r && terminal r) ≡ false) s.write_queue
    → (do_write s).0.quota + throttled_in (written (do_write s).1) ≡ s.quota
unfolding written
do_write_quota s l h =
    do_write_cases (λ o. o.0.quota + throttled_in (written o.1) ≡ s.quota) s
      (unfold throttled_in in omega arith)
      (λ batch kept left e t. rw (append-nil batch) (Taken-quota s l h t))
