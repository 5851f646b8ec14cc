-- ===== src/Replies/Laws.antt =====
-- The handlers that wait and the handlers that are completed, counted.
use async_mqtt.Base.{
  Option-cases, ℕ, ◌+◌, ◌≡◌, refl, List, [], ◌∷◌, ◌++◌, ◌==◌, if◌then◌else◌, some, arith,
  Bool-cases, inl, inr,
}
use async_mqtt.Replies.{
  Error, operation_aborted, try_again, ReplyHandler, Replies, Completion, complete, complete_post,
  fits, find_handler, erase_handler, find_fast_reply, drop_duplicate, wait_or_take,
  async_wait_reply, dispatch, resend_unanswered, cancel_unanswered, clear_pubrels_in,
  clear_pending_pubrels,
}
use async_mqtt.Base.{map}

-- How often a handler waits, and how often it is completed.
unfoldable pub waiting : ℕ → List ReplyHandler → ℕ
waiting x [] = 0
waiting x (h ∷ hs) = (if h.handler == x then 1 else 0) + waiting x hs

unfoldable pub completed : ℕ → List Completion → ℕ
completed x [] = 0
completed x (c ∷ cs) = (if c.handler == x then 1 else 0) + completed x cs

waiting-append :
    (x : ℕ) (hs ks : List ReplyHandler) → waiting x (hs ++ ks) ≡ waiting x hs + waiting x ks
unfolding waiting
waiting-append x [] ks = omega arith
waiting-append x (h ∷ hs) ks = omega (arith, waiting-append x hs ks)

completed-append :
    (x : ℕ) (cs ds : List Completion) → completed x (cs ++ ds) ≡ completed x cs + completed x ds
unfolding completed
completed-append x [] ds = omega arith
completed-append x (c ∷ cs) ds = omega (arith, completed-append x cs ds)

completed-map :
    (x : ℕ) (f : ReplyHandler → Completion) (hs : List ReplyHandler)
    → ((h : ReplyHandler) → (f h).handler ≡ h.handler)
    → completed x (map f hs) ≡ waiting x hs
unfolding completed waiting
completed-map x f [] e = refl
completed-map x f (h ∷ hs) e = rw (e h, completed-map x f hs e)

erase-waiting :
    (x code pid : ℕ) (hs : List ReplyHandler) (h : ReplyHandler)
    → find_handler code pid hs ≡ some h
    → waiting x hs ≡ (if h.handler == x then 1 else 0) + waiting x (erase_handler code pid hs)
unfolding find_handler erase_handler waiting
erase-waiting x code pid [] h e = cc
erase-waiting x code pid (k ∷ hs) h e = elim (Bool-cases (fits code pid k)) [
  | inl f ↦ ground (arith, f)
  | inr f ↦ ground (arith, f, erase-waiting x code pid hs h)
]

-- The balance of an operation: what waited, and what came in, waits or is completed.
abbrev Balances : ℕ → ℕ → Replies → Replies × List Completion → Type 0
Balances x new r (r', done) = waiting x r'.handlers + completed x done ≡ waiting x r.handlers + new

abbrev once : ℕ → ℕ → ℕ
once handler x = if handler == x then 1 else 0

drop-Balances : (x code pid : ℕ) (r : Replies) → Balances x 0 r (drop_duplicate code pid r)
unfolding drop_duplicate completed
drop-Balances x code pid r = elim (Option-cases (find_handler code pid r.handlers)) [
  | inl e ↦ rw (e, drop_duplicate) (omega arith)
  | inr (h, e) ↦ rw (e, drop_duplicate) (omega (arith, erase-waiting x code pid r.handlers h e))
]

wait-Balances :
    (x now code pid handler : ℕ) (r : Replies)
    → Balances x (once handler x) r (wait_or_take now code pid handler r)
unfolding wait_or_take completed waiting
wait-Balances x now code pid handler r =
    elim (Option-cases (find_fast_reply code pid r.fast_replies)) [
      | inl e ↦
          rw (e, wait_or_take)
            (omega (
              arith,
              waiting-append x r.handlers
                  (record { handler = handler; code = code; packet_id = pid; ts = now } ∷ []),
            ))
      | inr (f, e) ↦ rw (e, wait_or_take) (omega arith)
    ]

async_wait-Balances :
    (x now code pid handler : ℕ) (r : Replies)
    → Balances x (once handler x) r (async_wait_reply now code pid handler r)
unfolding async_wait_reply
async_wait-Balances x now code pid handler r = omega (
  arith,
  drop-Balances x code pid r,
  wait-Balances x now code pid handler (drop_duplicate code pid r).0,
  completed-append x (drop_duplicate code pid r).1
      (wait_or_take now code pid handler (drop_duplicate code pid r).0).1,
)

dispatch-Balances :
    (x : ℕ) (ec : Error) (code pid : ℕ) (packet : List ℕ) (r : Replies)
    → Balances x 0 r (dispatch ec code pid packet r)
unfolding dispatch completed
dispatch-Balances x ec code pid packet r = elim (Option-cases (find_handler code pid r.handlers)) [
  | inl e ↦ rw (e, dispatch) (omega arith)
  | inr (h, e) ↦ rw (e, dispatch) (omega (arith, erase-waiting x code pid r.handlers h e))
]

pubrels-balance :
    (x : ℕ) (hs : List ReplyHandler)
    → waiting x (clear_pubrels_in hs).0 + completed x (clear_pubrels_in hs).1 ≡ waiting x hs
unfolding clear_pubrels_in waiting completed
pubrels-balance x [] = omega arith
pubrels-balance x (h ∷ hs) = ground (arith, pubrels-balance x hs)

-- For every handler the number of its waits and of its completions after async_wait_reply is that
-- before, and one more if it is the one handed in; after dispatch, resend_unanswered,
-- cancel_unanswered and clear_pending_pubrels it is that before.
pub replies_balance :
    (x now code pid handler : ℕ) (ec : Error) (packet : List ℕ) (r : Replies)
    → (let (r', done) = async_wait_reply now code pid handler r in
        waiting x r'.handlers + completed x done
        ≡ waiting x r.handlers + (if handler == x then 1 else 0))
      × (let (r', done) = dispatch ec code pid packet r in
          waiting x r'.handlers + completed x done ≡ waiting x r.handlers)
      × (let (r', done) = resend_unanswered r in
          waiting x r'.handlers + completed x done ≡ waiting x r.handlers)
      × (let (r', done) = cancel_unanswered r in
          waiting x r'.handlers + completed x done ≡ waiting x r.handlers)
      × (let (r', done) = clear_pending_pubrels r in
          waiting x r'.handlers + completed x done ≡ waiting x r.handlers)
unfolding resend_unanswered cancel_unanswered clear_pending_pubrels waiting
replies_balance x now code pid handler ec packet r = (
  async_wait-Balances x now code pid handler r,
  omega (arith, dispatch-Balances x ec code pid packet r),
  omega (arith, completed-map x (complete try_again []) r.handlers (λ h. refl)),
  omega (arith, completed-map x (complete_post operation_aborted) r.handlers (λ h. refl)),
  pubrels-balance x r.handlers,
)
