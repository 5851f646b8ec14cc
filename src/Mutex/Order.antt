-- ===== src/Mutex/Order.antt =====
-- The order in which the mutex is handed on, and the handlers that wait and that are run, counted.
use async_mqtt.Base.{
  ℕ, zero, suc, ◌+◌, ◌≤◌, ◌≡◌, refl, Bool, false, List, [], ◌∷◌, ◌++◌, ◌==◌, if◌then◌else◌, Option,
  none, some, arith, length, map, ap,
}
use async_mqtt.Mutex.{
  Mutex, Effect, grants, aborts, lock, grant_next, unlock, abort_all, cancel, take_out,
  cancel_waiting,
}

-- The handlers that wait, the first one first.
unfoldable pub in_line : List (Option ℕ) → List ℕ
in_line [] = []
in_line (none ∷ ws) = in_line ws
in_line (some h ∷ ws) = h ∷ in_line ws

-- That many calls of unlock one after another.
unfoldable pub unlocks : ℕ → Mutex → Mutex × List Effect
unlocks zero m = (m, [])
unlocks (suc n) m = let (t, es) = unlock m in let (u, fs) = unlocks n t in (u, es ++ fs)

idle_unlocks : (n : ℕ) (b : Bool) → (unlocks n (record { locked = b; waiting = [] })).1 ≡ []
unfolding unlocks unlock grant_next
idle_unlocks zero b = refl
idle_unlocks (suc n) b = idle_unlocks n false

waiting_unlocks :
    (n : ℕ) (b : Bool) (ws : List (Option ℕ))
    → length ws ≤ n
    → (unlocks n (record { locked = b; waiting = ws })).1 ≡ map grants (in_line ws)
unfolding unlocks unlock grant_next in_line
waiting_unlocks n b [] h = idle_unlocks n b
waiting_unlocks zero b (w ∷ ws) h = absurd (omega (arith, h))
waiting_unlocks (suc n) b (none ∷ ws) h = waiting_unlocks (suc n) b ws (omega (arith, h))
waiting_unlocks (suc n) b (some k ∷ ws) h =
    ap (◌∷◌ (grants k)) (waiting_unlocks n b ws (omega (arith, h)))

-- As many calls of unlock as there are entries in the queue, or more, give the lock to all the
-- handlers that wait, in the order in which they came, and to nobody else.
pub unlocks-in_line :
    (n : ℕ) (m : Mutex) → length m.waiting ≤ n → (unlocks n m).1 ≡ map grants (in_line m.waiting)
unlocks-in_line n m h = waiting_unlocks n m.locked m.waiting h

abbrev hit : ℕ → ℕ → ℕ
hit x h = if h == x then 1 else 0

abbrev pub handler_of : Effect → ℕ
handler_of (grants h) = h
handler_of (aborts h) = h

-- How often a handler waits, and how often it is run.
unfoldable pub queued : ℕ → List (Option ℕ) → ℕ
queued x [] = 0
queued x (none ∷ ws) = queued x ws
queued x (some h ∷ ws) = (if h == x then 1 else 0) + queued x ws

unfoldable pub executed : ℕ → List Effect → ℕ
executed x [] = 0
executed x (e ∷ es) = (if handler_of e == x then 1 else 0) + executed x es

queued-last :
    (x h : ℕ) (ws : List (Option ℕ)) → queued x (ws ++ (some h ∷ [])) ≡ queued x ws + hit x h
unfolding queued
queued-last x h [] = omega arith
queued-last x h (none ∷ ws) = queued-last x h ws
queued-last x h (some k ∷ ws) = omega (arith, queued-last x h ws)

grant-balance :
    (x : ℕ) (b : Bool) (ws : List (Option ℕ))
    → queued x (grant_next b ws).0.waiting + executed x (grant_next b ws).1 ≡ queued x ws
unfolding queued executed grant_next
grant-balance x b [] = refl
grant-balance x b (none ∷ ws) = grant-balance x b ws
grant-balance x b (some k ∷ ws) = omega arith

abort-balance : (x : ℕ) (ws : List (Option ℕ)) → executed x (abort_all ws) ≡ queued x ws
unfolding queued executed abort_all
abort-balance x [] = refl
abort-balance x (none ∷ ws) = abort-balance x ws
abort-balance x (some k ∷ ws) = omega (arith, abort-balance x ws)

take_out-balance :
    (x h : ℕ) (ws : List (Option ℕ))
    → queued x (take_out h ws).0 + executed x (take_out h ws).1 ≡ queued x ws
unfolding queued executed take_out
take_out-balance x h [] = refl
take_out-balance x h (none ∷ ws) = take_out-balance x h ws
take_out-balance x h (some k ∷ ws) = ground (arith, take_out-balance x h ws)

-- For every handler the number of its waits and of its runs after lock is that before, and one more
-- if it is the one handed in; after unlock, cancel and the cancellation of one operation it is that
-- before.
pub mutex_balance :
    (x h : ℕ) (m : Mutex)
    → (let (t, es) = lock h m in
        queued x t.waiting + executed x es ≡ queued x m.waiting + (if h == x then 1 else 0))
      × (let (t, es) = unlock m in queued x t.waiting + executed x es ≡ queued x m.waiting)
      × (let (t, es) = cancel m in queued x t.waiting + executed x es ≡ queued x m.waiting)
      × (let (t, es) = cancel_waiting h m in
          queued x t.waiting + executed x es ≡ queued x m.waiting)
unfolding lock unlock cancel cancel_waiting queued executed
mutex_balance x h m = (
  ground (arith, queued-last x h m.waiting),
  grant-balance x m.locked m.waiting,
  omega (arith, abort-balance x m.waiting),
  take_out-balance x h m.waiting,
)
