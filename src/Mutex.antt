-- ===== src/Mutex.antt =====
-- include/boost/mqtt5/detail/async_mutex.hpp: the lock that the stream takes for a reconnection.
--
-- A call of lock is known by the number of its handler. An entry of the queue of waiting operations
-- is a handler, or `none` after its cancellation signal took the handler out. The cancellation slot
-- of an operation is cleared when it leaves the queue, so a signal finds its entry by the number.
-- An operation returns the new state and the handlers that it hands to an executor.
pub mod Exclusion
pub mod Order
use async_mqtt.Base.{
  ℕ, Bool, true, false, List, [], ◌∷◌, ◌++◌, ◌==◌, if◌then◌else◌, Option, none, some,
}

pub record Mutex : Type 0 where
  pub locked : Bool
  pub waiting : List (Option ℕ)

pub data Effect : Type 0 where
  -- The handler gets the lock, or operation_aborted.
  grants aborts : ℕ → Effect

-- The constructor.
unfoldable pub new_mutex : Mutex
new_mutex = record { locked = false; waiting = [] }

-- `lock`, which is `execute_or_queue`.
unfoldable pub lock : ℕ → Mutex → Mutex × List Effect
lock h m =
    if m.locked
    then (record m { waiting = m.waiting ++ (some h ∷ []) }, [])
    else (record m { locked = true }, grants h ∷ [])

-- The loop of `unlock`.
unfoldable pub grant_next : Bool → List (Option ℕ) → Mutex × List Effect
grant_next locked [] = (record { locked = false; waiting = [] }, [])
grant_next locked (none ∷ ws) = grant_next locked ws
grant_next locked (some h ∷ ws) = (record { locked = locked; waiting = ws }, grants h ∷ [])

unfoldable pub unlock : Mutex → Mutex × List Effect
unlock m = grant_next m.locked m.waiting

-- The loop of `cancel`.
unfoldable pub abort_all : List (Option ℕ) → List Effect
abort_all [] = []
abort_all (none ∷ ws) = abort_all ws
abort_all (some h ∷ ws) = aborts h ∷ abort_all ws

unfoldable pub cancel : Mutex → Mutex × List Effect
cancel m = (record m { waiting = [] }, abort_all m.waiting)

-- `cancel_waiting_op` of one operation.
unfoldable pub take_out : ℕ → List (Option ℕ) → List (Option ℕ) × List Effect
take_out h [] = ([], [])
take_out h (none ∷ ws) = let (vs, es) = take_out h ws in (none ∷ vs, es)
take_out h (some k ∷ ws) =
    let (vs, es) = take_out h ws in if k == h then (none ∷ ws, aborts k ∷ []) else (some k ∷ vs, es)

unfoldable pub cancel_waiting : ℕ → Mutex → Mutex × List Effect
cancel_waiting h m = let (ws, es) = take_out h m.waiting in (record m { waiting = ws }, es)
