-- ===== src/Tests/Locks.antt =====
-- The mutex at concrete states.
use async_mqtt.Base.{◌≡◌, ◌≤◌, ◌⊎◌, refl, true, [], ◌∷◌, arith, none, some, map}
use async_mqtt.Mutex.{Mutex, grants, new_mutex, lock, grant_next, unlock, take_out, cancel_waiting}
use async_mqtt.Mutex.Exclusion.{
  Run, begins, runs_lock, runs_cancel_waiting, granted, held_flag, Run-Exclusive,
}
use async_mqtt.Mutex.Order.{in_line, unlocks, unlocks-in_line}

-- 1 has the lock, 2 was cancelled, 3 waits.
abbrev contended : Mutex
contended = record { locked = true; waiting = none ∷ some 3 ∷ [] }

reached : Run contended 1
unfolding new_mutex lock take_out cancel_waiting granted
reached = runs_cancel_waiting 2 (runs_lock 3 (runs_lock 2 (runs_lock 1 begins)))

Run-Exclusive_example :
    (1 ≡ held_flag contended.locked)
    × (1 ≤ 1)
    × ((contended.locked ≡ true) ⊎ (contended.waiting ≡ []))
Run-Exclusive_example = Run-Exclusive reached

hands_over : unlock contended ≡ (record { locked = true; waiting = [] }, grants 3 ∷ [])
unfolding unlock grant_next
hands_over = refl

unlocks-in_line_example : (unlocks 2 contended).1 ≡ map grants (in_line contended.waiting)
unlocks-in_line_example = unlocks-in_line 2 contended (omega arith)
