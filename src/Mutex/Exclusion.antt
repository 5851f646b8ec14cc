-- ===== src/Mutex/Exclusion.antt =====
-- The calls of the mutex together with those that hold it, and what becomes of every handler.
use async_mqtt.Base.{
  ℕ, suc, ◌+◌, ◌≤◌, ◌≡◌, refl, Bool, true, List, [], ◌∷◌, if◌then◌else◌, Option, none, some, arith,
  ◌⊎◌, inl, inr,
}
use async_mqtt.Mutex.{
  Mutex, Effect, grants, aborts, new_mutex, lock, grant_next, unlock, abort_all, cancel, take_out,
  cancel_waiting,
}

abbrev pub is_grant : Effect → ℕ
is_grant (grants h) = 1
is_grant (aborts h) = 0

-- How many handlers the effects give the lock to.
unfoldable pub granted : List Effect → ℕ
granted [] = 0
granted (e ∷ es) = is_grant e + granted es

-- A mutex and the number of the handlers that were given the lock and have not unlocked: any calls
-- on a new mutex, of which unlock only by a handler that has the lock.
pub data Run : Mutex → ℕ → Type 0 where
  begins : Run new_mutex 0
  runs_lock : {m : Mutex} {n : ℕ} (h : ℕ) → Run m n → Run (lock h m).0 (n + granted (lock h m).1)
  runs_unlock : {m : Mutex} {n : ℕ} → Run m (suc n) → Run (unlock m).0 (n + granted (unlock m).1)
  runs_cancel : {m : Mutex} {n : ℕ} → Run m n → Run (cancel m).0 (n + granted (cancel m).1)
  runs_cancel_waiting :
      {m : Mutex} {n : ℕ} (h : ℕ)
      → Run m n
      → Run (cancel_waiting h m).0 (n + granted (cancel_waiting h m).1)

abbrev pub held_flag : Bool → ℕ
held_flag b = if b then 1 else 0

-- One holder at most, the flag tells whether there is one, and nobody waits if there is none.
abbrev pub Exclusive : Mutex → ℕ → Type 0
Exclusive m n = (n ≡ held_flag m.locked) × (n ≤ 1) × ((m.locked ≡ true) ⊎ (m.waiting ≡ []))

lock-Exclusive :
    (h : ℕ) (m : Mutex) (n : ℕ) → Exclusive m n → Exclusive (lock h m).0 (n + granted (lock h m).1)
unfolding lock granted
lock-Exclusive h m n e = ground (arith, e)

grant_next-Exclusive :
    (b : Bool) (ws : List (Option ℕ)) (n : ℕ)
    → suc n ≡ held_flag b
    → Exclusive (grant_next b ws).0 (n + granted (grant_next b ws).1)
unfolding grant_next granted
grant_next-Exclusive b [] n e = ground (arith, e)
grant_next-Exclusive b (none ∷ ws) n e = grant_next-Exclusive b ws n e
grant_next-Exclusive b (some h ∷ ws) n e = ground (arith, e)

abort_all-grants : (ws : List (Option ℕ)) → granted (abort_all ws) ≡ 0
unfolding abort_all granted
abort_all-grants [] = refl
abort_all-grants (none ∷ ws) = abort_all-grants ws
abort_all-grants (some h ∷ ws) = omega (arith, abort_all-grants ws)

take_out-grants : (h : ℕ) (ws : List (Option ℕ)) → granted (take_out h ws).1 ≡ 0
unfolding take_out granted
take_out-grants h [] = refl
take_out-grants h (none ∷ ws) = take_out-grants h ws
take_out-grants h (some k ∷ ws) = ground (arith, take_out-grants h ws)

take_out_nil :
    (h : ℕ) (ws : List (Option ℕ)) (b : Bool)
    → (b ≡ true) ⊎ (ws ≡ [])
    → (b ≡ true) ⊎ ((take_out h ws).0 ≡ [])
unfolding take_out
take_out_nil h [] b e = inr refl
take_out_nil h (w ∷ ws) b (inl t) = inl t
take_out_nil h (w ∷ ws) b (inr q) = absurd (cc q)

unlock-Exclusive :
    (m : Mutex) (n : ℕ) → Exclusive m (suc n) → Exclusive (unlock m).0 (n + granted (unlock m).1)
unfolding unlock
unlock-Exclusive m n e = grant_next-Exclusive m.locked m.waiting n e.0

cancel-Exclusive :
    (m : Mutex) (n : ℕ) → Exclusive m n → Exclusive (cancel m).0 (n + granted (cancel m).1)
unfolding cancel
cancel-Exclusive m n (e, l, w) =
    let z = abort_all-grants m.waiting in (omega (arith, z, e), omega (arith, z, l), inr refl)

cancel_waiting-Exclusive :
    (h : ℕ) (m : Mutex) (n : ℕ)
    → Exclusive m n
    → Exclusive (cancel_waiting h m).0 (n + granted (cancel_waiting h m).1)
unfolding cancel_waiting
cancel_waiting-Exclusive h m n (e, l, w) =
    let z = take_out-grants h m.waiting in
    (omega (arith, z, e), omega (arith, z, l), take_out_nil h m.waiting m.locked w)

-- In every run at most one handler holds the mutex, `locked` tells whether one does, and while none
-- does no operation waits.
pub Run-Exclusive :
    {m : Mutex} {n : ℕ}
    → Run m n
    → (n ≡ held_flag m.locked) × (n ≤ 1) × ((m.locked ≡ true) ⊎ (m.waiting ≡ []))
Run-Exclusive begins = unfold new_mutex in (refl, omega arith, inr refl)
Run-Exclusive (runs_lock {m} {n} h r) = lock-Exclusive h m n (Run-Exclusive r)
Run-Exclusive (runs_unlock {m} {n} r) = unlock-Exclusive m n (Run-Exclusive r)
Run-Exclusive (runs_cancel {m} {n} r) = cancel-Exclusive m n (Run-Exclusive r)
Run-Exclusive (runs_cancel_waiting {m} {n} h r) = cancel_waiting-Exclusive h m n (Run-Exclusive r)
