-- ===== src/Reconnect/Lock.antt =====
-- The calls of the operation that connects again, as a step relation around the lock.
use async_mqtt.Base.{
  by_test, arith, ℕ, Bool, true, false, not, ◌&&◌, ◌||◌, ◌≡◌, refl, sym, subst, List, [], ◌∷◌, ◌==◌,
}
use async_mqtt.Base.Paths.{Steps, stop, step, Steps-append}
use async_mqtt.Replies.{Error, success, operation_aborted, try_again, no_recovery, other_error}
use async_mqtt.Errors.{refused}
use async_mqtt.Endpoints.{
  Answer, gives, operation_aborted as lookup_aborted, try_again as lookup_again, host_not_found,
}
use async_mqtt.Reconnect.{
  Owner, Call, lock, async_next_endpoint, close_layer, unlock, async_wait, open_layer,
  replace_next_layer, async_connect, completes, Stage, on_locked, on_next_endpoint, on_backoff,
  done, unknown, on_connect, Event, Next, is_aborted, is_aborted_code, is_aborted_lookup, complete,
  do_reconnect, perform, backoff_and_reconnect, connect, handle_locked, handle_backoff, looked_up,
  handle_next_endpoint, next_or_reconnect, handle_connect, handle, run,
}

-- `asking` is behind the call of lock, `holding` is with the lock, `replaced` behind the new layer,
-- `released` behind the unlock. The first two know whether lock is answered with operation_aborted,
-- which says that the lock was not obtained.
pub data Phase : Type 0 where
  idle asking : (aborted : Bool) → Phase
  holding closed replaced released connected finished : Phase

-- The errors that it completes with.
abbrev pub is_refusal : Error → Bool
is_refusal success = false
is_refusal operation_aborted = true
is_refusal try_again = true
is_refusal no_recovery = true
is_refusal other_error = false

pub data Allowed : Phase → Call → Phase → Type 0 where
  asks : (aborted : Bool) → Allowed (idle aborted) lock (asking aborted)
  not_granted : Allowed (asking true) (completes operation_aborted) finished
  granted : {c : Call} {ph : Phase} → Allowed holding c ph → Allowed (asking false) c ph
  looks_up : Allowed holding async_next_endpoint holding
  waits : (milliseconds : ℕ) → Allowed holding (async_wait milliseconds) holding
  opens : (sptr : ℕ) → Allowed holding (open_layer sptr) holding
  connects : (sptr ep : ℕ) → Allowed holding (async_connect sptr ep) holding
  closes : Allowed holding close_layer closed
  replaces : (sptr : ℕ) → Allowed closed (replace_next_layer sptr) replaced
  unlocks : Allowed replaced unlock connected
  succeeds : Allowed connected (completes success) finished
  gives_up : Allowed holding unlock released
  fails : (ec : Error) → is_refusal ec ≡ true → Allowed released (completes ec) finished

abbrev pub Matches : Stage → Phase → Type 0
Matches (on_locked s) ph = true ≡ false
Matches on_next_endpoint ph = ph ≡ holding
Matches on_backoff ph = ph ≡ holding
Matches (on_connect sptr eps) ph = ph ≡ holding
Matches unknown ph = ph ≡ holding
Matches done ph = ph ≡ finished

pub record Leads (ph : Phase) (next : Next) : Type 0 where
  pub phase : Phase
  pub path : Steps Allowed ph next.2 phase
  pub matches : Matches next.0 phase

moved : {a b : Phase} {next : Next} → a ≡ b → Leads b next → Leads a next
moved {next} m l = subst (λ p. Leads p next) (sym m) l

complete-Leads : (ec : Error) (o : Owner) → is_refusal ec ≡ true → Leads holding (complete ec o)
complete-Leads ec o h = record {
  phase = finished;
  path = step gives_up (step (fails ec h) stop);
  matches = refl;
}

look-Leads : (o : Owner) → Leads holding (do_reconnect o)
look-Leads o = record { phase = holding; path = step looks_up stop; matches = refl }

connect-Leads : (eps : List ℕ) (o : Owner) → Leads holding (connect eps o)
unfolding connect
connect-Leads [] o = record { phase = holding; path = stop; matches = refl }
connect-Leads (ep ∷ eps) o = record {
  phase = holding;
  path = step (opens _) (step (connects _ _) stop);
  matches = refl;
}

backoff-Leads : (noise : ℕ) (o : Owner) → Leads holding (backoff_and_reconnect noise o)
unfolding backoff_and_reconnect
backoff-Leads noise o = record { phase = holding; path = step (waits _) stop; matches = refl }

on_backoff-Leads : (e : Event) (o : Owner) → Leads holding (handle_backoff e o)
unfolding handle_backoff
on_backoff-Leads e o =
    by_test (Leads holding) (is_aborted e.ec || not e.is_open) _ _
      (λ h. complete-Leads operation_aborted o refl) (λ h. look-Leads o)

looked_up-Leads :
    (a : Answer) (noise : ℕ) (eps : List ℕ) (o : Owner) → Leads holding (looked_up a noise eps o)
looked_up-Leads (gives server) noise eps o = connect-Leads eps o
looked_up-Leads lookup_aborted noise eps o = complete-Leads operation_aborted o refl
looked_up-Leads lookup_again noise eps o = backoff-Leads noise o
looked_up-Leads host_not_found noise eps o = complete-Leads no_recovery o refl

next_endpoint-Leads : (e : Event) (o : Owner) → Leads holding (handle_next_endpoint e o)
unfolding handle_next_endpoint
next_endpoint-Leads e o =
    by_test (Leads holding) (is_aborted_lookup e.found || not e.is_open) _ _
      (λ h. complete-Leads operation_aborted o refl) (λ h. looked_up-Leads e.found e.noise e.eps o)

retry-Leads : (eps : List ℕ) (o : Owner) → Leads holding (next_or_reconnect eps o)
unfolding next_or_reconnect
retry-Leads [] o = look-Leads o
retry-Leads (failed_ep ∷ []) o = look-Leads o
retry-Leads (failed_ep ∷ ep ∷ eps) o = connect-Leads (ep ∷ eps) o

on_connect-Leads :
    (e : Event) (sptr : ℕ) (eps : List ℕ) (o : Owner) → Leads holding (handle_connect e sptr eps o)
unfolding handle_connect
on_connect-Leads e sptr eps o =
    by_test (Leads holding)
      ((e.connect_first && is_aborted_code e.connect_ec)
        || (not e.connect_first && is_aborted e.timer_ec)
        || not e.is_open)
      _ _ (λ h. complete-Leads operation_aborted o refl)
      (λ h.
        by_test (Leads holding) (not e.connect_first || refused e.connect_ec) _ _
          (λ k. retry-Leads eps o)
          (λ k. record {
            phase = finished;
            path = step closes (step (replaces sptr) (step unlocks (step succeeds stop)));
            matches = refl;
          }))

granted_path :
    {c : Call} {calls : List Call} {b : Phase}
    → Steps Allowed holding (c ∷ calls) b
    → Steps Allowed (asking false) (c ∷ calls) b
granted_path (step a r) = step (granted a) r

aborted_lem : (ec : Error) → is_aborted ec ≡ true → ec ≡ operation_aborted
aborted_lem success h = ground arith
aborted_lem operation_aborted h = refl
aborted_lem try_again h = ground arith
aborted_lem no_recovery h = ground arith
aborted_lem other_error h = ground arith

asking_Leads :
    {stage : Stage} {o : Owner} {c : Call} {calls : List Call}
    → Leads holding (stage, o, c ∷ calls)
    → Leads (asking false) (stage, o, c ∷ calls)
asking_Leads l = record { phase = l.phase; path = granted_path l.path; matches = l.matches }

locked-Leads :
    (e : Event) (s : ℕ) (o : Owner) (aborted : Bool)
    → is_aborted e.ec ≡ aborted
    → Leads (asking aborted) (handle_locked e s o)
unfolding handle_locked
locked-Leads e s o true h = rw h (record {
  phase = finished;
  path =
      subst (λ ec. Steps Allowed (asking true) (completes ec ∷ []) finished)
        (sym (aborted_lem e.ec h)) (step not_granted stop);
  matches = refl;
})
locked-Leads e s o false h = rw h (
    by_test (Leads (asking false)) (not e.is_open) _ _
      (λ k. asking_Leads (complete-Leads operation_aborted o refl))
      (λ k.
        by_test (Leads (asking false)) (not (s == o.stream_ptr)) _ _
          (λ l. asking_Leads (complete-Leads try_again o refl)) (λ l. asking_Leads (look-Leads o))))

handle-Leads :
    (e : Event) (stage : Stage) (ph : Phase) (o : Owner)
    → Matches stage ph
    → Leads ph (handle e stage o)
unfolding handle
handle-Leads e (on_locked s) ph o m = ground arith
handle-Leads e on_next_endpoint ph o m = moved m (next_endpoint-Leads e o)
handle-Leads e on_backoff ph o m = moved m (on_backoff-Leads e o)
handle-Leads e (on_connect sptr eps) ph o m = moved m (on_connect-Leads e sptr eps o)
handle-Leads e done ph o m = record { phase = ph; path = stop; matches = m }
handle-Leads e unknown ph o m = record { phase = ph; path = stop; matches = m }

run-Leads :
    (events : List Event) (ph : Phase) (now : Next) → Leads ph now → Leads ph (run events now)
unfolding run
run-Leads [] ph now l = l
run-Leads (e ∷ more) ph (stage, o, calls) l =
    let k : Leads l.phase (handle e stage o) = handle-Leads e stage l.phase o l.matches in
    run-Leads more ph _
      (record { phase = k.phase; path = Steps-append _ l.path k.path; matches = k.matches })

-- Under every sequence of events the operation first asks for the lock. When that is answered with
-- operation_aborted, it does not have the lock, and only completes with that. Otherwise it has the
-- lock, and then it is done only behind exactly one unlock, with nothing but the completion behind
-- that: with success only when a new layer has replaced the old one, which was closed before, and else
-- with operation_aborted, try_again or no_recovery.
pub reconnect-Leads :
    (e : Event) (more : List Event) (s : ℕ) (o : Owner)
    → Leads (idle (is_aborted e.ec)) (run (e ∷ more) (perform s o))
unfolding perform run handle
reconnect-Leads e more s o =
    let fresh : Owner = record o { curr_exp = 0 } in
    let l : Leads (asking (is_aborted e.ec)) (handle_locked e s fresh) =
      locked-Leads e s fresh (is_aborted e.ec) refl in
    run-Leads more (idle (is_aborted e.ec)) _
      (record { phase = l.phase; path = step (asks (is_aborted e.ec)) l.path; matches = l.matches })
