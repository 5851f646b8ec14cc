-- ===== src/Reconnect/Layers.antt =====
-- The layers of the operation that connects again: one failure leads to one new layer, and every
-- endpoint of a look-up is tried.
use async_mqtt.Base.{
  ◌==◌, ◌&&◌, by_test, not, sym, Bool-cases, ◌∙◌, ap, ◌≢◌, ℕ, ◌≤◌, ◌<◌, Bool, true, false, ◌||◌,
  ◌≡◌, inl, inr, refl, List, [], ◌∷◌, ◌++◌, arith,
}
use async_mqtt.Replies.{Error, success, operation_aborted, try_again, no_recovery, other_error}
use async_mqtt.Endpoints.{
  Answer, gives, operation_aborted as lookup_aborted, try_again as lookup_again, host_not_found,
}
use async_mqtt.Errors.{refused}
use async_mqtt.Reconnect.{
  is_aborted_code, is_aborted_lookup, is_aborted, perform, looked_up, Event, run, next_or_reconnect,
  handle_next_endpoint, handle_locked, handle_connect, handle_backoff, handle, connect,
  backoff_and_reconnect, Answer, Owner, Call, completes, Stage, on_locked, on_next_endpoint,
  on_backoff, done, unknown, on_connect, Next, complete, do_reconnect,
}

abbrev pub is_success : Call → Bool
is_success (completes success) = true
is_success _ = false

-- Whether a call completes with success.
unfoldable pub succeeded : List Call → Bool
succeeded [] = false
succeeded (c ∷ calls) = is_success c || succeeded calls

succeeded-append : (xs ys : List Call) → succeeded (xs ++ ys) ≡ (succeeded xs || succeeded ys)
unfolding succeeded
succeeded-append [] ys = refl
succeeded-append (c ∷ xs) ys = elim (Bool-cases (is_success c)) [
  | inl h ↦ rw h refl
  | inr h ↦ rw h (succeeded-append xs ys)
]

-- A layer that is being connected is newer than the current one.
abbrev Fresh : Stage → Owner → Type 0
Fresh (on_connect sptr eps) o = (o.stream_ptr < sptr) × (sptr < o.layers)
Fresh (on_locked s) o = o.stream_ptr < o.layers
Fresh on_next_endpoint o = o.stream_ptr < o.layers
Fresh on_backoff o = o.stream_ptr < o.layers
Fresh done o = o.stream_ptr < o.layers
Fresh unknown o = o.stream_ptr < o.layers

-- From a current layer: it is replaced by a newer one when the operation succeeds.
record Newer (ptr : ℕ) (next : Next) : Type 0 where
  pub kept : ptr ≤ next.1.stream_ptr
  pub fresh : Fresh next.0 next.1
  pub replaced : succeeded next.2 ≡ true → ptr < next.1.stream_ptr

quiet :
    (stage : Stage) (o : Owner) (calls : List Call)
    → Fresh stage o
    → succeeded calls ≡ false
    → Newer o.stream_ptr (stage, o, calls)
quiet stage o calls f h = record { kept = omega arith; fresh = f; replaced = λ k. ground arith }

complete-Newer :
    (ec : Error) (o : Owner)
    → o.stream_ptr < o.layers
    → ec ≢ success
    → Newer o.stream_ptr (complete ec o)
unfolding succeeded
complete-Newer success o f n = elim (n refl) [ ]
complete-Newer operation_aborted o f n = quiet _ _ _ f refl
complete-Newer try_again o f n = quiet _ _ _ f refl
complete-Newer no_recovery o f n = quiet _ _ _ f refl
complete-Newer other_error o f n = quiet _ _ _ f refl

look-Newer : (o : Owner) → o.stream_ptr < o.layers → Newer o.stream_ptr (do_reconnect o)
unfolding succeeded
look-Newer o f = quiet on_next_endpoint o _ f refl

connect-Newer :
    (eps : List ℕ) (o : Owner) → o.stream_ptr < o.layers → Newer o.stream_ptr (connect eps o)
unfolding connect succeeded
connect-Newer [] o f = quiet unknown o [] f refl
connect-Newer (ep ∷ eps) o f = record {
  kept = omega arith;
  fresh = (f, omega arith);
  replaced = λ k. ground arith;
}

backoff-Newer :
    (noise : ℕ) (o : Owner)
    → o.stream_ptr < o.layers
    → Newer o.stream_ptr (backoff_and_reconnect noise o)
unfolding backoff_and_reconnect succeeded
backoff-Newer noise o f = record { kept = omega arith; fresh = f; replaced = λ k. ground arith }

looked_up-Newer :
    (a : Answer) (noise : ℕ) (eps : List ℕ) (o : Owner)
    → o.stream_ptr < o.layers
    → Newer o.stream_ptr (looked_up a noise eps o)
looked_up-Newer (gives server) noise eps o f = connect-Newer eps o f
looked_up-Newer lookup_aborted noise eps o f =
    complete-Newer operation_aborted o f (λ e. ground arith)
looked_up-Newer lookup_again noise eps o f = backoff-Newer noise o f
looked_up-Newer host_not_found noise eps o f = complete-Newer no_recovery o f (λ e. ground arith)

retry-Newer :
    (eps : List ℕ) (o : Owner)
    → o.stream_ptr < o.layers
    → Newer o.stream_ptr (next_or_reconnect eps o)
unfolding next_or_reconnect
retry-Newer [] o f = look-Newer o f
retry-Newer (failed_ep ∷ []) o f = look-Newer o f
retry-Newer (failed_ep ∷ ep ∷ eps) o f = connect-Newer (ep ∷ eps) o f

locked-Newer :
    (e : Event) (s : ℕ) (o : Owner)
    → o.stream_ptr < o.layers
    → Newer o.stream_ptr (handle_locked e s o)
unfolding handle_locked succeeded
locked-Newer e s o f =
    by_test (Newer o.stream_ptr) (is_aborted e.ec) _ _ (λ h. aborted-Newer e.ec h)
      (λ h.
        by_test (Newer o.stream_ptr) (not e.is_open) _ _
          (λ k. complete-Newer operation_aborted o f (λ q. ground arith))
          (λ k.
            by_test (Newer o.stream_ptr) (not (s == o.stream_ptr)) _ _
              (λ l. complete-Newer try_again o f (λ q. ground arith)) (λ l. look-Newer o f)))
  where
    aborted-Newer :
        (ec : Error) → is_aborted ec ≡ true → Newer o.stream_ptr (done, o, completes ec ∷ [])
    aborted-Newer success h = ground arith
    aborted-Newer operation_aborted h = record {
      kept = omega arith;
      fresh = f;
      replaced = λ k. ground arith;
    }
    aborted-Newer try_again h = ground arith
    aborted-Newer no_recovery h = ground arith
    aborted-Newer other_error h = ground arith

on_backoff-Newer :
    (e : Event) (o : Owner) → o.stream_ptr < o.layers → Newer o.stream_ptr (handle_backoff e o)
unfolding handle_backoff
on_backoff-Newer e o f =
    by_test (Newer o.stream_ptr) (is_aborted e.ec || not e.is_open) _ _
      (λ h. complete-Newer operation_aborted o f (λ q. ground arith)) (λ h. look-Newer o f)

next_endpoint-Newer :
    (e : Event) (o : Owner)
    → o.stream_ptr < o.layers
    → Newer o.stream_ptr (handle_next_endpoint e o)
unfolding handle_next_endpoint
next_endpoint-Newer e o f =
    by_test (Newer o.stream_ptr) (is_aborted_lookup e.found || not e.is_open) _ _
      (λ h. complete-Newer operation_aborted o f (λ q. ground arith))
      (λ h. looked_up-Newer e.found e.noise e.eps o f)

on_connect-Newer :
    (e : Event) (sptr : ℕ) (eps : List ℕ) (o : Owner)
    → o.stream_ptr < sptr
    → sptr < o.layers
    → Newer o.stream_ptr (handle_connect e sptr eps o)
unfolding handle_connect
on_connect-Newer e sptr eps o f g =
    let below : o.stream_ptr < o.layers = omega arith in
    by_test (Newer o.stream_ptr)
      ((e.connect_first && is_aborted_code e.connect_ec)
        || (not e.connect_first && is_aborted e.timer_ec)
        || not e.is_open)
      _ _ (λ h. complete-Newer operation_aborted o below (λ q. ground arith))
      (λ h.
        by_test (Newer o.stream_ptr) (not e.connect_first || refused e.connect_ec) _ _
          (λ k. retry-Newer eps o below)
          (λ k. record { kept = omega arith; fresh = g; replaced = λ l. f }))

handle-Newer :
    (e : Event) (stage : Stage) (o : Owner) → Fresh stage o → Newer o.stream_ptr (handle e stage o)
unfolding handle succeeded
handle-Newer e (on_locked s) o f = locked-Newer e s o f
handle-Newer e on_next_endpoint o f = next_endpoint-Newer e o f
handle-Newer e on_backoff o f = on_backoff-Newer e o f
handle-Newer e (on_connect sptr eps) o (f, g) = on_connect-Newer e sptr eps o f g
handle-Newer e done o f = quiet done o [] f refl
handle-Newer e unknown o f = quiet unknown o [] f refl

run-Newer :
    (events : List Event) (ptr : ℕ) (now : Next) → Newer ptr now → Newer ptr (run events now)
unfolding run
run-Newer [] ptr now n = n
run-Newer (e ∷ more) ptr (stage, o, calls) n =
    let m : Newer o.stream_ptr (handle e stage o) = handle-Newer e stage o n.fresh in
    run-Newer more ptr _ (joined stage o calls (handle e stage o) n m)
  where
    joined :
        (stage : Stage) (o : Owner) (calls : List Call) (next : Next)
        → Newer ptr (stage, o, calls)
        → Newer o.stream_ptr next
        → Newer ptr (next.0, next.1, calls ++ next.2)
    joined stage o calls next n m =
        let k = n.kept in
        let l = m.kept in
        record {
          kept = omega arith;
          fresh = m.fresh;
          replaced = λ h. elim (Bool-cases (succeeded calls)) [
            | inl q ↦ let r = n.replaced q in omega arith
            | inr q ↦
                let r =
                  m.replaced
                    (sym (succeeded-append calls next.2 ∙ ap (λ b. b || succeeded next.2) q) ∙ h) in
                omega arith
          ];
        }

older_lem : (a b : ℕ) → a < b → (a == b) ≡ false
older_lem a b h = ground arith

-- Where one operation has connected again for a layer with success, another one that waited for the
-- lock with the same layer, gets it with the stream open, gives it back with try_again at once, and
-- makes no second layer.
pub handle_locked-run :
    (events : List Event) (o : Owner) (e : Event)
    → o.stream_ptr < o.layers
    → succeeded (run events (perform o.stream_ptr o)).2 ≡ true
    → is_aborted e.ec ≡ false
    → e.is_open ≡ true
    → handle_locked e o.stream_ptr (run events (perform o.stream_ptr o)).1
      ≡ complete try_again (run events (perform o.stream_ptr o)).1
unfolding handle_locked perform succeeded
handle_locked-run events o e f h a p =
    let n = run-Newer events o.stream_ptr (perform o.stream_ptr o) (quiet _ _ _ f refl) in
    let q = n.replaced h in rw (a, p, older_lem _ _ q) refl
