-- ===== src/Reconnect/Rounds.antt =====
-- The endpoints of one look-up, when the attempts fail.
use async_mqtt.Base.{
  ℕ, ◌+◌, Bool, true, false, not, ◌&&◌, ◌||◌, ◌≡◌, ap, ◌∙◌, refl, List, [], ◌∷◌, ◌++◌, append_assoc,
  length, arith,
}
use async_mqtt.Errors.{refused}
use async_mqtt.Reconnect.{
  Owner, Call, open_layer, async_connect, async_next_endpoint, Stage, on_next_endpoint, Event, Next,
  is_aborted, is_aborted_code, connect, next_or_reconnect, handle_connect, handle, run,
}

abbrev pub failing : (is_open connect_first aborted timer_aborted error : Bool) → Bool
failing is_open connect_first aborted timer_aborted error =
    is_open
    && ((not connect_first && not timer_aborted) || (connect_first && (error && not aborted)))

-- An attempt that fails, in time or not, without being cancelled, with the stream open.
abbrev pub fails : Event → Bool
fails e =
    failing e.is_open e.connect_first (is_aborted_code e.connect_ec) (is_aborted e.timer_ec)
      (refused e.connect_ec)

-- As many of them as there are endpoints.
pub data AllFail : List Event → List ℕ → Type 0 where
  none_left : AllFail [] []
  one_fails :
      {e : Event} {events : List Event} {ep : ℕ} {eps : List ℕ}
      → fails e ≡ true
      → AllFail events eps
      → AllFail (e ∷ events) (ep ∷ eps)

-- A new layer for each endpoint, in order.
unfoldable pub attempts : ℕ → List ℕ → List Call
attempts sptr [] = []
attempts sptr (ep ∷ eps) = open_layer sptr ∷ async_connect sptr ep ∷ attempts (sptr + 1) eps

failing_lem :
    (is_open connect_first aborted timer_aborted error : Bool)
    → failing is_open connect_first aborted timer_aborted error ≡ true
    → ((((connect_first && aborted) || (not connect_first && timer_aborted)) || not is_open)
        ≡ false)
      × ((not connect_first || error) ≡ true)
failing_lem true true false t true h = (refl, refl)
failing_lem true false a false r h = (refl, refl)
failing_lem true true true t true h = ground arith
failing_lem true true a t false h = ground arith
failing_lem true false a true r h = ground arith
failing_lem false c a t r h = ground arith

failed_lem :
    (e : Event) (sptr : ℕ) (eps : List ℕ) (o : Owner)
    → fails e ≡ true
    → handle_connect e sptr eps o ≡ next_or_reconnect eps o
unfolding handle_connect
failed_lem e sptr eps o h =
    let (p, q) = failing_lem e.is_open e.connect_first _ _ _ h in rw (p, q) refl

abbrev behind : List Call → Next → Next
behind calls (stage, o, made) = (stage, o, calls ++ made)

run-behind :
    (events : List Event) (stage : Stage) (o : Owner) (calls made : List Call)
    → run events (stage, o, calls ++ made) ≡ behind calls (run events (stage, o, made))
unfolding run
run-behind [] stage o calls made = refl
run-behind (e ∷ events) stage o calls made = rw (append_assoc calls made (handle e stage o).2) (
    run-behind events (handle e stage o).0 (handle e stage o).1 calls
      (made ++ (handle e stage o).2))

-- When every attempt fails, each endpoint of the look-up is tried once, in order and on a layer of its
-- own, and then the next broker is asked for; the current layer stays.
pub run-attempts :
    (ep : ℕ) (eps : List ℕ) (events : List Event) (o : Owner)
    → AllFail events (ep ∷ eps)
    → run events (connect (ep ∷ eps) o) ≡ (
      on_next_endpoint,
      record o { layers = o.layers + length (ep ∷ eps) },
      attempts o.layers (ep ∷ eps) ++ (async_next_endpoint ∷ []),
    )
unfolding run handle connect attempts next_or_reconnect
run-attempts ep [] [] o h = elim h [ ]
run-attempts ep [] (e ∷ f ∷ events) o (one_fails h k) = elim k [ ]
run-attempts ep (ep2 ∷ eps) [] o h = elim h [ ]
run-attempts ep [] (e ∷ []) o (one_fails h k) =
    rw (failed_lem e o.layers (ep ∷ []) (record o { layers = o.layers + 1 }) h) refl
run-attempts ep (ep2 ∷ eps) (e ∷ events) o (one_fails h k) =
    let later : Owner = record o { layers = o.layers + 1 } in
    rw (failed_lem e o.layers (ep ∷ ep2 ∷ eps) later h) (
      run-behind events _ _ (open_layer o.layers ∷ async_connect o.layers ep ∷ []) _
      ∙ ap (behind (open_layer o.layers ∷ async_connect o.layers ep ∷ []))
          (run-attempts ep2 eps events later k)
      ∙ ap
          (λ n. (
            on_next_endpoint,
            record o { layers = n },
            attempts o.layers (ep ∷ ep2 ∷ eps) ++ (async_next_endpoint ∷ []),
          ))
          (omega arith))
