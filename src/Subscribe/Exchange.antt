-- ===== src/Subscribe/Exchange.antt =====
-- What an exchange of subscribe_op or unsubscribe_op does, whatever is answered to it.
use async_mqtt.Base.{
  ℕ, zero, suc, Bool, true, false, not, ◌&&◌, Bool-cases, inl, inr, ◌⊎◌, ◌≡◌, refl, sym, ap, ◌∙◌,
  subst, List, [], ◌∷◌, ◌++◌, append_assoc, append-nil, All, All-append, length, ◌==◌, ==→eq, arith,
  Option, none, some,
}
use async_mqtt.Codec.Cursor.{Res, ok, fail, fault}
use async_mqtt.Codec.Property.{Prop}
use async_mqtt.ControlPacket.{ControlPacket}
use async_mqtt.ReasonCodes.{ReasonCode}
use async_mqtt.Errors.{is_try_again, failed, ErrorCode}
use async_mqtt.Operation.{
  Effect, async_send, async_wait_reply, async_disconnect, free_pid, session_subscriptions,
  completes,
}
use async_mqtt.Subscribe.{
  Result, Stage, on_subscribe, on_suback, done, unknown, Next, Kind, Answer, empties, any_success,
  session_note, complete_with, complete, send_subscribe, resend_subscribe, handle_subscribe,
  malformed, codes_read, suback_read, handle_suback, handle, run,
}

module _ (kind : Kind) (num_topics : ℕ) (p : ControlPacket) where
  -- The calls of an exchange that is not over.
  pub data Quiet : Effect Result → Type 0 where
    sends : Quiet (async_send p.packet 0 0)
    waits : Quiet (async_wait_reply kind.code p.packet_id)
    disconnects : Quiet (async_disconnect 0x81)

  -- The calls that end it: the note that the session takes, only if there is a success among the
  -- codes, the identifier, and a code for each topic.
  pub record Ends (es : List (Effect Result)) : Type 0 where
    pub front : List (Effect Result)
    pub quiet : All Quiet front
    pub note : List (Effect Result)
    pub ec : ErrorCode
    pub rcs : List ReasonCode
    pub props : List Prop
    pub parts :
        es ≡ front ++ (note ++ (free_pid p.packet_id false ∷ completes false ec (rcs, props) ∷ []))
    pub noted : (note ≡ []) ⊎ ((note ≡ session_subscriptions true ∷ []) × (any_success rcs ≡ true))
    pub counted : length rcs ≡ num_topics

  unfoldable pub Trace : Next → Type 0
  Trace (on_subscribe q, es) = (q ≡ p) × All Quiet es
  Trace (on_suback q, es) = (q ≡ p) × All Quiet es
  Trace (done, es) = Ends es
  Trace (unknown, es) = All Quiet es

  Trace-behind :
      (es : List (Effect Result)) (stage : Stage) (ds : List (Effect Result))
      → All Quiet es
      → Trace (stage, ds)
      → Trace (stage, es ++ ds)
  unfolding Trace
  Trace-behind es (on_subscribe q) ds h (e, k) = (e, All-append Quiet es ds h k)
  Trace-behind es (on_suback q) ds h (e, k) = (e, All-append Quiet es ds h k)
  Trace-behind es unknown ds h k = All-append Quiet es ds h k
  Trace-behind es done ds h k = record {
    front = es ++ k.front;
    quiet = All-append Quiet es k.front h k.quiet;
    note = k.note;
    ec = k.ec;
    rcs = k.rcs;
    props = k.props;
    parts = ap (◌++◌ es) k.parts ∙ sym (append_assoc es k.front _);
    noted = k.noted;
    counted = k.counted;
  }

  length-empties : (n : ℕ) → length (empties n) ≡ n
  length-empties zero = refl
  length-empties (suc n) = ap suc (length-empties n)

  session_note_lem :
      (present : Bool) (rcs : List ReasonCode)
      → (session_note kind num_topics present rcs ≡ [])
        ⊎ ((session_note kind num_topics present rcs ≡ session_subscriptions true ∷ [])
            × (any_success rcs ≡ true))
  session_note_lem present rcs =
      elim (Bool-cases (kind.notes_session && (not present && any_success rcs))) [
        | inl h ↦ inr (rw h refl, ground arith)
        | inr h ↦ inl (rw h refl)
      ]

  with-Trace :
      (present : Bool) (ec : ErrorCode) (rcs : List ReasonCode) (props : List Prop)
      → length rcs ≡ num_topics
      → Trace (complete_with kind num_topics present ec p.packet_id rcs props)
  unfolding Trace
  with-Trace present ec rcs props h = record {
    front = [];
    quiet = tt;
    note = session_note kind num_topics present rcs;
    ec = ec;
    rcs = rcs;
    props = props;
    parts = refl;
    noted = session_note_lem present rcs;
    counted = h;
  }

  complete-Trace :
      (present : Bool) (ec : ErrorCode) (rcs : List ReasonCode) (props : List Prop)
      → (rcs ≡ []) ⊎ (length rcs ≡ num_topics)
      → Trace (complete kind num_topics present ec p.packet_id rcs props)
  unfolding complete
  complete-Trace present ec [] props h = with-Trace present ec _ props (length-empties num_topics)
  complete-Trace present ec (rc ∷ rcs) props (inl e) = ground arith
  complete-Trace present ec (rc ∷ rcs) props (inr e) = with-Trace present ec (rc ∷ rcs) props e

  resend-Trace : (a : Answer) → Trace (resend_subscribe kind num_topics a p)
  unfolding resend_subscribe
  resend-Trace a = elim (Bool-cases a.cancelled) [
    | inl h ↦ rw h (complete-Trace _ _ [] _ (inl refl))
    | inr h ↦ rw h (unfold Trace in (refl, (sends, tt)))
  ]

  malformed-Trace : (a : Answer) → Trace (malformed kind num_topics a p)
  malformed-Trace a =
      Trace-behind (async_disconnect 0x81 ∷ []) _ _ (disconnects, tt) (resend-Trace a)

  codes_read-Trace :
      (a : Answer) (props : List Prop) (o : Option (List ReasonCode))
      → Trace (codes_read kind num_topics a p props o)
  codes_read-Trace a props none = unfold Trace in tt
  codes_read-Trace a props (some rcs) = elim (Bool-cases (length rcs == num_topics)) [
    | inl h ↦ rw h (complete-Trace _ _ rcs _ (inr (==→eq _ _ h)))
    | inr h ↦ rw h (malformed-Trace a)
  ]

  suback_read-Trace :
      (a : Answer) (r : Res (List Prop × List ℕ)) → Trace (suback_read kind num_topics a p r)
  suback_read-Trace a (ok (props, codes) rest) = codes_read-Trace a props _
  suback_read-Trace a fail = malformed-Trace a
  suback_read-Trace a fault = unfold Trace in tt

  subscribe-Trace : (a : Answer) → Trace (handle_subscribe kind num_topics a p)
  unfolding handle_subscribe
  subscribe-Trace a = elim (Bool-cases (is_try_again a.ec)) [
    | inl h ↦ rw h (resend-Trace a)
    | inr h ↦ elim (Bool-cases (failed a.ec)) [
      | inl k ↦ rw (h, k) (complete-Trace _ _ [] _ (inl refl))
      | inr k ↦ rw (h, k) (unfold Trace in (refl, (waits, tt)))
    ]
  ]

  suback-Trace : (a : Answer) → Trace (handle_suback kind num_topics a p)
  unfolding handle_suback
  suback-Trace a = elim (Bool-cases (is_try_again a.ec)) [
    | inl h ↦ rw h (resend-Trace a)
    | inr h ↦ elim (Bool-cases (failed a.ec)) [
      | inl k ↦ rw (h, k) (complete-Trace _ _ [] _ (inl refl))
      | inr k ↦ rw (h, k) (suback_read-Trace a _)
    ]
  ]

  run_from :
      (answers : List Answer) (stage : Stage) (calls : List (Effect Result))
      → Trace (stage, calls)
      → Trace (run kind num_topics answers (stage, calls))
  unfolding run handle Trace
  run_from [] stage calls h = h
  run_from (a ∷ more) (on_subscribe q) calls (e, h) = run_from more _ _ (
      subst
        (λ (x : ControlPacket). Trace (
          (handle_subscribe kind num_topics a x).0,
          calls ++ (handle_subscribe kind num_topics a x).1,
        ))
        (sym e) (Trace-behind calls _ _ h (subscribe-Trace a)))
  run_from (a ∷ more) (on_suback q) calls (e, h) = run_from more _ _ (
      subst
        (λ (x : ControlPacket).
          Trace
            ((handle_suback kind num_topics a x).0, calls ++ (handle_suback kind num_topics a x).1))
        (sym e) (Trace-behind calls _ _ h (suback-Trace a)))
  run_from (a ∷ more) done calls h = rw (append-nil calls) (run_from more done calls h)
  run_from (a ∷ more) unknown calls h = rw (append-nil calls) (run_from more unknown calls h)

  -- Once it has sent its packet, an operation of subscribe or unsubscribe makes no calls but these,
  -- whatever is answered: it sends the same packet, waits for its acknowledgement, and disconnects.
  -- When it is done it has completed once, last of all, with a reason code for each topic, directly
  -- behind the release of the packet identifier; the session has been told of subscriptions only
  -- with a success among the codes.
  pub run-Trace :
      (answers : List Answer)
      → Trace (run kind num_topics answers (send_subscribe kind num_topics p))
  run-Trace answers = run_from answers _ _ (unfold Trace in (refl, (sends, tt)))
