-- ===== src/Subscribe/Identifiers.antt =====
-- Operations of subscribe and unsubscribe give their packet identifiers back.
use async_mqtt.Base.{
  ltb, ℕ, Bool, true, false, not, ◌&&◌, ◌||◌, Bool-cases, inl, inr, nil_or, ◌≡◌, refl, sym, ap, ◌∙◌,
  subst, List, [], ◌∷◌, ◌++◌, append-nil, All, if◌then◌else◌, ◌==◌, arith, length,
}
use async_mqtt.Codec.Library.{Boost}
use async_mqtt.Codec.Property.{maximum_packet_size, Prop}
use async_mqtt.Codec.Messages.{SubscribeTopic}
use async_mqtt.ControlPacket.{ControlPacket, of_with_pid, size}
use async_mqtt.PacketId.{Interval, release, is_free, allocate}
use async_mqtt.PacketId.Invariant.{IsValid}
use async_mqtt.PacketId.Allocate.{allocate-is_free}
use async_mqtt.PacketId.Refund.{refund}
use async_mqtt.Errors.{ErrorCode, refused, client, pid_overrun}
use async_mqtt.Operation.{
  default_max_send_size, number_at, value_or, Effect, free_pid, completes, Service, allocate_pid,
  apply_effects,
}
use async_mqtt.Subscribe.{
  Result, Stage, on_subscribe, on_suback, done, unknown, Next, Kind, subscribe_kind,
  unsubscribe_kind, empties, Answer, handle, run, perform_with, perform_subscribe,
  perform_unsubscribe, send_fitting,
}
use async_mqtt.Subscribe.Exchange.{Quiet, sends, waits, disconnects, Trace, run-Trace}

abbrev pub is_done : Stage → Bool
is_done done = true
is_done _ = false

module _ (kind : Kind) (num_topics : ℕ) where
  Quiet-service :
      (p : ControlPacket) (es ds : List (Effect Result)) (s : Service)
      → All (Quiet kind num_topics p) es
      → apply_effects (es ++ ds) s ≡ apply_effects ds s
  unfolding apply_effects
  Quiet-service p [] ds s h = refl
  Quiet-service p (e ∷ es) ds s (sends, h) = Quiet-service p es ds s h
  Quiet-service p (e ∷ es) ds s (waits, h) = Quiet-service p es ds s h
  Quiet-service p (e ∷ es) ds s (disconnects, h) = Quiet-service p es ds s h

  Quiet-ids :
      (p : ControlPacket) (es : List (Effect Result)) (s : Service)
      → All (Quiet kind num_topics p) es
      → (apply_effects es s).free_ids ≡ s.free_ids
  Quiet-ids p es s h =
      ap (λ (ds : List (Effect Result)). (apply_effects ds s).free_ids) (sym (append-nil es))
      ∙ ap (λ (t : Service). t.free_ids) (Quiet-service p es [] s h)
      ∙ nothing
    where
      nothing : (apply_effects {R = Result} [] s).free_ids ≡ s.free_ids
      nothing = unfold apply_effects in refl

  Trace-ids :
      (p : ControlPacket) (stage : Stage) (es : List (Effect Result)) (s : Service)
      → Trace kind num_topics p (stage, es)
      → (apply_effects es s).free_ids
        ≡ (if is_done stage then release p.packet_id s.free_ids else s.free_ids)
  unfolding Trace
  Trace-ids p (on_subscribe q) es s (e, h) = Quiet-ids p es s h
  Trace-ids p (on_suback q) es s (e, h) = Quiet-ids p es s h
  Trace-ids p unknown es s h = Quiet-ids p es s h
  Trace-ids p done es s h =
      ap (λ (ds : List (Effect Result)). (apply_effects ds s).free_ids) h.parts
      ∙ ap (λ (t : Service). t.free_ids) (Quiet-service p h.front _ s h.quiet)
      ∙ elim h.noted [
        | inl e ↦ rw e (unfold apply_effects in refl)
        | inr e ↦ rw (e.0) (unfold apply_effects in refl)
      ]

  run_done :
      (answers : List Answer) (calls : List (Effect Result))
      → run kind num_topics answers (done, calls) ≡ (done, calls)
  unfolding run handle
  run_done [] calls = refl
  run_done (a ∷ more) calls = rw (append-nil calls) (run_done more calls)

  -- The identifier is back just when the operation is done.
  abbrev Returned : Service → ℕ → Next → Type 0
  Returned s pid next =
      (apply_effects next.1 s).free_ids
      ≡ (if is_done next.0 then release pid s.free_ids else s.free_ids)

  freed-Returned :
      (answers : List Answer) (ec : ErrorCode) (result : Result) (pid : ℕ) (s : Service)
      → Returned s pid
          (run kind num_topics answers (done, free_pid pid false ∷ completes true ec result ∷ []))
  unfolding apply_effects
  freed-Returned answers ec result pid s =
      rw (run_done answers (free_pid pid false ∷ completes true ec result ∷ [])) refl

  fitting-Returned :
      (answers : List Answer) (encode : ℕ → List ℕ) (pid : ℕ) (s : Service)
      → (pid == 0) ≡ false
      → Returned s pid (
          run kind num_topics answers
            (send_fitting kind num_topics s.connack (of_with_pid encode pid)))
  unfolding of_with_pid
  fitting-Returned answers encode pid s z =
      elim (Bool-cases (
        ltb (value_or (number_at maximum_packet_size s.connack) default_max_send_size)
          (size (of_with_pid encode pid)))) [
            | inl h ↦ rw (h, z) (freed-Returned answers _ _ pid s)
            | inr h ↦ rw h (
                Trace-ids (of_with_pid encode pid) _ _ s
                  (run-Trace kind num_topics (of_with_pid encode pid) answers))
          ]

  with-Returned :
      (answers : List Answer) (ec : ErrorCode) (encode : ℕ → List ℕ) (pid : ℕ) (s : Service)
      → (pid == 0) ≡ false
      → Returned s pid
          (run kind num_topics answers (perform_with kind num_topics ec encode (pid, s)).0)
  with-Returned answers ec encode pid s z = elim (Bool-cases (num_topics == 0)) [
    | inl h ↦ rw (z, h) (freed-Returned answers _ _ pid s)
    | inr h ↦ elim (Bool-cases (refused ec)) [
      | inl k ↦ rw (z, h, k) (freed-Returned answers _ _ pid s)
      | inr k ↦ rw (z, h, k) (fitting-Returned answers encode pid s z)
    ]
  ]

  with-service :
      (ec : ErrorCode) (encode : ℕ → List ℕ) (pid : ℕ) (s : Service)
      → (perform_with kind num_topics ec encode (pid, s)).1 ≡ s
  with-service ec encode pid s = ground arith

  -- The identifiers that are free behind the calls.
  abbrev Settles : Service → ℕ → Next × Service → Type 0
  Settles s x ((stage, calls), after) =
      is_free x (apply_effects calls after).free_ids
      ≡ (is_free x s.free_ids && (is_done stage || not (x == (allocate s.free_ids).0)))

  abbrev answered : List Answer → Next × Service → Next × Service
  answered answers (now, after) = (run kind num_topics answers now, after)

  without_ids :
      (answers : List Answer) (ec : ErrorCode) (encode : ℕ → List ℕ) (s : Service) (x : ℕ)
      → let t = record s { free_ids = [] } in
        Settles t x (answered answers (perform_with kind num_topics ec encode (allocate_pid t)))
  unfolding allocate apply_effects is_free
  without_ids answers ec encode s x =
      rw
        (run_done answers
          (completes true (client pid_overrun) (empties num_topics, kind.no_props) ∷ []))
        refl

  perform-Settles :
      (answers : List Answer) (ec : ErrorCode) (encode : ℕ → List ℕ) (s : Service) (x : ℕ)
      → IsValid s.free_ids
      → Settles s x (answered answers (perform_with kind num_topics ec encode (allocate_pid s)))
  perform-Settles answers ec encode s x v = elim (nil_or s.free_ids) [
    | inl e ↦
        subst
          (λ (t : Service).
            Settles t x
              (answered answers (perform_with kind num_topics ec encode (allocate_pid t))))
          (sym (ap (λ (is : List Interval). record s { free_ids = is }) e))
          (without_ids answers ec encode s x)
    | inr ne ↦
        let (k, p, q, f, e) = allocate-is_free x s.free_ids v ne in
        let taken : ((allocate s.free_ids).0 == 0) ≡ false = ground arith in
        rw
          (with-service ec encode (allocate s.free_ids).0
            (record s { free_ids = (allocate s.free_ids).1 }))
          (ap (is_free x) (
              with-Returned answers ec encode (allocate s.free_ids).0
                (record s { free_ids = (allocate s.free_ids).1 }) taken)
            ∙ refund x _ s.free_ids v ne)
  ]

-- Operations of subscribe and unsubscribe, from the call of perform on and whatever is answered: while
-- one runs the packet identifier that the allocator gave it is the only one that is taken, and when
-- it is done, with an error or without, the same identifiers are free as before the call.
pub perform-free_ids :
    (lib : Boost) (topics : List SubscribeTopic) (filters : List (List ℕ)) (props : List Prop)
    (answers : List Answer) (s : Service) (x : ℕ)
    → IsValid s.free_ids
    → let (next, after) = perform_subscribe lib topics props s in
      let (stage, calls) = run (subscribe_kind lib) (length topics) answers next in
      let (next', after') = perform_unsubscribe lib filters props s in
      let (stage', calls') = run (unsubscribe_kind lib) (length filters) answers next' in
      (is_free x (apply_effects calls after).free_ids
        ≡ (is_free x s.free_ids && (is_done stage || not (x == (allocate s.free_ids).0))))
      × (is_free x (apply_effects calls' after').free_ids
          ≡ (is_free x s.free_ids && (is_done stage' || not (x == (allocate s.free_ids).0))))
unfolding perform_subscribe perform_unsubscribe
perform-free_ids lib topics filters props answers s x v = (
  perform-Settles (subscribe_kind lib) (length topics) answers _ _ s x v,
  perform-Settles (unsubscribe_kind lib) (length filters) answers _ _ s x v,
)
