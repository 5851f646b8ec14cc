-- ===== src/PublishSend/Exchange.antt =====
-- The operation from the call of perform on: it keeps to the protocol, completes once, and gives its
-- packet identifier back.
use async_mqtt.Base.{
  nil_or, none, ◌||◌, ltb, append-nil, ℕ, Bool, true, false, not, ◌&&◌, Bool-cases, inl, inr, ◌≡◌,
  ◌≢◌, refl, sym, ap, ◌∙◌, subst, List, [], ◌∷◌, if◌then◌else◌, ◌==◌, arith,
}
use async_mqtt.Codec.Library.{Boost}
use async_mqtt.Codec.Property.{maximum_packet_size, Prop}
use async_mqtt.Codec.Messages.{Qos, at_most_once, at_least_once, exactly_once, encode_publish}
use async_mqtt.ControlPacket.{size, ControlPacket, set_dup, of_with_pid}
use async_mqtt.ControlPacket.Publish.{publish_of, dup_again}
use async_mqtt.PacketId.{Interval, release, is_free, allocate}
use async_mqtt.PacketId.Refund.{refund}
use async_mqtt.PacketId.Invariant.{IsValid}
use async_mqtt.PacketId.Allocate.{allocate-is_free}
use async_mqtt.Operation.{
  allocate_pid, default_max_send_size, number_at, value_or, Effect, free_pid, completes, Service,
  apply_effects,
}
use async_mqtt.PublishSend.{
  pid_overrun, client, allocated, publish_of_size, empty_result, answered, validate_publish,
  refused, complete_immediate, perform_with, ErrorCode, handle, Result, done, Next, send_publish,
  run, Answer, exchange, perform,
}
use async_mqtt.PublishSend.Protocol.{Phase, fresh, live, Leads, fresh-Sends, run_from}
use async_mqtt.PublishSend.Ledger.{
  completions, is_done, given, given-live, given-over, Steps-completions, Steps-ids, Matches-phase,
}

-- The packet that perform makes.
abbrev pub publish_packet :
    Boost → Qos → ℕ → (topic payload : List ℕ) → (retain : Bool) → List Prop → ControlPacket
publish_packet lib qos pid topic payload retain props =
    of_with_pid (λ id. encode_publish lib id topic payload qos retain false props) pid

-- Once it has started to send its PUBLISH packet, an operation keeps to the protocol, whatever the
-- connection and the broker answer: each copy sent before the first wait is without DUP and each one
-- behind it with DUP, all with one serial number; PUBREL follows a wait for PUBREC, and behind it
-- nothing but the same PUBREL is sent; a packet identifier is given back once, directly before the
-- completion, and nothing comes behind that.
pub run-Leads :
    (lib : Boost) (qos : Qos) (n pid : ℕ) (topic payload : List ℕ) (retain : Bool)
    (props : List Prop) (answers : List Answer)
    → Leads lib qos n (publish_packet lib qos pid topic payload retain props) fresh (
        run lib qos n answers
          (send_publish lib qos n (publish_packet lib qos pid topic payload retain props)))
run-Leads lib qos n pid topic payload retain props answers =
    run_from lib qos n p answers _ _ twice (fresh-Sends lib qos n p).sending
  where
    p : ControlPacket
    p = publish_packet lib qos pid topic payload retain props

    twice : set_dup (set_dup p) ≡ set_dup p
    twice =
        let with_dup = (publish_of lib pid topic payload qos retain false props).2 in
        rw with_dup (dup_again lib pid topic payload qos retain props)

-- The identifier is back just when the operation has completed, and it has completed at most once.
pub record Accounts (qos : Qos) (pid : ℕ) (is : List Interval) (after : Next × Service)
    : Type 0 where
  pub once : completions (after.0).1 ≡ (if is_done (after.0).0 then 1 else 0)
  pub ids :
      qos ≢ at_most_once
      → (apply_effects (after.0).1 after.1).free_ids
        ≡ (if is_done (after.0).0 then release pid is else is)

given-done :
    (q : Qos) (pid : ℕ) (ph : Phase) (is : List Interval) (d : Bool)
    → q ≢ at_most_once
    → live ph ≡ not d
    → given q pid ph is ≡ (if d then release pid is else is)
given-done q pid ph is true c l = given-over q pid ph is c l
given-done q pid ph is false c l = given-live q pid ph is l

run-Accounts :
    (lib : Boost) (qos : Qos) (n pid : ℕ) (topic payload : List ℕ) (retain : Bool)
    (props : List Prop) (answers : List Answer) (s : Service)
    → Accounts qos pid s.free_ids (
      run lib qos n answers
          (send_publish lib qos n (publish_packet lib qos pid topic payload retain props)),
      s,
    )
unfolding of_with_pid
run-Accounts lib qos n pid topic payload retain props answers s =
    let h = run-Leads lib qos n pid topic payload retain props answers in
    let p = publish_packet lib qos pid topic payload retain props in
    let (o, l) = Matches-phase lib qos n p _ h.phase h.matches in
    let path : (apply_effects (run lib qos n answers (send_publish lib qos n p)).1 s).free_ids
        ≡ given qos pid h.phase s.free_ids =
      Steps-ids lib qos n p s.free_ids s h.path (sym (given-live qos pid fresh s.free_ids refl)) in
    record {
      once = omega (arith, Steps-completions lib qos n p h.path, o);
      ids = λ c. path ∙ given-done qos pid h.phase s.free_ids _ c l;
    }

run_done :
    (lib : Boost) (qos : Qos) (n : ℕ) (answers : List Answer) (calls : List (Effect Result))
    → run lib qos n answers (done, calls) ≡ (done, calls)
unfolding run handle
run_done lib qos n [] calls = refl
run_done lib qos n (a ∷ more) calls = rw (append-nil calls) (run_done lib qos n more calls)

-- An operation that completes at once.
immediate-Accounts :
    (lib : Boost) (qos : Qos) (n pid : ℕ) (answers : List Answer) (ec : ErrorCode) (s : Service)
    → qos ≢ at_most_once
    → (pid == 0) ≡ false
    → Accounts qos pid s.free_ids (run lib qos n answers (complete_immediate qos ec pid), s)
unfolding apply_effects
immediate-Accounts lib at_most_once n pid answers ec s c z = absurd (c refl)
immediate-Accounts lib at_least_once n pid answers ec s c z =
    rw
      (
        z,
        run_done lib at_least_once n answers
            (free_pid pid false ∷ completes true ec (empty_result at_least_once) ∷ []),
      )
      (record { once = refl; ids = λ k. refl })
immediate-Accounts lib exactly_once n pid answers ec s c z =
    rw
      (
        z,
        run_done lib exactly_once n answers
            (free_pid pid false ∷ completes true ec (empty_result exactly_once) ∷ []),
      )
      (record { once = refl; ids = λ k. refl })

sized-Accounts :
    (lib : Boost) (qos : Qos) (topic payload : List ℕ) (retain : Bool) (props : List Prop) (pid : ℕ)
    (answers : List Answer) (s : Service)
    → qos ≢ at_most_once
    → (pid == 0) ≡ false
    → Accounts qos pid s.free_ids (
        answered lib qos answers (
          publish_of_size lib qos s.last_serial_num
            (publish_packet lib qos pid topic payload retain props)
            s))
unfolding of_with_pid
sized-Accounts lib qos topic payload retain props pid answers s c z =
    elim (Bool-cases (
      ltb (value_or (number_at maximum_packet_size s.connack) default_max_send_size)
        (size (publish_packet lib qos pid topic payload retain props)))) [
          | inl h ↦ rw h (immediate-Accounts lib qos _ pid answers _ s c z)
          | inr h ↦ rw h (run-Accounts lib qos _ pid topic payload retain props answers s)
        ]

with_pid-Accounts :
    (lib : Boost) (qos : Qos) (topic payload : List ℕ) (retain : Bool) (props : List Prop) (pid : ℕ)
    (answers : List Answer) (s : Service)
    → qos ≢ at_most_once
    → (pid == 0) ≡ false
    → Accounts qos pid s.free_ids
        (answered lib qos answers (perform_with lib qos topic payload retain props pid s))
with_pid-Accounts lib qos topic payload retain props pid answers s c z =
    elim (Bool-cases (refused (validate_publish s.connack qos topic payload retain props))) [
      | inl h ↦ rw h (immediate-Accounts lib qos _ pid answers _ s c z)
      | inr h ↦ rw h (sized-Accounts lib qos topic payload retain props pid answers _ c z)
    ]

-- What the theorem says of the state that comes out.
abbrev Settles : Service → ℕ → Next × Service → Type 0
Settles s x ((stage, calls), after) =
    (completions calls ≡ (if is_done stage then 1 else 0))
    × (is_free x (apply_effects calls after).free_ids
        ≡ (is_free x s.free_ids && (is_done stage || not (x == (allocate s.free_ids).0))))

module _ (lib : Boost) (topic payload : List ℕ) (retain : Bool) (props : List Prop)
    (answers : List Answer) where
  overrun-Settles :
      (qos : Qos) (n x : ℕ) (s : Service)
      → s.free_ids ≡ []
      → Settles s x (run lib qos n answers (complete_immediate qos (client pid_overrun) 0), s)
  unfolding apply_effects is_free
  overrun-Settles at_most_once n x s e =
      rw (run_done lib at_most_once n answers (completes true (client pid_overrun) none ∷ []), e)
        (refl, refl)
  overrun-Settles at_least_once n x s e =
      rw
        (
          run_done lib at_least_once n answers
              (completes true (client pid_overrun) (empty_result at_least_once) ∷ []),
          e,
        )
        (refl, refl)
  overrun-Settles exactly_once n x s e =
      rw
        (
          run_done lib exactly_once n answers
              (completes true (client pid_overrun) (empty_result exactly_once) ∷ []),
          e,
        )
        (refl, refl)

  without_ids :
      (qos : Qos) (s : Service) (x : ℕ)
      → let t = record s { free_ids = [] } in
        Settles t x
          (answered lib qos answers (allocated lib qos topic payload retain props (allocate_pid t)))
  unfolding allocate
  without_ids qos s x = overrun-Settles qos s.last_serial_num x (record s { free_ids = [] }) refl

  allocated-Settles :
      (qos : Qos) (s : Service) (x : ℕ)
      → qos ≢ at_most_once
      → IsValid s.free_ids
      → Settles s x
          (answered lib qos answers (allocated lib qos topic payload retain props (allocate_pid s)))
  allocated-Settles qos s x c v = elim (nil_or s.free_ids) [
    | inl e ↦
        subst
          (λ (t : Service). Settles t x (
            answered lib qos answers
              (allocated lib qos topic payload retain props (allocate_pid t))))
          (sym (ap (λ (is : List Interval). record s { free_ids = is }) e)) (without_ids qos s x)
    | inr ne ↦
        let (k, p, q, f, e) = allocate-is_free x s.free_ids v ne in
        let taken : ((allocate s.free_ids).0 == 0) ≡ false = ground arith in
        let a =
          with_pid-Accounts lib qos topic payload retain props (allocate s.free_ids).0 answers
            (record s { free_ids = (allocate s.free_ids).1 }) c taken in
        rw taken (a.once, ap (is_free x) (a.ids c) ∙ refund x _ s.free_ids v ne)
  ]

-- An operation with QoS 1 or 2, from the call of perform on and whatever is answered to it, has
-- completed exactly once when it is done and not before; while it runs the packet identifier that
-- the allocator gave it is the only one that is taken, and when it is done, with an error or
-- without, the same identifiers are free as before the call.
pub exchange-free_ids :
    (lib : Boost) (qos : Qos) (topic payload : List ℕ) (retain : Bool) (props : List Prop)
    (answers : List Answer) (s : Service) (x : ℕ)
    → qos ≢ at_most_once
    → IsValid s.free_ids
    → let ((stage, calls), after) = exchange lib qos topic payload retain props answers s in
      (completions calls ≡ (if is_done stage then 1 else 0))
      × (is_free x (apply_effects calls after).free_ids
          ≡ (is_free x s.free_ids && (is_done stage || not (x == (allocate s.free_ids).0))))
unfolding exchange perform
exchange-free_ids lib at_most_once topic payload retain props answers s x c v = absurd (c refl)
exchange-free_ids lib at_least_once topic payload retain props answers s x c v =
    allocated-Settles lib topic payload retain props answers at_least_once s x c v
exchange-free_ids lib exactly_once topic payload retain props answers s x c v =
    allocated-Settles lib topic payload retain props answers exactly_once s x c v
