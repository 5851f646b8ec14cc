-- ===== src/PublishSend/Ledger.antt =====
-- What a path of the protocol does to the packet identifier and how often it completes.
use async_mqtt.Base.{
  ℕ, ◌+◌, Bool, true, false, not, inl, inr, ◌⊎◌, ◌≡◌, ◌≢◌, refl, sym, ap, ◌∙◌, List, [], ◌∷◌,
  if◌then◌else◌, arith,
}
use async_mqtt.Codec.Library.{Boost}
use async_mqtt.Codec.Messages.{Qos, at_most_once, at_least_once, exactly_once}
use async_mqtt.ControlPacket.{ControlPacket}
use async_mqtt.PacketId.{Interval, release}
use async_mqtt.Operation.{Effect, completes, Service, apply_effect, apply_effects}
use async_mqtt.PublishSend.{
  Result, Stage, on_publish, on_puback, on_pubrec, on_pubrel, on_pubcomp, done, unknown,
}
use async_mqtt.PublishSend.Protocol.{
  Phase, fresh, waited, releasing, freed, completed, live, Allowed, publish_first, publish_again,
  wait_puback, wait_pubrec, pubrel_first, pubrel_again, wait_pubcomp, disconnect, free, report,
  report_qos0, Steps, stop, step, Matches,
}

abbrev is_completion : Effect Result → ℕ
is_completion (completes now ec result) = 1
is_completion _ = 0

abbrev pub completions : List (Effect Result) → ℕ
completions [] = 0
completions (e ∷ es) = is_completion e + completions es

abbrev pub over : Phase → ℕ
over fresh = 0
over waited = 0
over releasing = 0
over freed = 0
over completed = 1

-- The identifiers that are free in a phase, when these were free before.
abbrev pub given : Qos → ℕ → Phase → List Interval → List Interval
given at_most_once pid ph is = is
given q pid ph is = if live ph then is else release pid is

pub given-live :
    (q : Qos) (pid : ℕ) (ph : Phase) (is : List Interval) → live ph ≡ true → given q pid ph is ≡ is
given-live at_most_once pid ph is l = refl
given-live at_least_once pid ph is l = rw l refl
given-live exactly_once pid ph is l = rw l refl

pub given-over :
    (q : Qos) (pid : ℕ) (ph : Phase) (is : List Interval)
    → q ≢ at_most_once
    → live ph ≡ false
    → given q pid ph is ≡ release pid is
given-over at_most_once pid ph is c l = absurd (c refl)
given-over at_least_once pid ph is c l = rw l refl
given-over exactly_once pid ph is c l = rw l refl

given-freed :
    (q : Qos) (pid : ℕ) (is : List Interval) → given q pid freed is ≡ given q pid completed is
given-freed at_most_once pid is = refl
given-freed at_least_once pid is = refl
given-freed exactly_once pid is = refl

live-over : (ph : Phase) → live ph ≡ true → over ph ≡ 0
live-over fresh l = refl
live-over waited l = refl
live-over releasing l = refl
live-over freed l = refl
live-over completed l = ground arith

sending-live : (ph : Phase) → (ph ≡ fresh) ⊎ (ph ≡ waited) → live ph ≡ true
sending-live ph (inl h) = ap live h
sending-live ph (inr h) = ap live h

module _ (lib : Boost) (qos : Qos) (n : ℕ) (p : ControlPacket) where
  Allowed-over :
      {a b : Phase} {e : Effect Result}
      → Allowed lib qos n p a e b
      → over a + is_completion e ≡ over b
  Allowed-over publish_first = refl
  Allowed-over publish_again = refl
  Allowed-over (wait_puback ph h e) = omega (arith, live-over ph (sending-live ph h))
  Allowed-over (wait_pubrec ph h e) = omega (arith, live-over ph (sending-live ph h))
  Allowed-over pubrel_first = refl
  Allowed-over pubrel_again = refl
  Allowed-over wait_pubcomp = refl
  Allowed-over (disconnect ph l) = omega arith
  Allowed-over (free ph l h) = omega (arith, live-over ph l)
  Allowed-over (report ec result) = refl
  Allowed-over (report_qos0 ph ec l h) = omega (arith, live-over ph l)

  pub Steps-completions :
      {a b : Phase} {es : List (Effect Result)}
      → Steps lib qos n p a es b
      → over a + completions es ≡ over b
  Steps-completions stop = omega arith
  Steps-completions (step s r) = omega (arith, Allowed-over s, Steps-completions r)

  module _ (is : List Interval) where
    abbrev pub ids : Phase → List Interval
    ids ph = given qos p.packet_id ph is

    Allowed-ids :
        {a b : Phase} {e : Effect Result} (s : Service)
        → Allowed lib qos n p a e b
        → s.free_ids ≡ ids a
        → (apply_effect e s).free_ids ≡ ids b
    Allowed-ids s publish_first h = h
    Allowed-ids s publish_again h = h
    Allowed-ids s (wait_puback ph k e) h =
        h ∙ given-live qos _ ph is (sending-live ph k) ∙ sym (given-live qos _ waited is refl)
    Allowed-ids s (wait_pubrec ph k e) h =
        h ∙ given-live qos _ ph is (sending-live ph k) ∙ sym (given-live qos _ waited is refl)
    Allowed-ids s pubrel_first h =
        h ∙ given-live qos _ waited is refl ∙ sym (given-live qos _ releasing is refl)
    Allowed-ids s pubrel_again h = h
    Allowed-ids s wait_pubcomp h = h
    Allowed-ids s (disconnect ph l) h = h
    Allowed-ids s (free ph l c) h =
        ap (release p.packet_id) (h ∙ given-live qos _ ph is l)
        ∙ sym (given-over qos _ freed is c refl)
    Allowed-ids s (report ec result) h = h ∙ given-freed qos _ is
    Allowed-ids s (report_qos0 ph ec l e) h = h ∙ given-live qos _ ph is l ∙ rw e refl

    pub Steps-ids :
        {a b : Phase} {es : List (Effect Result)} (s : Service)
        → Steps lib qos n p a es b
        → s.free_ids ≡ ids a
        → (apply_effects es s).free_ids ≡ ids b
    unfolding apply_effects
    Steps-ids s stop h = h
    Steps-ids s (step k r) h = Steps-ids _ r (Allowed-ids s k h)

abbrev pub is_done : Stage → Bool
is_done done = true
is_done _ = false

pub Matches-phase :
    (lib : Boost) (qos : Qos) (n : ℕ) (p : ControlPacket) (stage : Stage) (ph : Phase)
    → Matches lib qos n p stage ph
    → (over ph ≡ (if is_done stage then 1 else 0)) × (live ph ≡ not (is_done stage))
unfolding Matches
Matches-phase lib qos n p (on_publish q) ph (inl (f, e)) = rw f (refl, refl)
Matches-phase lib qos n p (on_publish q) ph (inr (f, e)) = rw f (refl, refl)
Matches-phase lib qos n p (on_puback q) ph (f, _, _, _) = rw f (refl, refl)
Matches-phase lib qos n p (on_pubrec q) ph (f, _, _, _) = rw f (refl, refl)
Matches-phase lib qos n p (on_pubrel r) ph (f, _, _) = rw f (refl, refl)
Matches-phase lib qos n p (on_pubcomp r) ph (f, _, _) = rw f (refl, refl)
Matches-phase lib qos n p done ph m = rw m (refl, refl)
Matches-phase lib qos n p unknown ph m = (live-over ph m, m)
