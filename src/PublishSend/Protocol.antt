-- ===== src/PublishSend/Protocol.antt =====
-- What a PUBLISH exchange does on the wire and to its packet identifier, as a step relation on its
-- phases, and that the operation keeps to it whatever the broker and the connection answer.
use async_mqtt.Base.{
  none, ℕ, Bool, true, false, Bool-cases, inl, inr, ◌⊎◌, ◌≡◌, ◌≢◌, refl, sym, ◌∙◌, subst, List, [],
  ◌∷◌, ◌++◌, arith,
}
use async_mqtt.Codec.Library.{Boost}
use async_mqtt.Codec.Messages.{Qos, at_most_once, at_least_once, exactly_once}
use async_mqtt.ControlPacket.{of_with_pid, ControlPacket, set_dup}
use async_mqtt.ReasonCodes.{is_error}
use async_mqtt.Replies.{Error, success, operation_aborted, try_again, no_recovery, other_error}
use async_mqtt.Errors.{ErrorCode}
use async_mqtt.Operation.{
  Effect, async_send, async_wait_reply, async_disconnect, free_pid, completes, Decoded, valid,
  malformed, undefined,
}
use async_mqtt.PublishSend.{
  Error, Result, Stage, on_publish, on_puback, on_pubrec, on_pubrel, on_pubcomp, done, unknown,
  Next, complete, publish_flags, send_publish, resend_publish, wait_reply, pubrel_of, send_pubrel,
  handle_publish, puback_read, handle_puback, pubrec_read, handle_pubrec, handle_pubrel,
  pubcomp_read, handle_pubcomp, handle, run, Answer, disconnecting,
}

-- `fresh` is before the first wait for a reply, `waited` behind it, `releasing` behind the first
-- PUBREL, and `freed` between the release of the packet identifier and the completion.
pub data Phase : Type 0 where
  fresh waited releasing freed completed : Phase

abbrev pub live : Phase → Bool
live fresh = true
live waited = true
live releasing = true
live freed = false
live completed = false

module _ (lib : Boost) (qos : Qos) (n : ℕ) (p : ControlPacket) where
  pub data Allowed : Phase → Effect Result → Phase → Type 0 where
    publish_first : Allowed fresh (async_send p.packet n (publish_flags qos)) fresh
    publish_again : Allowed waited (async_send (set_dup p).packet n (publish_flags qos)) waited
    wait_puback :
        (ph : Phase)
        → (ph ≡ fresh) ⊎ (ph ≡ waited)
        → qos ≡ at_least_once
        → Allowed ph (async_wait_reply 0x40 p.packet_id) waited
    wait_pubrec :
        (ph : Phase)
        → (ph ≡ fresh) ⊎ (ph ≡ waited)
        → qos ≡ exactly_once
        → Allowed ph (async_wait_reply 0x50 p.packet_id) waited
    pubrel_first :
        Allowed waited (async_send (pubrel_of lib qos n p.packet_id).packet n 2) releasing
    pubrel_again :
        Allowed releasing (async_send (pubrel_of lib qos n p.packet_id).packet n 3) releasing
    wait_pubcomp : Allowed releasing (async_wait_reply 0x70 p.packet_id) releasing
    disconnect : (ph : Phase) → live ph ≡ true → Allowed ph (async_disconnect 0x81) ph
    free :
        (ph : Phase)
        → live ph ≡ true
        → qos ≢ at_most_once
        → Allowed ph (free_pid p.packet_id true) freed
    report :
        (ec : ErrorCode) (result : Result) → Allowed freed (completes false ec result) completed
    report_qos0 :
        (ph : Phase) (ec : ErrorCode)
        → live ph ≡ true
        → qos ≡ at_most_once
        → Allowed ph (completes false ec none) completed

  -- A sequence of calls that the phases allow.
  pub data Steps : Phase → List (Effect Result) → Phase → Type 0 where
    stop : {ph : Phase} → Steps ph [] ph
    step :
        {a b c : Phase} {e : Effect Result} {es : List (Effect Result)}
        → Allowed a e b
        → Steps b es c
        → Steps a (e ∷ es) c

  pub Steps-append :
      {a b c : Phase} {es ds : List (Effect Result)}
      → Steps a es b
      → Steps b ds c
      → Steps a (es ++ ds) c
  Steps-append stop q = q
  Steps-append (step s r) q = step s (Steps-append r q)

  -- The phase that an operation in a stage has reached.
  unfoldable pub Matches : Stage → Phase → Type 0
  Matches (on_publish q) ph = ((ph ≡ fresh) × (q ≡ p)) ⊎ ((ph ≡ waited) × (q ≡ set_dup p))
  Matches (on_puback q) ph =
      (ph ≡ waited) × (qos ≡ at_least_once) × (q.packet_id ≡ p.packet_id) × (set_dup q ≡ set_dup p)
  Matches (on_pubrec q) ph =
      (ph ≡ waited) × (qos ≡ exactly_once) × (q.packet_id ≡ p.packet_id) × (set_dup q ≡ set_dup p)
  Matches (on_pubrel r) ph =
      (ph ≡ releasing) × (qos ≡ exactly_once) × (r ≡ pubrel_of lib qos n p.packet_id)
  Matches (on_pubcomp r) ph =
      (ph ≡ releasing) × (qos ≡ exactly_once) × (r ≡ pubrel_of lib qos n p.packet_id)
  Matches done ph = ph ≡ completed
  Matches unknown ph = live ph ≡ true

  -- The calls lead from the phase to one that matches the next stage.
  pub record Leads (ph : Phase) (next : Next) : Type 0 where
    pub phase : Phase
    pub path : Steps ph next.1 phase
    pub matches : Matches next.0 phase

  complete-Leads :
      (q : Qos) (ph : Phase) (ec : ErrorCode) (pid : ℕ) (result : Result)
      → qos ≡ q
      → live ph ≡ true
      → pid ≡ p.packet_id
      → Leads ph (complete q ec pid result)
  unfolding Matches
  complete-Leads at_most_once ph ec pid result e l k = record {
    phase = completed;
    path = step (report_qos0 ph ec l e) stop;
    matches = refl;
  }
  complete-Leads at_least_once ph ec pid result e l k = record {
    phase = completed;
    path =
        step
          (subst (λ (x : ℕ). Allowed ph (free_pid x true) freed) (sym k)
            (free ph l λ z. confirmed (sym z ∙ e)))
          (step (report ec result) stop);
    matches = refl;
  }
    where
      confirmed : at_most_once ≢ at_least_once
      confirmed z = ground arith
  complete-Leads exactly_once ph ec pid result e l k = record {
    phase = completed;
    path =
        step
          (subst (λ (x : ℕ). Allowed ph (free_pid x true) freed) (sym k)
            (free ph l λ z. confirmed (sym z ∙ e)))
          (step (report ec result) stop);
    matches = refl;
  }
    where
      confirmed : at_most_once ≢ exactly_once
      confirmed z = ground arith

  -- A packet that is sent in the phase, again and again.
  pub record Sends (ph : Phase) (q : ControlPacket) : Type 0 where
    pub alive : live ph ≡ true
    pub unacknowledged : (ph ≡ fresh) ⊎ (ph ≡ waited)
    pub same_id : q.packet_id ≡ p.packet_id
    pub dup : set_dup q ≡ set_dup p
    pub sending : Leads ph (send_publish lib qos n q)

  pub fresh-Sends : Sends fresh p
  unfolding Matches
  fresh-Sends = record {
    alive = refl;
    unacknowledged = inl refl;
    same_id = refl;
    dup = refl;
    sending = record { phase = fresh; path = step publish_first stop; matches = inl (refl, refl) };
  }

  waited-Sends : set_dup (set_dup p) ≡ set_dup p → Sends waited (set_dup p)
  unfolding Matches set_dup
  waited-Sends twice = record {
    alive = refl;
    unacknowledged = inr refl;
    same_id = refl;
    dup = twice;
    sending = record { phase = waited; path = step publish_again stop; matches = inr (refl, refl) };
  }

  resend-Leads :
      (cancelled : Bool) (ph : Phase) (q : ControlPacket)
      → Sends ph q
      → Leads ph (resend_publish lib qos n cancelled q)
  resend-Leads true ph q s = complete-Leads qos ph _ q.packet_id _ refl s.alive s.same_id
  resend-Leads false ph q s = s.sending

  wait-Leads :
      (k : Qos) (ph : Phase) (q : ControlPacket)
      → qos ≡ k
      → Sends ph q
      → Leads ph (wait_reply lib qos n k q)
  unfolding Matches
  wait-Leads at_most_once ph q e s = record {
    phase = completed;
    path = step (report_qos0 ph _ s.alive e) stop;
    matches = refl;
  }
  wait-Leads at_least_once ph q e s = record {
    phase = waited;
    path =
        step
          (subst (λ (x : ℕ). Allowed ph (async_wait_reply 0x40 x) waited) (sym s.same_id)
            (wait_puback ph s.unacknowledged e))
          stop;
    matches = (refl, e, s.same_id, s.dup);
  }
  wait-Leads exactly_once ph q e s = record {
    phase = waited;
    path =
        step
          (subst (λ (x : ℕ). Allowed ph (async_wait_reply 0x50 x) waited) (sym s.same_id)
            (wait_pubrec ph s.unacknowledged e))
          stop;
    matches = (refl, e, s.same_id, s.dup);
  }

  publish-Leads :
      (cancelled : Bool) (ec : Error) (ph : Phase) (q : ControlPacket)
      → Sends ph q
      → Leads ph (handle_publish lib qos n cancelled ec q)
  unfolding handle_publish
  publish-Leads cancelled success ph q s = wait-Leads qos ph q refl s
  publish-Leads cancelled try_again ph q s = resend-Leads cancelled ph q s
  publish-Leads cancelled operation_aborted ph q s =
      complete-Leads qos ph _ q.packet_id _ refl s.alive s.same_id
  publish-Leads cancelled no_recovery ph q s =
      complete-Leads qos ph _ q.packet_id _ refl s.alive s.same_id
  publish-Leads cancelled other_error ph q s =
      complete-Leads qos ph _ q.packet_id _ refl s.alive s.same_id

  disconnecting-Leads :
      (ph : Phase) (next : Next) → live ph ≡ true → Leads ph next → Leads ph (disconnecting next)
  disconnecting-Leads ph (stage, calls) l h = record {
    phase = h.phase;
    path = step (disconnect ph l) h.path;
    matches = h.matches;
  }

  -- What is known of a packet while its reply is awaited.
  module _ (twice : set_dup (set_dup p) ≡ set_dup p) (q : ControlPacket)
      (same_id : q.packet_id ≡ p.packet_id) (dup : set_dup q ≡ set_dup p) where
    again-Leads : (cancelled : Bool) → Leads waited (resend_publish lib qos n cancelled (set_dup q))
    again-Leads cancelled =
        subst (λ (x : ControlPacket). Leads waited (resend_publish lib qos n cancelled x)) (sym dup)
          (resend-Leads cancelled waited (set_dup p) (waited-Sends twice))

    fails-Leads :
        (ec : ErrorCode) (result : Result) → Leads waited (complete qos ec q.packet_id result)
    fails-Leads ec result = complete-Leads qos waited ec q.packet_id result refl refl same_id

    malformed-Leads :
        (cancelled : Bool)
        → Leads waited (disconnecting (resend_publish lib qos n cancelled (set_dup q)))
    malformed-Leads cancelled = disconnecting-Leads waited _ refl (again-Leads cancelled)

    unknown-Leads : Leads waited (unknown, [])
    unfolding Matches
    unknown-Leads = record { phase = waited; path = stop; matches = refl }

    puback_read-Leads :
        (cancelled : Bool) (d : Decoded) → Leads waited (puback_read lib qos n cancelled q d)
    puback_read-Leads cancelled (valid rc props) = fails-Leads _ _
    puback_read-Leads cancelled malformed = malformed-Leads cancelled
    puback_read-Leads cancelled undefined = unknown-Leads

    puback-Leads :
        (cancelled : Bool) (ec : Error) (reply : List ℕ)
        → Leads waited (handle_puback lib qos n cancelled ec reply q)
    unfolding handle_puback
    puback-Leads cancelled success reply = puback_read-Leads cancelled _
    puback-Leads cancelled try_again reply = again-Leads cancelled
    puback-Leads cancelled operation_aborted reply = fails-Leads _ _
    puback-Leads cancelled no_recovery reply = fails-Leads _ _
    puback-Leads cancelled other_error reply = fails-Leads _ _

    pubrel_first-Leads :
        qos ≡ exactly_once
        → Leads waited (send_pubrel lib qos n (pubrel_of lib qos n q.packet_id) false)
    unfolding Matches
    pubrel_first-Leads e =
        subst (λ (x : ℕ). Leads waited (send_pubrel lib qos n (pubrel_of lib qos n x) false))
          (sym same_id)
          (record { phase = releasing; path = step pubrel_first stop; matches = (refl, e, refl) })

    pubrec_read-Leads :
        (cancelled : Bool) (d : Decoded)
        → qos ≡ exactly_once
        → Leads waited (pubrec_read lib qos n cancelled q d)
    pubrec_read-Leads cancelled (valid rc props) e = elim (Bool-cases (is_error rc)) [
      | inl h ↦ rw h (fails-Leads _ _)
      | inr h ↦ rw h (pubrel_first-Leads e)
    ]
    pubrec_read-Leads cancelled malformed e = malformed-Leads cancelled
    pubrec_read-Leads cancelled undefined e = unknown-Leads

    pubrec-Leads :
        (cancelled : Bool) (ec : Error) (reply : List ℕ)
        → qos ≡ exactly_once
        → Leads waited (handle_pubrec lib qos n cancelled ec reply q)
    unfolding handle_pubrec
    pubrec-Leads cancelled success reply e = pubrec_read-Leads cancelled _ e
    pubrec-Leads cancelled try_again reply e = again-Leads cancelled
    pubrec-Leads cancelled operation_aborted reply e = fails-Leads _ _
    pubrec-Leads cancelled no_recovery reply e = fails-Leads _ _
    pubrec-Leads cancelled other_error reply e = fails-Leads _ _

  -- Behind the first PUBREL.
  module _ (e : qos ≡ exactly_once) where
    pubrel : ControlPacket
    pubrel = pubrel_of lib qos n p.packet_id

    released-Leads :
        (ec : ErrorCode) (result : Result) → Leads releasing (complete qos ec p.packet_id result)
    released-Leads ec result = complete-Leads qos releasing ec p.packet_id result refl refl refl

    pubrel_again-Leads : Leads releasing (send_pubrel lib qos n pubrel true)
    unfolding Matches pubrel
    pubrel_again-Leads = record {
      phase = releasing;
      path = step pubrel_again stop;
      matches = (refl, e, refl);
    }

    pubrel-Leads : (ec : Error) → Leads releasing (handle_pubrel lib qos n ec pubrel)
    unfolding handle_pubrel Matches pubrel of_with_pid
    pubrel-Leads success = record {
      phase = releasing;
      path = step wait_pubcomp stop;
      matches = (refl, e, refl);
    }
    pubrel-Leads try_again = pubrel_again-Leads
    pubrel-Leads operation_aborted = released-Leads _ _
    pubrel-Leads no_recovery = released-Leads _ _
    pubrel-Leads other_error = released-Leads _ _

    pubcomp_read-Leads : (d : Decoded) → Leads releasing (pubcomp_read lib qos n pubrel d)
    unfolding Matches pubrel of_with_pid
    pubcomp_read-Leads (valid rc props) = released-Leads _ _
    pubcomp_read-Leads malformed = disconnecting-Leads releasing _ refl pubrel_again-Leads
    pubcomp_read-Leads undefined = record { phase = releasing; path = stop; matches = refl }

    pubcomp-Leads :
        (ec : Error) (reply : List ℕ) → Leads releasing (handle_pubcomp lib qos n ec reply pubrel)
    unfolding handle_pubcomp pubrel of_with_pid
    pubcomp-Leads success reply = unfold pubrel in pubcomp_read-Leads _
    pubcomp-Leads try_again reply = pubrel_again-Leads
    pubcomp-Leads operation_aborted reply = released-Leads _ _
    pubcomp-Leads no_recovery reply = released-Leads _ _
    pubcomp-Leads other_error reply = released-Leads _ _

  handle-Leads :
      (a : Answer) (stage : Stage) (ph : Phase)
      → set_dup (set_dup p) ≡ set_dup p
      → Matches stage ph
      → Leads ph (handle lib qos n a stage)
  unfolding handle Matches
  handle-Leads a (on_publish q) ph twice (inl (f, e)) =
      subst (λ (x : Phase). Leads x (handle_publish lib qos n a.cancelled a.ec q)) (sym f)
        (subst (λ (x : ControlPacket). Leads fresh (handle_publish lib qos n a.cancelled a.ec x))
          (sym e) (publish-Leads a.cancelled a.ec fresh p fresh-Sends))
  handle-Leads a (on_publish q) ph twice (inr (f, e)) =
      subst (λ (x : Phase). Leads x (handle_publish lib qos n a.cancelled a.ec q)) (sym f)
        (subst (λ (x : ControlPacket). Leads waited (handle_publish lib qos n a.cancelled a.ec x))
          (sym e) (publish-Leads a.cancelled a.ec waited (set_dup p) (waited-Sends twice)))
  handle-Leads a (on_puback q) ph twice (f, e, i, d) =
      subst (λ (x : Phase). Leads x (handle_puback lib qos n a.cancelled a.ec a.reply q)) (sym f)
        (puback-Leads twice q i d a.cancelled a.ec a.reply)
  handle-Leads a (on_pubrec q) ph twice (f, e, i, d) =
      subst (λ (x : Phase). Leads x (handle_pubrec lib qos n a.cancelled a.ec a.reply q)) (sym f)
        (pubrec-Leads twice q i d a.cancelled a.ec a.reply e)
  handle-Leads a (on_pubrel r) ph twice (f, e, i) =
      subst (λ (x : Phase). Leads x (handle_pubrel lib qos n a.ec r)) (sym f)
        (subst (λ (x : ControlPacket). Leads releasing (handle_pubrel lib qos n a.ec x)) (sym i)
          (unfold pubrel in pubrel-Leads e a.ec))
  handle-Leads a (on_pubcomp r) ph twice (f, e, i) =
      subst (λ (x : Phase). Leads x (handle_pubcomp lib qos n a.ec a.reply r)) (sym f)
        (subst (λ (x : ControlPacket). Leads releasing (handle_pubcomp lib qos n a.ec a.reply x))
          (sym i) (unfold pubrel in pubcomp-Leads e a.ec a.reply))
  handle-Leads a done ph twice m = record { phase = ph; path = stop; matches = m }
  handle-Leads a unknown ph twice m = record { phase = ph; path = stop; matches = m }

  pub run_from :
      (as' : List Answer) (stage : Stage) (calls : List (Effect Result))
      → set_dup (set_dup p) ≡ set_dup p
      → Leads fresh (stage, calls)
      → Leads fresh (run lib qos n as' (stage, calls))
  unfolding run
  run_from [] stage calls twice h = h
  run_from (a ∷ as') stage calls twice h =
      let further = handle-Leads a stage h.phase twice h.matches in
      run_from as' _ _ twice (record {
        phase = further.phase;
        path = Steps-append h.path further.path;
        matches = further.matches;
      })
