-- ===== src/Connect/Attempt.antt =====
-- A whole attempt to connect, under every sequence of answers.
use async_mqtt.Base.{
  sym, subst, ℕ, Bool, ◌≡◌, ◌++◌, ap, ◌∙◌, append_assoc, append-nil, refl, List, [], ◌∷◌, Option,
}
use async_mqtt.Base.Paths.{Steps, stop, Steps-append}
use async_mqtt.Codec.Library.{Boost}
use async_mqtt.Codec.Messages.{Will}
use async_mqtt.Context.{Credentials}
use async_mqtt.Connect.{
  Negotiated, Next, Answer, Call, async_connect, handle, run, perform, Stage, on_connect,
  on_tls_handshake, on_ws_handshake, on_init_auth_data, on_send_connect, on_complete_auth, done,
  unknown, on_fixed_header, on_auth_data, on_send_auth, on_read_packet, on_shutdown,
}
use async_mqtt.Connect.Protocol.{
  Phase, opening, Event, answered, Allowed, Leads, Matches, one, fails,
}
use async_mqtt.Connect.Handlers.{
  connect-Leads, tls_handshake-Leads, ws_handshake-Leads, init_auth-Leads, send_connect-Leads,
  complete_auth-Leads, auth_data-Leads, send_auth-Leads,
}
use async_mqtt.Connect.Reading.{fixed_header-Leads}
use async_mqtt.Connect.Bodies.{read_packet-Leads}

-- The calls of some events.
unfoldable pub calls_of : List Event → List Call
calls_of [] = []
calls_of ((x, c) ∷ events) = c ∷ calls_of events

calls_of-append :
    (events more : List Event) → calls_of (events ++ more) ≡ calls_of events ++ calls_of more
unfolding calls_of
calls_of-append [] more = refl
calls_of-append ((x, c) ∷ events) more = ap (λ cs. c ∷ cs) (calls_of-append events more)

calls_of-answered : (x : Answer) (calls : List Call) → calls_of (answered x calls) ≡ calls
unfolding calls_of answered
calls_of-answered x [] = refl
calls_of-answered x (c ∷ calls) = ap (λ cs. c ∷ cs) (calls_of-answered x calls)

module _ (lib : Boost) (tls ws : Bool) (creds : Credentials) (will_msg : Option Will)
    (keep_alive : ℕ) (auth_method : List ℕ) where
  -- The calls that the handlers make, from a stage on, each with the answer to its handler.
  unfoldable pub transcript : List Answer → Stage → Negotiated → List Event
  transcript [] stage s = []
  transcript (x ∷ more) stage s =
      let (next, t, calls) = handle lib tls ws creds will_msg keep_alive auth_method x stage s in
      answered x calls ++ transcript more next t

  -- The events of an attempt lead from the phase to one that matches its stage.
  pub record Follows (ph : Phase) (events : List Event) (stage : Stage) : Type 0 where
    pub phase : Phase
    pub path : Steps (Allowed lib tls ws creds will_msg keep_alive auth_method) ph events phase
    pub matches : Matches lib tls ws creds will_msg keep_alive auth_method stage phase

  abbrev Goes : Answer → Phase → Next → Type 0
  Goes = Leads lib tls ws creds will_msg keep_alive auth_method

  moved : {x : Answer} {a b : Phase} {next : Next} → a ≡ b → Goes x b next → Goes x a next
  moved {x} {next} m l = subst (λ p. Goes x p next) (sym m) l

  handle-Leads :
      (x : Answer) (stage : Stage) (ph : Phase) (s : Negotiated)
      → Matches lib tls ws creds will_msg keep_alive auth_method stage ph
      → Goes x ph (handle lib tls ws creds will_msg keep_alive auth_method x stage s)
  unfolding handle Matches answered
  handle-Leads x on_connect ph s m =
      moved m (connect-Leads lib tls ws creds will_msg keep_alive auth_method x s)
  handle-Leads x on_tls_handshake ph s m =
      moved m (tls_handshake-Leads lib tls ws creds will_msg keep_alive auth_method x s)
  handle-Leads x on_ws_handshake ph s m =
      moved m (ws_handshake-Leads lib tls ws creds will_msg keep_alive auth_method x s)
  handle-Leads x on_init_auth_data ph s m =
      moved m (init_auth-Leads lib tls ws creds will_msg keep_alive auth_method x s)
  handle-Leads x on_send_connect ph s m =
      moved m (send_connect-Leads lib tls ws creds will_msg keep_alive auth_method x s)
  handle-Leads x on_complete_auth ph s m =
      moved m (complete_auth-Leads lib tls ws creds will_msg keep_alive auth_method x s)
  handle-Leads x done ph s m = record { phase = ph; path = stop; matches = m }
  handle-Leads x unknown ph s m = record { phase = ph; path = stop; matches = m }
  handle-Leads x (on_fixed_header size) ph s m =
      moved m (fixed_header-Leads lib tls ws creds will_msg keep_alive auth_method x size s)
  handle-Leads x (on_auth_data size) ph s m =
      moved m (auth_data-Leads lib tls ws creds will_msg keep_alive auth_method x size s)
  handle-Leads x (on_send_auth size) ph s m =
      moved m (send_auth-Leads lib tls ws creds will_msg keep_alive auth_method x size s)
  handle-Leads x (on_read_packet size code varlen front) ph s m = moved m.is_headed (
      read_packet-Leads lib tls ws creds will_msg keep_alive auth_method x m.header size code varlen
        front s m.is_header)
  handle-Leads x (on_shutdown ec) ph s (m, f) =
      moved m (one lib tls ws creds will_msg keep_alive auth_method (fails x ec f) refl)

  -- From any stage that matches the phase.
  run-Follows :
      (answers : List Answer) (ph : Phase) (stage : Stage) (s : Negotiated) (effects : List Call)
      → Matches lib tls ws creds will_msg keep_alive auth_method stage ph
      → Follows ph
          (transcript answers stage s)
          (run lib tls ws creds will_msg keep_alive auth_method answers (stage, s, effects)).0
  unfolding run transcript
  run-Follows [] ph stage s effects m = record { phase = ph; path = stop; matches = m }
  run-Follows (x ∷ more) ph stage s effects m =
      let now : Next = handle lib tls ws creds will_msg keep_alive auth_method x stage s in
      let k : Goes x ph now = handle-Leads x stage ph s m in
      let later : Follows k.phase (transcript more now.0 now.1)
          (run lib tls ws creds will_msg keep_alive auth_method more
            (now.0, now.1, effects ++ now.2)).0 =
        run-Follows more k.phase now.0 now.1 (effects ++ now.2) k.matches in
      record {
        phase = later.phase;
        path = Steps-append _ k.path later.path;
        matches = later.matches;
      }

  run-transcript :
      (answers : List Answer) (stage : Stage) (s : Negotiated) (effects : List Call)
      → (run lib tls ws creds will_msg keep_alive auth_method answers (stage, s, effects)).2
        ≡ effects ++ calls_of (transcript answers stage s)
  unfolding run transcript calls_of
  run-transcript [] stage s effects = sym (append-nil effects)
  run-transcript (x ∷ more) stage s effects =
      let now : Next = handle lib tls ws creds will_msg keep_alive auth_method x stage s in
      let later : List Event = transcript more now.0 now.1 in
      run-transcript more now.0 now.1 (effects ++ now.2)
      ∙ append_assoc effects now.2 (calls_of later)
      ∙ ap (λ cs. effects ++ cs)
          (sym (
            calls_of-append (answered x now.2) later
            ∙ ap (λ cs. cs ++ calls_of later) (calls_of-answered x now.2)))

  -- Whatever is answered, and wherever it stops, the calls of an attempt behind the first, which
  -- connects, are those of its handlers, and they are steps of the protocol: the handshakes only for the
  -- layers there are, one CONNECT packet, then a read of a fixed header, a read of the rest only when the
  -- header is that of a CONNACK or an AUTH packet, an AUTH packet only behind one, with its
  -- authentication data given to the authenticator. A reason code is taken only from bytes that were
  -- read without an error and are a CONNACK packet with this code; the final step of the authenticator
  -- and success come only behind such a code that is not an error. An operation that was cancelled
  -- makes no call but to complete with operation_aborted, unless it shuts down already. Otherwise an
  -- error is completed with before the CONNECT packet, with the error of the answer, or behind a
  -- shutdown of the stream, and nothing follows the completion.
  pub attempt-Leads :
      (answers : List Answer) (s : Negotiated)
      → Follows opening
          (transcript answers on_connect s)
          (run lib tls ws creds will_msg keep_alive auth_method answers (perform s)).0
        × ((run lib tls ws creds will_msg keep_alive auth_method answers (perform s)).2
            ≡ async_connect ∷ calls_of (transcript answers on_connect s))
  unfolding Matches
  attempt-Leads answers s = (
    run-Follows answers opening on_connect s (async_connect ∷ []) refl,
    run-transcript answers on_connect s (async_connect ∷ []),
  )
