-- ===== src/Connect/Handlers.antt =====
-- Every handler of the connect operation keeps to the protocol of its phase.
use async_mqtt.Base.{by_test, true, false, ℕ, Bool, ◌≡◌, refl, List, [], ◌∷◌, Option, if◌then◌else◌}
use async_mqtt.Codec.Library.{Boost}
use async_mqtt.Codec.Messages.{Will}
use async_mqtt.Context.{Credentials}
use async_mqtt.Replies.{try_again}
use async_mqtt.Errors.{ErrorCode, io, failed}
use async_mqtt.Connect.{
  Answer, Negotiated, Next, complete, do_shutdown, unless_cancelled, handle_ws_handshake,
  do_ws_handshake, do_tls_handshake, handle_connect, handle_tls_handshake, handle_init_auth_data,
  handle_send_connect, read_header, handle_send_auth, handle_auth_data, handle_complete_auth,
  authenticate, min_packet_sz,
}
use async_mqtt.Connect.Protocol.{
  Phase, opening, asked, challenged, verifying, live, IsFailure, IsHeard, Leads, Matches,
  shutdown-Leads, guarded, send-Leads, one, first_auth, upgrades, secures, reads_header, answers,
  verifies, fails_opening, aborts,
}

module _ (lib : Boost) (tls ws : Bool) (creds : Credentials) (will_msg : Option Will)
    (keep_alive : ℕ) (auth_method : List ℕ) where
  abbrev pub LeadsTo : Answer → Phase → Next → Type 0
  LeadsTo = Leads lib tls ws creds will_msg keep_alive auth_method

  abbrev pub shuts :
      (x : Answer) (ph : Phase) (ec : ErrorCode) (s : Negotiated)
      → x.cancelled ≡ false
      → live ph ≡ true
      → IsFailure ec
      → LeadsTo x ph (do_shutdown ec s)
  shuts = shutdown-Leads lib tls ws creds will_msg keep_alive auth_method

  -- The handlers before the CONNECT packet complete with the error.
  opening_guarded :
      (x : Answer) (s : Negotiated) (good : Next)
      → (IsHeard x → LeadsTo x opening good)
      → LeadsTo x opening
          (unless_cancelled x.cancelled s (if failed x.ec then complete (io x.ec) s else good))
  unfolding Matches
  opening_guarded x s good h =
      guarded lib tls ws creds will_msg keep_alive auth_method x opening s _ _ refl
        (λ n f. one lib tls ws creds will_msg keep_alive auth_method (fails_opening x n f) refl) h

  authenticate-Leads :
      (x : Answer) (method : List ℕ) (s : Negotiated)
      → IsHeard x
      → LeadsTo x opening (authenticate lib tls ws creds will_msg keep_alive auth_method method s)
  unfolding Matches
  authenticate-Leads x [] s h = send-Leads lib tls ws creds will_msg keep_alive auth_method x s h
  authenticate-Leads x (b ∷ method) s h =
      one lib tls ws creds will_msg keep_alive auth_method (first_auth x h) refl

  pub ws_handshake-Leads :
      (x : Answer) (s : Negotiated)
      → LeadsTo x opening
          (handle_ws_handshake lib tls ws creds will_msg keep_alive auth_method x.cancelled x.ec s)
  unfolding handle_ws_handshake
  ws_handshake-Leads x s = opening_guarded x s _ (λ h. authenticate-Leads x auth_method s h)

  do_ws-Leads :
      (x : Answer) (s : Negotiated)
      → IsHeard x
      → LeadsTo x opening
          (do_ws_handshake lib tls ws creds will_msg keep_alive auth_method x.cancelled s)
  unfolding do_ws_handshake handle_ws_handshake Matches
  do_ws-Leads x s h =
      by_test (LeadsTo x opening) ws _ _
        (λ w. one lib tls ws creds will_msg keep_alive auth_method (upgrades x h w) refl)
        (λ w.
          by_test (LeadsTo x opening) x.cancelled _ _
            (λ c.
              one lib tls ws creds will_msg keep_alive auth_method (aborts x opening c refl) refl)
            (λ n. authenticate-Leads x auth_method s h))

  do_tls-Leads :
      (x : Answer) (s : Negotiated)
      → IsHeard x
      → LeadsTo x opening
          (do_tls_handshake lib tls ws creds will_msg keep_alive auth_method x.cancelled s)
  unfolding do_tls_handshake Matches
  do_tls-Leads x s h =
      by_test (LeadsTo x opening) tls _ _
        (λ t. one lib tls ws creds will_msg keep_alive auth_method (secures x h t) refl)
        (λ t. do_ws-Leads x s h)

  pub connect-Leads :
      (x : Answer) (s : Negotiated)
      → LeadsTo x opening
          (handle_connect lib tls ws creds will_msg keep_alive auth_method x.cancelled x.ec s)
  unfolding handle_connect
  connect-Leads x s = opening_guarded x s _ (λ h. do_tls-Leads x s h)

  pub tls_handshake-Leads :
      (x : Answer) (s : Negotiated)
      → LeadsTo x opening
          (handle_tls_handshake lib tls ws creds will_msg keep_alive auth_method x.cancelled x.ec s)
  unfolding handle_tls_handshake
  tls_handshake-Leads x s = opening_guarded x s _ (λ h. do_ws-Leads x s h)

  pub init_auth-Leads :
      (x : Answer) (s : Negotiated)
      → LeadsTo x opening (
          handle_init_auth_data lib tls ws creds will_msg keep_alive auth_method x.cancelled x.ec
            x.bytes s)
  unfolding handle_init_auth_data
  init_auth-Leads x s =
      guarded lib tls ws creds will_msg keep_alive auth_method x opening s _ _ refl
        (λ n f. shuts x opening (io try_again) s n refl refl)
        (λ h. send-Leads lib tls ws creds will_msg keep_alive auth_method x _ h)

  reading :
      (x : Answer) (size : ℕ) (s : Negotiated)
      → IsHeard x
      → LeadsTo x asked (read_header lib tls ws creds will_msg keep_alive auth_method size s)
  unfolding Matches
  reading x size s h =
      one lib tls ws creds will_msg keep_alive auth_method (reads_header x size h) refl

  pub send_connect-Leads :
      (x : Answer) (s : Negotiated)
      → LeadsTo x asked
          (handle_send_connect lib tls ws creds will_msg keep_alive auth_method x.cancelled x.ec s)
  unfolding handle_send_connect
  send_connect-Leads x s =
      guarded lib tls ws creds will_msg keep_alive auth_method x asked s _ _ refl
        (λ n f. shuts x asked (io x.ec) s n refl f) (λ h. reading x min_packet_sz s h)

  pub send_auth-Leads :
      (x : Answer) (size : ℕ) (s : Negotiated)
      → LeadsTo x asked (
          handle_send_auth lib tls ws creds will_msg keep_alive auth_method x.cancelled x.ec size s)
  unfolding handle_send_auth
  send_auth-Leads x size s =
      guarded lib tls ws creds will_msg keep_alive auth_method x asked s _ _ refl
        (λ n f. shuts x asked (io x.ec) s n refl f) (λ h. reading x size s h)

  pub auth_data-Leads :
      (x : Answer) (size : ℕ) (s : Negotiated)
      → LeadsTo x challenged (
          handle_auth_data lib tls ws creds will_msg keep_alive auth_method x.cancelled x.ec x.bytes
            size s)
  unfolding handle_auth_data Matches
  auth_data-Leads x size s =
      guarded lib tls ws creds will_msg keep_alive auth_method x challenged s _ _ refl
        (λ n f. shuts x challenged (io try_again) s n refl refl)
        (λ h. one lib tls ws creds will_msg keep_alive auth_method (answers x _ h) refl)

  pub complete_auth-Leads :
      (x : Answer) (s : Negotiated)
      → LeadsTo x verifying
          (handle_complete_auth lib tls ws creds will_msg keep_alive auth_method x.cancelled x.ec s)
  unfolding handle_complete_auth Matches
  complete_auth-Leads x s =
      guarded lib tls ws creds will_msg keep_alive auth_method x verifying s _ _ refl
        (λ n f. shuts x verifying (io try_again) s n refl refl)
        (λ h. one lib tls ws creds will_msg keep_alive auth_method (verifies x h) refl)
