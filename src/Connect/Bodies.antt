-- ===== src/Connect/Bodies.antt =====
-- What the connect operation makes of the rest of a packet, in the protocol of its phase.
use async_mqtt.Base.{
  arith, take, ◌++◌, inr, ◌⊎◌, subst, by_test, ℕ, Bool, true, false, not, ◌==◌, inl, ◌≡◌, refl,
  List, [], Option, if◌then◌else◌,
}
use async_mqtt.Base.Paths.{step}
use async_mqtt.Codec.Library.{Boost}
use async_mqtt.Codec.Cursor.{Res, ok, fail, fault}
use async_mqtt.Codec.Property.{Prop, authentication_method, authentication_data}
use async_mqtt.Operation.{text_at}
use async_mqtt.Codec.Messages.{Will}
use async_mqtt.Context.{Credentials}
use async_mqtt.ReasonCodes.{
  ReasonCode, Lookup, found, nullopt, past_end, is_error, connack, to_reason_code,
}
use async_mqtt.Replies.{try_again}
use async_mqtt.Errors.{io, client, malformed_packet}
use async_mqtt.Connect.{
  same_option, Answer, text_or_empty, Negotiated, Next, do_shutdown, unknown, connack_accepted,
  logs_connack, logging, connack_code, connack_read, on_connack, auth_code, auth_read, on_auth,
  packet_of, handle_read_packet, has_text,
}
use async_mqtt.Connect.Protocol.{
  Phase, headed, accepted, IsHeard, IsHeader, IsConnack, IsAuth, Allowed, Matches, Leads, one, lost,
  guarded, answered, refuses, accepts, last_auth, succeeds, next_auth,
}
use async_mqtt.Connect.Handlers.{shuts}

module _ (lib : Boost) (tls ws : Bool) (creds : Credentials) (will_msg : Option Will)
    (keep_alive : ℕ) (auth_method : List ℕ) where
  abbrev Goes : Answer → Phase → Next → Type 0
  Goes = Leads lib tls ws creds will_msg keep_alive auth_method

  abbrev Connack : List ℕ → List ℕ → ReasonCode → Type 0
  Connack = IsConnack lib tls ws creds will_msg keep_alive auth_method

  abbrev AuthPacket : List ℕ → List ℕ → List ℕ → Type 0
  AuthPacket = IsAuth lib tls ws creds will_msg keep_alive auth_method

  malformed :
      (x : Answer) (header : List ℕ) (s : Negotiated)
      → IsHeard x
      → Goes x (headed header) (do_shutdown (client malformed_packet) s)
  malformed x header s h =
      shuts lib tls ws creds will_msg keep_alive auth_method x (headed header)
        (client malformed_packet) s h.0 refl tt

  left : (x : Answer) (header : List ℕ) (s : Negotiated) → Goes x (headed header) (unknown, s, [])
  left x header s =
      lost lib tls ws creds will_msg keep_alive auth_method x (headed header) s (λ e. ground arith)

  accepted-Leads :
      (x : Answer) (s : Negotiated)
      → IsHeard x
      → Goes x accepted (connack_accepted lib tls ws creds will_msg keep_alive auth_method s)
  unfolding Matches
  accepted-Leads x s h =
      by_test (Goes x accepted) (has_text (text_at authentication_method s.co_props)) _ _
        (λ e. one lib tls ws creds will_msg keep_alive auth_method (last_auth x _ h) refl)
        (λ e. one lib tls ws creds will_msg keep_alive auth_method (succeeds x h) refl)

  -- The call of the logger stands before the others.
  logging-Leads :
      (x : Answer) (a b : Phase) (rc : ReasonCode) (next : Next)
      → Allowed lib tls ws creds will_msg keep_alive auth_method a (x, logs_connack rc) b
      → Goes x b next
      → Goes x a (logging lib tls ws creds will_msg keep_alive auth_method rc next)
  unfolding answered
  logging-Leads x a b rc (stage, s, calls) k l = record {
    phase = l.phase;
    path = step k l.path;
    matches = l.matches;
  }

  decided :
      (x : Answer) (header : List ℕ) (b : Bool) (rc : ReasonCode) (s : Negotiated)
      → IsHeard x
      → Connack header x.bytes rc
      → is_error rc ≡ b
      → Goes x (headed header) (
          logging lib tls ws creds will_msg keep_alive auth_method rc (
            if b
            then do_shutdown (io try_again) s
            else connack_accepted lib tls ws creds will_msg keep_alive auth_method s))
  decided x header true rc s h c e =
      logging-Leads x _ (headed header) rc _ (refuses x header rc h c e) (
        shuts lib tls ws creds will_msg keep_alive auth_method x (headed header) (io try_again) s
          h.0 refl refl)
  decided x header false rc s h c e =
      logging-Leads x _ accepted rc _ (accepts x header rc h c e) (accepted-Leads x s h)

  code-Leads :
      (x : Answer) (header : List ℕ) (l : Lookup) (s : Negotiated)
      → IsHeard x
      → ((rc : ReasonCode) → l ≡ found rc → Connack header x.bytes rc)
      → Goes x (headed header) (connack_code lib tls ws creds will_msg keep_alive auth_method l s)
  code-Leads x header (found rc) s h c = decided x header (is_error rc) rc s h (c rc refl) refl
  code-Leads x header nullopt s h c = malformed x header s h
  code-Leads x header past_end s h c = left x header s

  read-Leads :
      (x : Answer) (header : List ℕ) (r : Res (ℕ × ℕ × List Prop)) (s : Negotiated)
      → IsHeard x
      → ((present code : ℕ) (props : List Prop) (rest : List ℕ) (rc : ReasonCode)
          → r ≡ ok (present, code, props) rest
          → to_reason_code connack code ≡ found rc
          → Connack header x.bytes rc)
      → Goes x (headed header) (connack_read lib tls ws creds will_msg keep_alive auth_method r s)
  read-Leads x header (ok (present, code, props) rest) s h c =
      code-Leads x header _ _ h (λ rc e. c present code props rest rc refl e)
  read-Leads x header fail s h c = malformed x header s h
  read-Leads x header fault s h c = left x header s

  connack-Leads :
      (x : Answer) (header : List ℕ) (varlen : ℕ) (front : List ℕ) (s : Negotiated)
      → IsHeard x
      → IsHeader header 0x20 varlen front
      → Goes x (headed header) (
          on_connack lib tls ws creds will_msg keep_alive auth_method
            (take varlen (front ++ x.bytes))
            s)
  unfolding on_connack
  connack-Leads x header varlen front s h k =
      read-Leads x header _ s h (λ present code props rest rc e f. record {
        varlen = varlen;
        front = front;
        is_header = k;
        present = present;
        code = code;
        props = props;
        rest = rest;
        is_body = e;
        is_reason = f;
      })

  challenge-Leads :
      (x : Answer) (header : List ℕ) (size : ℕ) (l : Lookup) (props : List Prop) (s : Negotiated)
      → IsHeard x
      → AuthPacket header x.bytes (text_or_empty (text_at authentication_data props))
      → Goes x
          (headed header)
          (auth_code lib tls ws creds will_msg keep_alive auth_method size l props s)
  unfolding Matches
  challenge-Leads x header size (found rc) props s h c =
      by_test (Goes x (headed header))
        (same_option (text_at authentication_method props)
          (text_at authentication_method s.co_props))
        _ _
        (λ e. one lib tls ws creds will_msg keep_alive auth_method (next_auth x header _ h c) refl)
        (λ e. malformed x header s h)
  challenge-Leads x header size nullopt props s h c = malformed x header s h
  challenge-Leads x header size past_end props s h c = left x header s

  auth_read-Leads :
      (x : Answer) (header : List ℕ) (size : ℕ) (r : Res (ℕ × List Prop)) (s : Negotiated)
      → IsHeard x
      → ((code : ℕ) (props : List Prop) (rest : List ℕ)
          → r ≡ ok (code, props) rest
          → AuthPacket header x.bytes (text_or_empty (text_at authentication_data props)))
      → Goes x (headed header) (auth_read lib tls ws creds will_msg keep_alive auth_method size r s)
  auth_read-Leads x header size (ok (code, props) rest) s h c =
      challenge-Leads x header size _ props s h (c code props rest refl)
  auth_read-Leads x header size fail s h c = malformed x header s h
  auth_read-Leads x header size fault s h c = left x header s

  auth-Leads :
      (x : Answer) (header : List ℕ) (size varlen : ℕ) (front : List ℕ) (s : Negotiated)
      → IsHeard x
      → IsHeader header 0xF0 varlen front
      → Goes x (headed header) (
          on_auth lib tls ws creds will_msg keep_alive auth_method size
            (take varlen (front ++ x.bytes))
            s)
  unfolding on_auth
  auth-Leads x header size varlen front s h k =
      auth_read-Leads x header size _ s h (λ code props rest e. record {
        varlen = varlen;
        front = front;
        is_header = k;
        code = code;
        props = props;
        rest = rest;
        is_body = e;
        is_data = refl;
      })

  other_code : (code : ℕ) → (code ≡ 0x20) ⊎ (code ≡ 0xF0) → (code == 0x20) ≡ false → code ≡ 0xF0
  other_code code (inl e) h = ground (arith, e, h)
  other_code code (inr e) h = e

  packet-Leads :
      (x : Answer) (header : List ℕ) (size code varlen : ℕ) (front : List ℕ) (s : Negotiated)
      → IsHeard x
      → IsHeader header code varlen front
      → Goes x (headed header) (
          packet_of lib tls ws creds will_msg keep_alive auth_method size code
            (take varlen (front ++ x.bytes))
            s)
  packet-Leads x header size code varlen front s h k =
      let Kind : ℕ → Type 0 = λ c. IsHeader header c varlen front in
      by_test (Goes x (headed header)) (code == 0x20) _ _
        (λ e.
          let is_connack : code ≡ 0x20 = ground (arith, e) in
          connack-Leads x header varlen front s h (subst Kind is_connack k))
        (λ e.
          by_test (Goes x (headed header))
            (not (has_text (text_at authentication_method s.co_props))) _ _
            (λ n. malformed x header s h)
            (λ n.
              auth-Leads x header size varlen front s h
                (subst Kind (other_code code k.is_known e) k)))

  pub read_packet-Leads :
      (x : Answer) (header : List ℕ) (size code varlen : ℕ) (front : List ℕ) (s : Negotiated)
      → IsHeader header code varlen front
      → Goes x (headed header) (
          handle_read_packet lib tls ws creds will_msg keep_alive auth_method x.cancelled x.ec
            x.bytes size code varlen front s)
  unfolding handle_read_packet
  read_packet-Leads x header size code varlen front s k =
      guarded lib tls ws creds will_msg keep_alive auth_method x (headed header) s _ _ refl
        (λ n f.
          shuts lib tls ws creds will_msg keep_alive auth_method x (headed header) (io x.ec) s n
            refl f)
        (λ h. packet-Leads x header size code varlen front s h k)
