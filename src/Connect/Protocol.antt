-- ===== src/Connect/Protocol.antt =====
-- What an attempt to connect does on the wire, as a step relation on its phases. An event is a call,
-- with the answer that the handler which makes it was called with.
use async_mqtt.Base.{
  ◌*◌, ◌/◌, ◌++◌, length, take, by_test, ℕ, Bool, true, false, ◌⊎◌, ◌≡◌, ◌≢◌, refl, List, [], ◌∷◌,
  if◌then◌else◌, Option,
}
use async_mqtt.Base.Paths.{Steps, stop, step}
use async_mqtt.Codec.Library.{Boost}
use async_mqtt.Codec.Cursor.{ok}
use async_mqtt.Codec.Varint.{varint_}
use async_mqtt.Codec.MessageDecoders.{decode_connack, decode_auth}
use async_mqtt.Operation.{text_at}
use async_mqtt.Codec.Property.{Prop, authentication_data}
use async_mqtt.Codec.Messages.{Will, encode_auth}
use async_mqtt.Context.{Credentials}
use async_mqtt.ReasonCodes.{ReasonCode, found, is_error, connack, to_reason_code}
use async_mqtt.ReasonCodes
use async_mqtt.Replies.{success, operation_aborted}
use async_mqtt.Errors.{ErrorCode, io, client, failed}
use async_mqtt.Connect.{
  Answer, min_packet_sz, text_or_empty, client_initial, server_challenge, server_final, Call,
  tls_handshake, ws_handshake, async_shutdown, async_auth, async_write, async_read, logs_connack,
  completes, Negotiated, Stage, on_connect, on_tls_handshake, on_ws_handshake, on_init_auth_data,
  on_send_connect, on_complete_auth, done, unknown, on_fixed_header, on_auth_data, on_send_auth,
  on_read_packet, on_shutdown, Next, do_shutdown, unless_cancelled, connect_packet, send_connect,
}

-- `opening` is before the CONNECT packet, `asked` behind it or behind an AUTH packet, `awaiting` behind
-- the read of a fixed header, `headed` behind that of the rest of a packet which begins with these
-- bytes, `challenged` behind the call of the authenticator for an AUTH packet, `accepted` behind a
-- CONNACK packet without an error, `verifying` behind the call for the last step of the authenticator,
-- `closing` behind the shutdown.
pub data Phase : Type 0 where
  opening asked awaiting challenged accepted verifying closing finished : Phase
  headed : (header : List ℕ) → Phase

abbrev pub live : Phase → Bool
live closing = false
live finished = false
live _ = true

-- An error code that is not success.
abbrev pub IsFailure : ErrorCode → Type 0
IsFailure (io ec) = failed ec ≡ true
IsFailure (client e) = Unit {0}

-- An answer without an error, to an operation that was not cancelled.
abbrev pub IsHeard : Answer → Type 0
IsHeard x = (x.cancelled ≡ false) × (failed x.ec ≡ false)

abbrev pub Event : Type 0
Event = Answer × Call

-- The calls of one handler.
unfoldable pub answered : Answer → List Call → List Event
answered x [] = []
answered x (c ∷ calls) = (x, c) ∷ answered x calls

-- The bytes begin a CONNACK packet (0x20) or an AUTH packet (0xF0) with `varlen` bytes behind its fixed
-- header, the first of which are `front`.
pub record IsHeader (header : List ℕ) (code varlen : ℕ) (front : List ℕ) : Type 0 where
  pub control_byte : ℕ
  pub behind : List ℕ
  pub begins : header ≡ control_byte ∷ behind
  pub is_code : code ≡ control_byte / 16 * 16
  pub is_known : (code ≡ 0x20) ⊎ (code ≡ 0xF0)
  pub is_length : varint_ 0 behind ≡ ok varlen front

-- The operation is in the middle of such a packet.
pub record IsInPacket (ph : Phase) (code varlen : ℕ) (front : List ℕ) : Type 0 where
  pub header : List ℕ
  pub is_headed : ph ≡ headed header
  pub is_header : IsHeader header code varlen front

module _ (lib : Boost) (tls ws : Bool) (creds : Credentials) (will_msg : Option Will)
    (keep_alive : ℕ) (auth_method : List ℕ) where
  -- The two parts of what was read are a CONNACK packet with this reason code.
  pub record IsConnack (header more : List ℕ) (rc : ReasonCode) : Type 0 where
    pub varlen : ℕ
    pub front : List ℕ
    pub is_header : IsHeader header 0x20 varlen front
    pub present : ℕ
    pub code : ℕ
    pub props : List Prop
    pub rest : List ℕ
    pub is_body :
        decode_connack lib (length (take varlen (front ++ more))) (take varlen (front ++ more))
        ≡ ok (present, code, props) rest
    pub is_reason : to_reason_code connack code ≡ found rc

  -- They are an AUTH packet with this authentication data.
  pub record IsAuth (header more data_in : List ℕ) : Type 0 where
    pub varlen : ℕ
    pub front : List ℕ
    pub is_header : IsHeader header 0xF0 varlen front
    pub code : ℕ
    pub props : List Prop
    pub rest : List ℕ
    pub is_body :
        decode_auth lib (length (take varlen (front ++ more))) (take varlen (front ++ more))
        ≡ ok (code, props) rest
    pub is_data : data_in ≡ text_or_empty (text_at authentication_data props)

  pub data Allowed : Phase → Event → Phase → Type 0 where
    secures : (x : Answer) → IsHeard x → tls ≡ true → Allowed opening (x, tls_handshake) opening
    upgrades : (x : Answer) → IsHeard x → ws ≡ true → Allowed opening (x, ws_handshake) opening
    first_auth :
        (x : Answer) → IsHeard x → Allowed opening (x, async_auth client_initial []) opening
    asks :
        (x : Answer) (props : List Prop)
        → IsHeard x
        → Allowed opening
            (x, async_write (connect_packet lib tls ws creds will_msg keep_alive auth_method props))
            asked
    reads_header :
        (x : Answer) (size : ℕ)
        → IsHeard x
        → Allowed asked (x, async_read size 0 min_packet_sz) awaiting
    reads_rest :
        (x : Answer) (size count code varlen : ℕ) (front : List ℕ)
        → IsHeard x
        → IsHeader x.bytes code varlen front
        → Allowed awaiting (x, async_read size (length x.bytes) count) (headed x.bytes)
    next_auth :
        (x : Answer) (header data_in : List ℕ)
        → IsHeard x
        → IsAuth header x.bytes data_in
        → Allowed (headed header) (x, async_auth server_challenge data_in) challenged
    answers :
        (x : Answer) (props : List Prop)
        → IsHeard x
        → Allowed challenged
            (x, async_write (encode_auth lib ReasonCodes.continue_authentication.code props))
            asked
    refuses :
        (x : Answer) (header : List ℕ) (rc : ReasonCode)
        → IsHeard x
        → IsConnack header x.bytes rc
        → is_error rc ≡ true
        → Allowed (headed header) (x, logs_connack rc) (headed header)
    accepts :
        (x : Answer) (header : List ℕ) (rc : ReasonCode)
        → IsHeard x
        → IsConnack header x.bytes rc
        → is_error rc ≡ false
        → Allowed (headed header) (x, logs_connack rc) accepted
    last_auth :
        (x : Answer) (bytes : List ℕ)
        → IsHeard x
        → Allowed accepted (x, async_auth server_final bytes) verifying
    shuts_down :
        (x : Answer) (ph : Phase)
        → x.cancelled ≡ false
        → live ph ≡ true
        → Allowed ph (x, async_shutdown) closing
    fails_opening :
        (x : Answer)
        → x.cancelled ≡ false
        → failed x.ec ≡ true
        → Allowed opening (x, completes (io x.ec)) finished
    aborts :
        (x : Answer) (ph : Phase)
        → x.cancelled ≡ true
        → live ph ≡ true
        → Allowed ph (x, completes (io operation_aborted)) finished
    fails :
        (x : Answer) (ec : ErrorCode) → IsFailure ec → Allowed closing (x, completes ec) finished
    succeeds : (x : Answer) → IsHeard x → Allowed accepted (x, completes (io success)) finished
    verifies : (x : Answer) → IsHeard x → Allowed verifying (x, completes (io success)) finished

  -- The phase that an operation in a stage has reached.
  unfoldable pub Matches : Stage → Phase → Type 0
  Matches on_connect ph = ph ≡ opening
  Matches on_tls_handshake ph = ph ≡ opening
  Matches on_ws_handshake ph = ph ≡ opening
  Matches on_init_auth_data ph = ph ≡ opening
  Matches on_send_connect ph = ph ≡ asked
  Matches (on_fixed_header size) ph = ph ≡ awaiting
  Matches (on_read_packet size code varlen front) ph = IsInPacket ph code varlen front
  Matches (on_auth_data size) ph = ph ≡ challenged
  Matches (on_send_auth size) ph = ph ≡ asked
  Matches on_complete_auth ph = ph ≡ verifying
  Matches (on_shutdown ec) ph = (ph ≡ closing) × IsFailure ec
  Matches done ph = ph ≡ finished
  Matches unknown ph = ph ≢ finished

  -- The calls of a handler lead from the phase to one that matches the next stage.
  pub record Leads (x : Answer) (ph : Phase) (next : Next) : Type 0 where
    pub phase : Phase
    pub path : Steps Allowed ph (answered x next.2) phase
    pub matches : Matches next.0 phase

  pub one :
      {x : Answer} {a b : Phase} {stage : Stage} {s : Negotiated} {c : Call}
      → Allowed a (x, c) b
      → Matches stage b
      → Leads x a (stage, s, c ∷ [])
  unfolding answered
  one {b} k m = record { phase = b; path = step k stop; matches = m }

  pub shutdown-Leads :
      (x : Answer) (ph : Phase) (ec : ErrorCode) (s : Negotiated)
      → x.cancelled ≡ false
      → live ph ≡ true
      → IsFailure ec
      → Leads x ph (do_shutdown ec s)
  unfolding Matches
  shutdown-Leads x ph ec s n l f = one (shuts_down x ph n l) (refl, f)

  pub lost :
      (x : Answer) (ph : Phase) (s : Negotiated) → ph ≢ finished → Leads x ph (unknown, s, [])
  unfolding Matches answered
  lost x ph s h = record { phase = ph; path = stop; matches = h }

  -- A handler that begins with the test of a cancellation and that of the error.
  pub guarded :
      (x : Answer) (ph : Phase) (s : Negotiated) (bad good : Next)
      → live ph ≡ true
      → (x.cancelled ≡ false → failed x.ec ≡ true → Leads x ph bad)
      → (IsHeard x → Leads x ph good)
      → Leads x ph (unless_cancelled x.cancelled s (if failed x.ec then bad else good))
  unfolding Matches
  guarded x ph s bad good l h k =
      by_test (Leads x ph) x.cancelled _ _ (λ c. one (aborts x ph c l) refl)
        (λ n. by_test (Leads x ph) (failed x.ec) _ _ (λ f. h n f) (λ f. k (n, f)))

  pub send-Leads :
      (x : Answer) (s : Negotiated)
      → IsHeard x
      → Leads x opening (send_connect lib tls ws creds will_msg keep_alive auth_method s)
  unfolding Matches
  send-Leads x s h = one (asks x s.co_props h) refl
