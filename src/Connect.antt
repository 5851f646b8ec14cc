-- ===== src/Connect.antt =====
-- include/boost/mqtt5/impl/connect_op.hpp: one attempt to connect, from the endpoint to the CONNACK
-- packet.
--
-- The stages are named by the tags of the next handler, with what is bound to it; `done` is behind the
-- completion, and `unknown` where nothing is known of what the code does. A handler returns the next
-- stage, what it leaves in the context, and the calls that it makes. Whether the stream has a TLS and
-- a WebSocket layer is an argument.
pub mod Protocol
pub mod Attempt
pub mod Bodies
pub mod Buffer
pub mod Handlers
pub mod Reading
use async_mqtt.Base.{
  ℕ, ◌+◌, ◌-◌, ◌*◌, ◌/◌, ◌%◌, ◌^◌, Bool, true, false, not, ◌&&◌, List, [], ◌∷◌, ◌++◌, length, take,
  ltb, ◌==◌, same_text, if◌then◌else◌, Option, none, some,
}
use async_mqtt.Codec.Library.{Boost}
use async_mqtt.Codec.Cursor.{Res, ok, fail, fault}
use async_mqtt.Codec.Varint.{varint_}
use async_mqtt.Codec.Property.{
  Prop, Stored, text_value, single, authentication_method, authentication_data, auth_props,
}
use async_mqtt.Codec.Messages.{Will, encode_connect, encode_auth}
use async_mqtt.Codec.MessageDecoders.{decode_connack, decode_auth}
use async_mqtt.Context.{Credentials, set_session_present}
use async_mqtt.ReasonCodes.{
  Category, ReasonCode, Lookup, found, nullopt, past_end, connack, auth, is_error, to_reason_code,
}
use async_mqtt.ReasonCodes
use async_mqtt.Replies.{Error, success, operation_aborted, try_again}
use async_mqtt.Errors.{ErrorCode, io, client, failed, malformed_packet}
use async_mqtt.Operation.{text_at, set_at}

-- auth_step_e
pub data AuthStep : Type 0 where
  client_initial server_challenge server_final : AuthStep

-- The calls, in order. `async_read` is given the size of the buffer, and the place and the length of
-- what is to be read into it; `logs_connack` is the call of the logger.
pub data Call : Type 0 where
  async_connect tls_handshake ws_handshake async_shutdown : Call
  async_auth : (auth_step : AuthStep) (data_in : List ℕ) → Call
  async_write : (wire_data : List ℕ) → Call
  async_read : (buffer_size offset size : ℕ) → Call
  logs_connack : ReasonCode → Call
  completes : ErrorCode → Call

-- What a connection changes of mqtt_ctx.
pub record Negotiated : Type 0 where
  pub co_props : List Prop
  pub ca_props : List Prop
  pub state : ℕ

-- `buffer_size` is that of `*_buffer_ptr`; `front` is what it holds behind the fixed header.
pub data Stage : Type 0 where
  on_connect on_tls_handshake on_ws_handshake on_init_auth_data on_send_connect on_complete_auth
        done unknown :
      Stage
  on_fixed_header on_auth_data on_send_auth : (buffer_size : ℕ) → Stage
  on_read_packet : (buffer_size code varlen : ℕ) (front : List ℕ) → Stage
  on_shutdown : ErrorCode → Stage

abbrev pub Next : Type 0
Next = Stage × Negotiated × List Call

-- What a handler is called with: whether the operation was cancelled before, the error, and the bytes
-- that were read or the data of the authenticator. async_read with transfer_all reads as many as
-- were asked for unless there is an error.
pub record Answer : Type 0 where
  pub cancelled : Bool
  pub ec : Error
  pub bytes : List ℕ

abbrev pub min_packet_sz : ℕ
min_packet_sz = 5

abbrev pub complete : ErrorCode → Negotiated → Next
complete ec s = (done, s, completes ec ∷ [])

abbrev pub do_shutdown : ErrorCode → Negotiated → Next
do_shutdown ec s = (on_shutdown ec, s, async_shutdown ∷ [])

-- `is_cancelled`, which every handler but the last asks first.
abbrev pub unless_cancelled : Bool → Negotiated → Next → Next
unless_cancelled cancelled s next = if cancelled then complete (io operation_aborted) s else next

-- The optional is compared with the other one.
abbrev pub same_option : Option (List ℕ) → Option (List ℕ) → Bool
same_option none none = true
same_option (some u) (some v) = same_text u v
same_option _ _ = false

-- An optional string as it is stored.
abbrev pub stored_method : Option (List ℕ) → Stored
stored_method none = single none
stored_method (some u) = single (some (text_value u))

abbrev pub has_text : Option (List ℕ) → Bool
has_text none = false
has_text (some u) = true

abbrev pub text_or_empty : Option (List ℕ) → List ℕ
text_or_empty none = []
text_or_empty (some u) = u

module _ (lib : Boost) (tls ws : Bool) (creds : Credentials) (will_msg : Option Will)
    (keep_alive : ℕ) (auth_method : List ℕ) where
  abbrev pub connect_packet : List Prop → List ℕ
  connect_packet co_props =
      encode_connect lib creds.client_id creds.username creds.password keep_alive false co_props
        will_msg

  abbrev pub send_connect : Negotiated → Next
  send_connect s = (on_send_connect, s, async_write (connect_packet s.co_props) ∷ [])

  -- `operator()(on_ws_handshake, ...)` behind its tests.
  abbrev pub authenticate : List ℕ → Negotiated → Next
  authenticate [] s = send_connect s
  authenticate (b ∷ method) s = (
    on_init_auth_data,
    record s {
      co_props = set_at authentication_method (single (some (text_value (b ∷ method)))) s.co_props;
    },
    async_auth client_initial [] ∷ [],
  )

  unfoldable pub handle_ws_handshake : Bool → Error → Negotiated → Next
  handle_ws_handshake cancelled ec s =
      unless_cancelled cancelled s
        (if failed ec then complete (io ec) s else authenticate auth_method s)

  -- Without a layer for it, the handler is called at once.
  unfoldable pub do_ws_handshake : Bool → Negotiated → Next
  do_ws_handshake cancelled s =
      if ws
      then (on_ws_handshake, s, ws_handshake ∷ [])
      else handle_ws_handshake cancelled success s

  unfoldable pub do_tls_handshake : Bool → Negotiated → Next
  do_tls_handshake cancelled s =
      if tls then (on_tls_handshake, s, tls_handshake ∷ []) else do_ws_handshake cancelled s

  unfoldable pub handle_connect : Bool → Error → Negotiated → Next
  handle_connect cancelled ec s =
      unless_cancelled cancelled s
        (if failed ec then complete (io ec) s else do_tls_handshake cancelled s)

  unfoldable pub handle_tls_handshake : Bool → Error → Negotiated → Next
  handle_tls_handshake cancelled ec s =
      unless_cancelled cancelled s
        (if failed ec then complete (io ec) s else do_ws_handshake cancelled s)

  unfoldable pub handle_init_auth_data : Bool → Error → List ℕ → Negotiated → Next
  handle_init_auth_data cancelled ec bytes s = unless_cancelled cancelled s (
      if failed ec
      then do_shutdown (io try_again) s
      else send_connect (record s {
        co_props = set_at authentication_data (single (some (text_value bytes))) s.co_props;
      }))

  abbrev pub read_header : ℕ → Negotiated → Next
  read_header buffer_size s =
      (on_fixed_header buffer_size, s, async_read buffer_size 0 min_packet_sz ∷ [])

  unfoldable pub handle_send_connect : Bool → Error → Negotiated → Next
  handle_send_connect cancelled ec s =
      unless_cancelled cancelled s
        (if failed ec then do_shutdown (io ec) s else read_header min_packet_sz s)

  -- The rest of the packet: `num_read + remain_len` is `wanted`, and `remain_len` becomes a size_t. A
  -- read that leaves the buffer is not followed.
  abbrev pub read_rest : (buffer_size num_read code varlen : ℕ) → List ℕ → Negotiated → Next
  read_rest buffer_size num_read code varlen front s =
      let wanted = num_read - length front + varlen in
      let size = if ltb buffer_size wanted then wanted else buffer_size in
      let remain_len = (wanted + 2 ^ 64 - num_read) % 2 ^ 64 in
      (
        (if ltb size (num_read + remain_len)
            then unknown
            else on_read_packet size code varlen front),
        s,
        async_read size num_read remain_len ∷ [],
      )

  abbrev pub varlen_read : (buffer_size num_read code : ℕ) → Res ℕ → Negotiated → Next
  varlen_read buffer_size num_read code (ok varlen front) s =
      read_rest buffer_size num_read code varlen front s
  varlen_read buffer_size num_read code fail s = do_shutdown (io try_again) s
  varlen_read buffer_size num_read code fault s = (unknown, s, [])

  -- On the bytes that were read.
  unfoldable pub fixed_header_of : ℕ → List ℕ → Negotiated → Next
  fixed_header_of buffer_size [] s = (unknown, s, [])
  fixed_header_of buffer_size (b ∷ bytes) s =
      let code = b / 16 * 16 in
      if not (code == 0xF0) && not (code == 0x20)
      then do_shutdown (io try_again) s
      else varlen_read buffer_size (length (b ∷ bytes)) code (varint_ 0 bytes) s

  unfoldable pub handle_fixed_header : Bool → Error → List ℕ → ℕ → Negotiated → Next
  handle_fixed_header cancelled ec bytes buffer_size s =
      unless_cancelled cancelled s
        (if failed ec then do_shutdown (io ec) s else fixed_header_of buffer_size bytes s)

  abbrev pub connack_accepted : Negotiated → Next
  connack_accepted s =
      if has_text (text_at authentication_method s.co_props)
      then (
        on_complete_auth,
        s,
        async_auth server_final (text_or_empty (text_at authentication_data s.ca_props)) ∷ [],
      )
      else complete (io success) s

  abbrev pub logging : ReasonCode → Next → Next
  logging rc (stage, s, calls) = (stage, s, logs_connack rc ∷ calls)

  abbrev pub connack_code : Lookup → Negotiated → Next
  connack_code (found rc) s =
      logging rc (if is_error rc then do_shutdown (io try_again) s else connack_accepted s)
  connack_code nullopt s = do_shutdown (client malformed_packet) s
  connack_code past_end s = (unknown, s, [])

  abbrev pub connack_read : Res (ℕ × ℕ × List Prop) → Negotiated → Next
  connack_read (ok (present, code, props) rest) s =
      connack_code (to_reason_code connack code)
        (record s { ca_props = props; state = set_session_present (not (present == 0)) s.state })
  connack_read fail s = do_shutdown (client malformed_packet) s
  connack_read fault s = (unknown, s, [])

  unfoldable pub on_connack : List ℕ → Negotiated → Next
  on_connack body s = connack_read (decode_connack lib (length body) body) s

  abbrev pub auth_code : ℕ → Lookup → List Prop → Negotiated → Next
  auth_code size (found rc) props s =
      if same_option (text_at authentication_method props)
        (text_at authentication_method s.co_props)
      then (
        on_auth_data size,
        s,
        async_auth server_challenge (text_or_empty (text_at authentication_data props)) ∷ [],
      )
      else do_shutdown (client malformed_packet) s
  auth_code size nullopt props s = do_shutdown (client malformed_packet) s
  auth_code size past_end props s = (unknown, s, [])

  abbrev pub auth_read : ℕ → Res (ℕ × List Prop) → Negotiated → Next
  auth_read size (ok (code, props) rest) s = auth_code size (to_reason_code auth code) props s
  auth_read size fail s = do_shutdown (client malformed_packet) s
  auth_read size fault s = (unknown, s, [])

  unfoldable pub on_auth : ℕ → List ℕ → Negotiated → Next
  on_auth size body s = auth_read size (decode_auth lib (length body) body) s

  -- `[first, last)` is `body`.
  abbrev pub packet_of : (buffer_size code : ℕ) → List ℕ → Negotiated → Next
  packet_of buffer_size code body s =
      if code == 0x20
      then on_connack body s
      else if not (has_text (text_at authentication_method s.co_props))
      then do_shutdown (client malformed_packet) s
      else on_auth buffer_size body s

  unfoldable pub handle_read_packet :
      Bool → Error → List ℕ → (buffer_size code varlen : ℕ) → List ℕ → Negotiated → Next
  handle_read_packet cancelled ec bytes buffer_size code varlen front s =
      unless_cancelled cancelled s (
        if failed ec
        then do_shutdown (io ec) s
        else packet_of buffer_size code (take varlen (front ++ bytes)) s)

  abbrev pub auth_packet : List ℕ → Negotiated → List ℕ
  auth_packet bytes s = encode_auth lib ReasonCodes.continue_authentication.code (
      set_at authentication_data (single (some (text_value bytes))) (
        set_at authentication_method (stored_method (text_at authentication_method s.co_props))
          auth_props))

  unfoldable pub handle_auth_data : Bool → Error → List ℕ → ℕ → Negotiated → Next
  handle_auth_data cancelled ec bytes buffer_size s = unless_cancelled cancelled s (
      if failed ec
      then do_shutdown (io try_again) s
      else (on_send_auth buffer_size, s, async_write (auth_packet bytes s) ∷ []))

  unfoldable pub handle_send_auth : Bool → Error → ℕ → Negotiated → Next
  handle_send_auth cancelled ec buffer_size s =
      unless_cancelled cancelled s
        (if failed ec then do_shutdown (io ec) s else read_header buffer_size s)

  unfoldable pub handle_complete_auth : Bool → Error → Negotiated → Next
  handle_complete_auth cancelled ec s =
      unless_cancelled cancelled s
        (if failed ec then do_shutdown (io try_again) s else complete (io success) s)

  -- `operator()` by the stage; the code of the shutdown is ignored.
  unfoldable pub handle : Answer → Stage → Negotiated → Next
  handle a on_connect s = handle_connect a.cancelled a.ec s
  handle a on_tls_handshake s = handle_tls_handshake a.cancelled a.ec s
  handle a on_ws_handshake s = handle_ws_handshake a.cancelled a.ec s
  handle a on_init_auth_data s = handle_init_auth_data a.cancelled a.ec a.bytes s
  handle a on_send_connect s = handle_send_connect a.cancelled a.ec s
  handle a (on_fixed_header size) s = handle_fixed_header a.cancelled a.ec a.bytes size s
  handle a (on_read_packet size code varlen front) s =
      handle_read_packet a.cancelled a.ec a.bytes size code varlen front s
  handle a (on_auth_data size) s = handle_auth_data a.cancelled a.ec a.bytes size s
  handle a (on_send_auth size) s = handle_send_auth a.cancelled a.ec size s
  handle a on_complete_auth s = handle_complete_auth a.cancelled a.ec s
  handle a (on_shutdown ec) s = complete ec s
  handle a done s = (done, s, [])
  handle a unknown s = (unknown, s, [])

  -- The calls under a sequence of answers, behind those that were made.
  unfoldable pub run : List Answer → Next → Next
  run [] now = now
  run (a ∷ more) (stage, s, effects) =
      let (next, t, calls) = handle a stage s in run more (next, t, effects ++ calls)

abbrev pub perform : Negotiated → Next
perform s = (on_connect, s, async_connect ∷ [])
