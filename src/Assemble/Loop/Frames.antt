-- ===== src/Assemble/Loop/Frames.antt =====
-- The packets of a stream come out as they were framed.
use async_mqtt.Codec.Library.{Boost}
use async_mqtt.Codec.Cursor.{ok}
use async_mqtt.Codec.Decoder.{limited}
use async_mqtt.Codec.MessageDecoders.{decode_packet_id}
use async_mqtt.Base.{
  ◌*◌, ◌+◌, ◌-◌, ltb, ℕ, zero, suc, ◌/◌, ◌^◌, ◌≤◌, ◌<◌, ◌==◌, false, ◌≡◌, ◌≢◌, refl, ap, ◌∙◌, List,
  [], ◌∷◌, ◌++◌, length, length-append, arith, All,
}
use async_mqtt.Codec.Packets.{framed}
use async_mqtt.Assemble.{on_bytes, Dispatched, refused, pong, reply, message, dispatch_kind}
use async_mqtt.Assemble.Packets.{on_bytes-framed}
use async_mqtt.Assemble.Loop.{
  Handed, gives_reply, gives_message, State, waiting, dispatched, drain, on_reads, joined,
}
use async_mqtt.Assemble.Loop.Chunks.{on_reads-joined}

-- A control byte that the loop knows, and a body that fits, of a reply with its packet identifier.
abbrev pub IsSendable : ℕ → ℕ × List ℕ → Type 0
IsSendable recv_size (control, body) =
    ((control / 16 == 0) ≡ false)
    × (length body < 2 ^ 28)
    × (length (framed control body) ≤ recv_size)
    × (dispatch_kind control ≢ refused)
    × (dispatch_kind control ≡ reply → 2 ≤ length body)

unfoldable pub wire : List (ℕ × List ℕ) → List ℕ
wire [] = []
wire ((control, body) ∷ packets) = framed control body ++ wire packets

-- A reply goes by the upper half of its control byte, and by its first two bytes in network order.
abbrev pub handing : Dispatched → ℕ → List ℕ → List Handed → List Handed
handing refused control body more = []
handing pong control body more = more
handing reply control (high ∷ low ∷ body) more =
    gives_reply (control / 16 * 16) (high * 256 + low) body ∷ more
handing reply control body more = []
handing message control body more = gives_message control body ∷ more

-- PINGRESP packets are left out.
unfoldable pub handed : List (ℕ × List ℕ) → List Handed
handed [] = []
handed ((control, body) ∷ packets) = handing (dispatch_kind control) control body (handed packets)

module _ (lib : Boost) where
  packet_id-high_low :
      (high low : ℕ) (body : List ℕ)
      → decode_packet_id lib (high ∷ low ∷ body) ≡ ok (high * 256 + low) body
  unfolding decode_packet_id limited
  packet_id-high_low high low body =
      let inside : ltb (length (high ∷ low ∷ body)) 2 ≡ false = ground arith in
      let left : length (high ∷ low ∷ body) - 2 ≡ length body = omega arith in
      rw (inside, left, lib.big_word_reads (length body) high low body (omega arith)) refl

  dispatched-handing :
      (kind : Dispatched) (control : ℕ) (body : List ℕ) (more : List Handed) (s : State)
      → kind ≢ refused
      → (kind ≡ reply → 2 ≤ length body)
      → dispatched lib kind control body (more, s) ≡ (handing kind control body more, s)
  dispatched-handing refused control body more s h l = elim (h refl) [ ]
  dispatched-handing pong control body more s h l = refl
  dispatched-handing reply control (high ∷ low ∷ body) more s h l =
      rw (packet_id-high_low high low body) refl
  dispatched-handing reply control (high ∷ []) more s h l =
      let two : 2 ≤ length (high ∷ []) = l refl in ground arith
  dispatched-handing reply control [] more s h l =
      let two : 2 ≤ length {A = ℕ} [] = l refl in ground arith
  dispatched-handing message control body more s h l = refl

  drain-wire :
      (fuel recv_size : ℕ) (packets : List (ℕ × List ℕ))
      → All (IsSendable recv_size) packets
      → length (wire packets) ≤ fuel
      → drain lib fuel recv_size (wire packets) ≡ (handed packets, waiting [])
  unfolding drain wire handed on_bytes
  drain-wire zero recv_size [] h l = refl
  drain-wire (suc fuel) recv_size [] h l = refl
  drain-wire zero recv_size ((control, body) ∷ packets) h l = ground arith
  drain-wire (suc fuel) recv_size ((control, body) ∷ packets) ((p, q, r, k, two), h) l =
      rw (on_bytes-framed recv_size control body (wire packets) p q r) (
        ap (dispatched lib (dispatch_kind control) control body) (
          drain-wire fuel recv_size packets h
            (omega (arith, length-append (framed control body) (wire packets))))
        ∙ dispatched-handing (dispatch_kind control) control body (handed packets) (waiting []) k
            two)

  -- When the bytes of a connection are those of packets with control bytes that the client knows, no
  -- larger than the receive limit, the replies of two bytes at least, then however they are cut into
  -- reads, the loop hands out each reply by its control code and packet identifier with the bytes
  -- behind it, and each message whole, all in order, passes over the PINGRESP packets, and waits with
  -- nothing left.
  pub on_reads-wire :
      (recv_size : ℕ) (packets : List (ℕ × List ℕ)) (chunks : List (List ℕ))
      → All (IsSendable recv_size) packets
      → joined chunks ≡ wire packets
      → on_reads lib recv_size (waiting []) chunks ≡ (handed packets, waiting [])
  on_reads-wire recv_size packets chunks h e =
      on_reads-joined lib recv_size chunks
      ∙ ap (λ s. drain lib (length s) recv_size s) e
      ∙ drain-wire (length (wire packets)) recv_size packets h (omega arith)
