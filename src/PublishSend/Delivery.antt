-- ===== src/PublishSend/Delivery.antt =====
-- A PUBLISH message is delivered once the connection holds long enough.
use async_mqtt.Base.{ℕ, zero, suc, true, false, ◌≡◌, refl, List, [], ◌∷◌, ◌++◌, length, some}
use async_mqtt.Codec.Library.{Boost}
use async_mqtt.Codec.Property.{Prop, pubcomp_props}
use async_mqtt.Codec.Messages.{Qos, at_least_once, exactly_once}
use async_mqtt.Codec.MessageDecoders.{decode_puback, decode_pubrec, decode_pubcomp}
use async_mqtt.ControlPacket.{ControlPacket, set_dup, of_with_pid}
use async_mqtt.ReasonCodes.{ReasonCode, puback, pubrec, pubcomp, is_error}
use async_mqtt.Replies.{success, try_again}
use async_mqtt.Errors.{io}
use async_mqtt.Base.{subst, sym}
use async_mqtt.PublishSend.{send_pubrel, on_pubrec}
use async_mqtt.Operation.{async_wait_reply, Effect, free_pid, completes, valid, read_code}
use async_mqtt.PublishSend.{
  Result, on_publish, on_pubrel, done, Next, run, handle, handle_publish, handle_puback,
  handle_pubrec, handle_pubrel, handle_pubcomp, Answer, pubrel_of,
}

abbrev pub written : Answer
written = record { cancelled = false; ec = success; reply = [] }

abbrev pub lost : Answer
lost = record { cancelled = false; ec = try_again; reply = [] }

abbrev pub replied : List ℕ → Answer
replied bytes = record { cancelled = false; ec = success; reply = bytes }

-- As often as this the packet is written and the connection lost before the reply.
abbrev pub losses : ℕ → List Answer → List Answer
losses zero answers = answers
losses (suc k) answers = written ∷ lost ∷ losses k answers

-- The operation is done, and its last calls give the identifier back and complete with the result.
pub record Delivers (pid : ℕ) (result : Result) (next : Next) : Type 0 where
  pub over : next.0 ≡ done
  pub before : List (Effect Result)
  pub calls : next.1 ≡ before ++ (free_pid pid true ∷ completes false (io success) result ∷ [])

module _ (lib : Boost) (n : ℕ) where
  puback-Delivers :
      (k : ℕ) (p : ControlPacket) (calls : List (Effect Result)) (reply : List ℕ) (rc : ReasonCode)
      (props : List Prop)
      → read_code puback (decode_puback lib (length reply) reply) ≡ valid rc props
      → Delivers p.packet_id
          (some (rc, props))
          (run lib at_least_once n (losses k (written ∷ replied reply ∷ [])) (on_publish p, calls))
  unfolding run handle handle_publish handle_puback set_dup
  puback-Delivers zero p calls reply rc props d =
      rw d (record { over = refl; before = _; calls = refl })
  puback-Delivers (suc k) p calls reply rc props d =
      puback-Delivers k (set_dup p) _ reply rc props d

  pubcomp-Delivers :
      (k pid : ℕ) (calls : List (Effect Result)) (reply : List ℕ) (rc : ReasonCode)
      (props : List Prop)
      → read_code pubcomp (decode_pubcomp lib (length reply) reply) ≡ valid rc props
      → Delivers pid (some (rc, pubcomp_props)) (
          run lib exactly_once n
            (losses k (written ∷ replied reply ∷ []))
            (on_pubrel (pubrel_of lib exactly_once n pid), calls))
  unfolding run handle handle_pubrel handle_pubcomp of_with_pid
  pubcomp-Delivers zero pid calls reply rc props d =
      rw d (record { over = refl; before = _; calls = refl })
  pubcomp-Delivers (suc k) pid calls reply rc props d =
      unfold of_with_pid in pubcomp-Delivers k pid _ reply rc props d

  -- A PUBREC without an error is answered with PUBREL.
  pubrec-released :
      (p : ControlPacket) (reply : List ℕ) (rc : ReasonCode) (props : List Prop)
      → read_code pubrec (decode_pubrec lib (length reply) reply) ≡ valid rc props
      → is_error rc ≡ false
      → handle lib exactly_once n (replied reply) (on_pubrec p)
        ≡ send_pubrel lib exactly_once n (pubrel_of lib exactly_once n p.packet_id) false
  unfolding handle handle_pubrec
  pubrec-released p reply rc props d e = rw (d, e) refl

  pubrec-Delivers :
      (k j : ℕ) (p : ControlPacket) (calls : List (Effect Result)) (first second : List ℕ)
      (rec comp : ReasonCode) (rec_props comp_props : List Prop)
      → read_code pubrec (decode_pubrec lib (length first) first) ≡ valid rec rec_props
      → is_error rec ≡ false
      → read_code pubcomp (decode_pubcomp lib (length second) second) ≡ valid comp comp_props
      → Delivers p.packet_id (some (comp, pubcomp_props)) (
          run lib exactly_once n
            (losses k (written ∷ replied first ∷ losses j (written ∷ replied second ∷ [])))
            (on_publish p, calls))
  unfolding run handle handle_publish handle_pubrec set_dup
  pubrec-Delivers zero j p calls first second rec comp rec_props comp_props d e f =
      subst
        (λ (next : Next). Delivers p.packet_id (some (comp, pubcomp_props)) (
          run lib exactly_once n (losses j (written ∷ replied second ∷ []))
            (next.0, (calls ++ (async_wait_reply 0x50 p.packet_id ∷ [])) ++ next.1)))
        (sym (pubrec-released p first rec rec_props d e))
        (pubcomp-Delivers j p.packet_id _ second comp comp_props f)
  pubrec-Delivers (suc k) j p calls first second rec comp rec_props comp_props d e f =
      pubrec-Delivers k j (set_dup p) _ first second rec comp rec_props comp_props d e f

  -- A PUBREC with an error ends the exchange.
  refused-Delivers :
      (k : ℕ) (p : ControlPacket) (calls : List (Effect Result)) (reply : List ℕ) (rec : ReasonCode)
      (rec_props : List Prop)
      → read_code pubrec (decode_pubrec lib (length reply) reply) ≡ valid rec rec_props
      → is_error rec ≡ true
      → Delivers p.packet_id
          (some (rec, pubcomp_props))
          (run lib exactly_once n (losses k (written ∷ replied reply ∷ [])) (on_publish p, calls))
  unfolding run handle handle_publish handle_pubrec set_dup
  refused-Delivers zero p calls reply rec rec_props d e =
      rw (d, e) (record { over = refl; before = _; calls = refl })
  refused-Delivers (suc k) p calls reply rec rec_props d e =
      refused-Delivers k (set_dup p) _ reply rec rec_props d e

-- The ways an exchange goes on a connection that is lost so many times before a reply, with the result
-- that the application is to get: a PUBACK that is read as valid, whatever its reason code; a valid
-- PUBREC with an error; a valid PUBREC without one, and a valid PUBCOMP.
pub data Course (lib : Boost) : Qos → List Answer → Result → Type 0 where
  acknowledged :
      (k : ℕ) (reply : List ℕ) (rc : ReasonCode) (props : List Prop)
      → read_code puback (decode_puback lib (length reply) reply) ≡ valid rc props
      → Course lib at_least_once (losses k (written ∷ replied reply ∷ [])) (some (rc, props))
  refused_by_receiver :
      (k : ℕ) (reply : List ℕ) (rc : ReasonCode) (props : List Prop)
      → read_code pubrec (decode_pubrec lib (length reply) reply) ≡ valid rc props
      → is_error rc ≡ true
      → Course lib exactly_once (losses k (written ∷ replied reply ∷ [])) (some (rc, pubcomp_props))
  completed :
      (k j : ℕ) (first second : List ℕ) (rec comp : ReasonCode) (rec_props comp_props : List Prop)
      → read_code pubrec (decode_pubrec lib (length first) first) ≡ valid rec rec_props
      → is_error rec ≡ false
      → read_code pubcomp (decode_pubcomp lib (length second) second) ≡ valid comp comp_props
      → Course lib exactly_once
          (losses k (written ∷ replied first ∷ losses j (written ∷ replied second ∷ [])))
          (some (comp, pubcomp_props))

-- However often the connection is lost before a reply, an operation that is not cancelled gives its
-- packet identifier back and completes with success, last of all its calls, once the packets are
-- written and the replies come: for QoS 1 with the reason code, which may be an error, and the
-- properties of a PUBACK that is read as valid; for QoS 2 with the reason code of a valid PUBREC that
-- is an error, or else with that of a valid PUBCOMP behind it.
pub exchange-Delivers :
    (lib : Boost) (n : ℕ) (p : ControlPacket) (calls : List (Effect Result)) (qos : Qos)
    (answers : List Answer) (result : Result)
    → Course lib qos answers result
    → Delivers p.packet_id result (run lib qos n answers (on_publish p, calls))
exchange-Delivers lib n p calls _ _ _ (acknowledged k reply rc props d) =
    puback-Delivers lib n k p calls reply rc props d
exchange-Delivers lib n p calls _ _ _ (refused_by_receiver k reply rc props d e) =
    refused-Delivers lib n k p calls reply rc props d e
exchange-Delivers lib n p calls _ _ _
      (completed k j first second rec comp rec_props comp_props d e f) =
    pubrec-Delivers lib n k j p calls first second rec comp rec_props comp_props d e f
