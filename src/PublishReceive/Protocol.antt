-- ===== src/PublishReceive/Protocol.antt =====
-- What the acknowledgement of a received message does, as a step relation on its phases.
use async_mqtt.Base.{ℕ, ◌/◌, ◌%◌, ◌⊎◌, ◌≡◌, List, [], ◌∷◌, some}
use async_mqtt.Codec.Library.{Boost}
use async_mqtt.ControlPacket.{ControlPacket}
use async_mqtt.Operation.{Effect, async_send, async_wait_reply, async_disconnect, channel_store}
use async_mqtt.PublishReceive.{
  Message, Stage, on_puback, on_pubrec, on_pubrel, on_pubcomp, stored, dropped, unknown, Next,
  puback_of, pubrec_of, pubcomp_of,
}

-- `refused` is behind a DISCONNECT for wrong QoS bits, `acked` behind the PUBACK, `received` behind the PUBREC, `released` behind the first wait for a
-- PUBREL, `answered` behind a PUBCOMP, and `finished` behind the message.
pub data Phase : Type 0 where
  fresh refused acked received released answered finished : Phase

module _ (lib : Boost) (m : Message) where
  pub data Allowed : Phase → Effect Message → Phase → Type 0 where
    refuses : m.flags / 2 % 4 ≡ 3 → Allowed fresh (async_disconnect 0x81) refused
    stores_qos0 : m.flags / 2 % 4 ≡ 0 → Allowed fresh (channel_store m) finished
    sends_puback :
        (pid : ℕ)
        → m.packet_id ≡ some pid
        → m.flags / 2 % 4 ≡ 1
        → Allowed fresh (async_send (puback_of lib m pid).packet 0 0) acked
    stores_qos1 : Allowed acked (channel_store m) finished
    sends_pubrec :
        (pid : ℕ)
        → m.packet_id ≡ some pid
        → m.flags / 2 % 4 ≡ 2
        → Allowed fresh (async_send (pubrec_of lib m pid).packet 0 0) received
    waits_pubrel :
        (pid : ℕ) (ph : Phase)
        → m.packet_id ≡ some pid
        → (ph ≡ received) ⊎ ((ph ≡ released) ⊎ (ph ≡ answered))
        → Allowed ph (async_wait_reply 0x60 pid) released
    disconnects : Allowed released (async_disconnect 0x81) released
    sends_pubcomp :
        (pid : ℕ)
        → m.packet_id ≡ some pid
        → Allowed released (async_send (pubcomp_of lib m pid).packet 0 0) answered
    stores_qos2 : Allowed answered (channel_store m) finished

  pub data Steps : Phase → List (Effect Message) → Phase → Type 0 where
    stop : {ph : Phase} → Steps ph [] ph
    step :
        {a b c : Phase} {e : Effect Message} {es : List (Effect Message)}
        → Allowed a e b
        → Steps b es c
        → Steps a (e ∷ es) c

  -- The phase that an operation in a stage has reached.
  unfoldable pub Matches : Stage → Phase → Type 0
  Matches on_puback ph = ph ≡ acked
  Matches (on_pubrec p) ph = (ph ≡ received) × (m.packet_id ≡ some p.packet_id)
  Matches (on_pubrel pid) ph = (ph ≡ released) × (m.packet_id ≡ some pid)
  Matches (on_pubcomp p) ph = (ph ≡ answered) × (m.packet_id ≡ some p.packet_id)
  Matches stored ph = ph ≡ finished
  Matches dropped ph = ((ph ≡ finished) → ⊥) × ((ph ≡ fresh) → ⊥)
  Matches unknown ph = (ph ≡ finished) → ⊥

  pub record Leads (ph : Phase) (next : Next) : Type 0 where
    pub phase : Phase
    pub path : Steps ph next.1 phase
    pub matches : Matches next.0 phase
