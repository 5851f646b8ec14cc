-- ===== src/ControlPacket.antt =====
-- The class control_packet of include/boost/mqtt5/detail/control_packet.hpp.
--
-- The string of a packet is the list of its bytes, each below 256; its first byte, as `*data()`
-- gives it, is 0 if it is empty.
pub mod Publish
use async_mqtt.Base.{ℕ, ◌*◌, ◌/◌, ◌%◌, List, [], ◌∷◌, length}
use Prim.Native.Nat.{bit_or}

pub record ControlPacket : Type 0 where
  pub packet_id : ℕ
  pub packet : List ℕ

-- `control_packet::of` with a packet identifier, which the encoder is given, and without one.
unfoldable pub of_with_pid : (ℕ → List ℕ) → ℕ → ControlPacket
of_with_pid encode packet_id = record { packet_id = packet_id; packet = encode packet_id }

unfoldable pub of_no_pid : List ℕ → ControlPacket
of_no_pid packet = record { packet_id = 0; packet = packet }

unfoldable pub size : ControlPacket → ℕ
size p = length p.packet

abbrev pub first_byte : List ℕ → ℕ
first_byte [] = 0
first_byte (b ∷ s) = b

-- `& 0b11110000` on a byte.
unfoldable pub control_code : ControlPacket → ℕ
control_code p = first_byte p.packet / 16 * 16

-- `(& 0b00000110) >> 1` on a byte.
unfoldable pub qos : ControlPacket → ℕ
qos p = first_byte p.packet / 2 % 4

abbrev pub set_dup_bit : List ℕ → List ℕ
set_dup_bit [] = []
set_dup_bit (b ∷ s) = bit_or b 8 ∷ s

unfoldable pub set_dup : ControlPacket → ControlPacket
set_dup p = record p { packet = set_dup_bit p.packet }
