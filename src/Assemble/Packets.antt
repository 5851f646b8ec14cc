-- ===== src/Assemble/Packets.antt =====
-- The packets come out of the stream as the encoders put them in.
use async_mqtt.Base.{
  ◌*◌, ◌%◌, ℕ, ◌+◌, ◌-◌, ◌/◌, ◌^◌, ◌<◌, ◌≤◌, ◌≡◌, false, List, [], ◌∷◌, ◌++◌, length, length-append,
  append_assoc, ltb, ◌==◌, take-append, drop-append, arith, All, true, refl,
}
use async_mqtt.Codec.Varint.{varint_, varint_loop, to_variable_bytes}
use async_mqtt.Codec.VarintLaws.{varint-to_variable_bytes}
use async_mqtt.Codec.Packets.{framed}
use async_mqtt.Codec.Cursor.{fail}
use async_mqtt.Assemble.{read_more, packet, on_bytes}

pub on_bytes-framed :
    (recv_size control : ℕ) (body rest : List ℕ)
    → (control / 16 == 0) ≡ false
    → length body < 2 ^ 28
    → length (framed control body) ≤ recv_size
    → on_bytes recv_size (framed control body ++ rest) ≡ packet control body rest
unfolding on_bytes
on_bytes-framed recv_size control body rest c h l =
    rw
      (
        c,
        append_assoc (to_variable_bytes [] (length body)) body rest,
        varint-to_variable_bytes (length body) 0 (body ++ rest) h (omega arith),
        fits,
        enough,
        take-append body rest,
        drop-append body rest,
      )
      refl
  where
    header : List ℕ
    header = to_variable_bytes [] (length body)

    fits :
        ltb recv_size
          (length body + (length (control ∷ (header ++ (body ++ rest))) - length (body ++ rest)))
        ≡ false
    fits = ground (arith, l, length-append header (body ++ rest), length-append header body)

    enough : ltb (length (body ++ rest)) (length body) ≡ false
    enough = ground (arith, length-append body rest)

-- The body is not there in full.
on_bytes-partial :
    (recv_size control : ℕ) (body part : List ℕ)
    → (control / 16 == 0) ≡ false
    → length body < 2 ^ 28
    → length (framed control body) ≤ recv_size
    → length part < length body
    → on_bytes recv_size (control ∷ (to_variable_bytes [] (length body) ++ part)) ≡ read_more
unfolding on_bytes
on_bytes-partial recv_size control body part c h l s =
    rw (c, varint-to_variable_bytes (length body) 0 part h (omega arith), fits, short) refl
  where
    header : List ℕ
    header = to_variable_bytes [] (length body)

    fits : ltb recv_size (length body + (length (control ∷ (header ++ part)) - length part)) ≡ false
    fits = ground (arith, l, length-append header part, length-append header body)

    short : ltb (length part) (length body) ≡ true
    short = ground (arith, s)

-- No byte of the remaining length is its last one.
varint-open :
    (result shift : ℕ) (bytes : List ℕ)
    → All (λ (b : ℕ). 128 ≤ b) bytes
    → varint_loop 0 result shift bytes ≡ fail
unfolding varint_loop
varint-open result shift [] h = refl
varint-open result shift (b ∷ bytes) (k, h) =
    ground (arith, varint-open (result + b % 128 * 2 ^ shift) (shift + 7) bytes h)

on_bytes-open :
    (recv_size control : ℕ) (bytes : List ℕ)
    → (control / 16 == 0) ≡ false
    → All (λ (b : ℕ). 128 ≤ b) bytes
    → length bytes < 4
    → on_bytes recv_size (control ∷ bytes) ≡ read_more
unfolding on_bytes varint_
on_bytes-open recv_size control bytes c h l = rw (c, varint-open 0 0 bytes h) (ground (arith, l))

-- A packet with a fixed header for its body, of a control code other than 0 and not larger than what
-- the client receives, is taken out of the received bytes whole, and what follows it is left. When
-- only a part of its body has come, or up to three bytes of the remaining length that all announce
-- another one, the operation reads on and does not take the packet for malformed.
pub on_bytes-assembles :
    (recv_size control : ℕ) (body rest part bytes : List ℕ)
    → (control / 16 == 0) ≡ false
    → length body < 2 ^ 28
    → length (framed control body) ≤ recv_size
    → length part < length body
    → All (λ (b : ℕ). 128 ≤ b) bytes
    → length bytes < 4
    → (on_bytes recv_size (framed control body ++ rest) ≡ packet control body rest)
      × (on_bytes recv_size (control ∷ (to_variable_bytes [] (length body) ++ part)) ≡ read_more)
      × (on_bytes recv_size (control ∷ bytes) ≡ read_more)
on_bytes-assembles recv_size control body rest part bytes c h l s o n = (
  on_bytes-framed recv_size control body rest c h l,
  on_bytes-partial recv_size control body part c h l s,
  on_bytes-open recv_size control bytes c o n,
)
