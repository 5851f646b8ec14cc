-- ===== src/Connect/Buffer.antt =====
-- The read of the rest of a packet, against the end of the buffer.
use async_mqtt.Base.{
  by_test, ℕ, ◌+◌, ◌-◌, ◌%◌, ◌^◌, ◌≤◌, ◌<◌, Bool, true, false, ltb, ◌≡◌, refl, List, [], ◌∷◌,
  length, if◌then◌else◌, Option, arith,
}
use async_mqtt.Codec.Library.{Boost}
use async_mqtt.Codec.Messages.{Will}
use async_mqtt.Context.{Credentials}
use async_mqtt.Connect.{Negotiated, on_read_packet, unknown, async_read, read_rest}

-- The whole packet with its fixed header, where `front` of it was read already.
abbrev pub wanted : (num_read varlen : ℕ) → List ℕ → ℕ
wanted num_read varlen front = num_read - length front + varlen

abbrev pub larger : ℕ → ℕ → ℕ
larger a b = if ltb a b then b else a

remain_lem :
    (num_read varlen n : ℕ)
    → n ≤ num_read
    → n ≤ varlen
    → varlen < 2 ^ 32
    → num_read < 2 ^ 32
    → (num_read - n + varlen + 2 ^ 64 - num_read) % 2 ^ 64 ≡ varlen - n
remain_lem num_read varlen n h k l m = omega arith

negative_lem :
    (num_read varlen n : ℕ)
    → n ≤ num_read
    → varlen < n
    → num_read < 2 ^ 32
    → (num_read - n + varlen + 2 ^ 64 - num_read) % 2 ^ 64 ≡ 2 ^ 64 - (n - varlen)
negative_lem num_read varlen n h k m = omega arith

-- The end of the missing bytes against the buffer behind `resize`.
inside :
    (size num_read varlen n : ℕ)
    → num_read ≤ size
    → n ≤ num_read
    → n ≤ varlen
    → num_read + (varlen - n) ≤ larger size (num_read - n + varlen)
inside size num_read varlen n h k l = ground arith

no_test : (a b : ℕ) → b ≤ a → ltb a b ≡ false
no_test a b h = ground arith

beyond :
    (size num_read varlen n : ℕ)
    → num_read ≤ size
    → size < 2 ^ 32
    → n ≤ num_read
    → varlen < n
    → ltb (larger size (num_read - n + varlen)) (num_read + (2 ^ 64 - (n - varlen))) ≡ true
beyond size num_read varlen n h k l m = ground arith

module _ (lib : Boost) (tls ws : Bool) (creds : Credentials) (will_msg : Option Will)
    (keep_alive : ℕ) (auth_method : List ℕ) where
  -- Where a fixed header was read, with the bytes behind it that were read along: if they are no more
  -- than the packet has, what is read next are the missing ones, and they end where the buffer, which
  -- grows to the packet's size if it has to, does or before. If they are more, the read goes beyond
  -- the buffer.
  pub read_rest-bounds :
      (size num_read code varlen : ℕ) (front : List ℕ) (s : Negotiated)
      → num_read ≤ size
      → size < 2 ^ 32
      → length front ≤ num_read
      → varlen < 2 ^ 28
      → (if ltb varlen (length front)
          then (read_rest lib tls ws creds will_msg keep_alive auth_method size num_read code varlen
              front s).0
            ≡ unknown
          else (read_rest lib tls ws creds will_msg keep_alive auth_method size num_read code varlen
                front s
              ≡ (
                on_read_packet (larger size (wanted num_read varlen front)) code varlen front,
                s,
                async_read
                      (larger size (wanted num_read varlen front))
                      num_read
                      (varlen - length front)
                    ∷ [],
              ))
            × (num_read + (varlen - length front) ≤ larger size (wanted num_read varlen front)))
  read_rest-bounds size num_read code varlen front s h k l m =
      by_test (λ X. X) (ltb varlen (length front)) _ _
        (λ e.
          let below : varlen < length front = ground arith in
          rw
            (
              negative_lem num_read varlen (length front) l below (omega arith),
              beyond size num_read varlen (length front) h k l below,
            )
            refl)
        (λ e.
          let above : length front ≤ varlen = ground arith in
          let fits = inside size num_read varlen (length front) h l above in
          (
            rw
                (
                  remain_lem num_read varlen (length front) l above (omega arith) (omega arith),
                  no_test _ _ fits,
                )
                refl,
            fits,
          ))
