-- ===== src/Assemble/Loop/Chunks.antt =====
-- The packets of a stream do not depend on how its bytes are cut into reads.
use async_mqtt.Codec.Library.{Boost}
use async_mqtt.Codec.Cursor.{Res, ok, fail, fault}
use async_mqtt.Codec.MessageDecoders.{decode_packet_id}
use async_mqtt.Base.{
  ◌*◌, ◌/◌, length-append, ◌∙◌, sym, append-nil, append_assoc, inl, inr, ◌⊎◌, ℕ, zero, suc, ◌≤◌,
  ◌<◌, ◌≡◌, refl, ap, List, [], ◌∷◌, ◌++◌, length, arith,
}
use async_mqtt.Assemble.{
  Assembled, read_more, malformed, packet, on_bytes, Dispatched, refused, pong, reply, message,
  dispatch_kind,
}
use async_mqtt.Assemble.Prefix.{GoesOn, open_more, same_malformed, same_packet, on_bytes-GoesOn}
use async_mqtt.Assemble.Loop.{
  on_read, joined, on_reads, dispatched, State, waiting, completed_malformed, undefined, Handed,
  gives_reply, gives_message, replied, Drained, rest_of, assembled, drain, after,
}

-- The bytes behind a packet are fewer.
rest-short :
    (recv_size : ℕ) (s : List ℕ)
    → (length (rest_of (on_bytes recv_size s)) < length s)
      ⊎ (length (rest_of (on_bytes recv_size s)) ≡ 0)
rest-short recv_size s = go _ _ (on_bytes-GoesOn recv_size s [])
  where
    go :
        (a b : Assembled)
        → GoesOn (length s) [] a b
        → (length (rest_of a) < length s) ⊎ (length (rest_of a) ≡ 0)
    go _ _ (open_more r) = inr refl
    go _ _ same_malformed = inr refl
    go _ _ (same_packet b body rest h) = inl h

module _ (lib : Boost) where
  -- Fuel for the bytes is enough.
  drain_fuel :
      (n k recv_size : ℕ) (s : List ℕ)
      → length s ≤ n
      → length s ≤ k
      → drain lib n recv_size s ≡ drain lib k recv_size s
  unfolding drain on_bytes
  drain_fuel zero zero recv_size s h l = refl
  drain_fuel zero (suc k) recv_size [] h l = refl
  drain_fuel zero (suc k) recv_size (x ∷ s) h l = ground arith
  drain_fuel (suc n) zero recv_size [] h l = refl
  drain_fuel (suc n) zero recv_size (x ∷ s) h l = ground arith
  drain_fuel (suc n) (suc k) recv_size s h l =
      ap (assembled lib (on_bytes recv_size s) s)
        (drain_fuel n k recv_size (rest_of (on_bytes recv_size s)) (shorter n h) (shorter k l))
    where
      shorter : (m : ℕ) → length s ≤ suc m → length (rest_of (on_bytes recv_size s)) ≤ m
      shorter m q = elim (rest-short recv_size s) [ inl e ↦ omega arith | inr e ↦ omega arith ]

  -- More bytes behind what was drained.
  resumed : (recv_size : ℕ) → List ℕ → Drained → Drained
  resumed recv_size t (handed, waiting r) =
      after handed (drain lib (length (r ++ t)) recv_size (r ++ t))
  resumed recv_size t (handed, completed_malformed) = (handed, completed_malformed)
  resumed recv_size t (handed, undefined) = (handed, undefined)

  resumed-after :
      (recv_size : ℕ) (t : List ℕ) (h : Handed) (d : Drained)
      → after (h ∷ []) (resumed recv_size t d) ≡ resumed recv_size t (after (h ∷ []) d)
  unfolding resumed
  resumed-after recv_size t h (handed, waiting r) = refl
  resumed-after recv_size t h (handed, completed_malformed) = refl
  resumed-after recv_size t h (handed, undefined) = refl

  replied-resumed :
      (recv_size : ℕ) (t : List ℕ) (code : ℕ) (pid : Res ℕ) (d : Drained)
      → replied code pid (resumed recv_size t d) ≡ resumed recv_size t (replied code pid d)
  unfolding resumed
  replied-resumed recv_size t code fail d = refl
  replied-resumed recv_size t code fault d = refl
  replied-resumed recv_size t code (ok packet_id rest) d =
      resumed-after recv_size t (gives_reply code packet_id rest) d

  dispatched-resumed :
      (recv_size : ℕ) (t : List ℕ) (kind : Dispatched) (b : ℕ) (body : List ℕ) (d : Drained)
      → dispatched lib kind b body (resumed recv_size t d)
        ≡ resumed recv_size t (dispatched lib kind b body d)
  unfolding resumed
  dispatched-resumed recv_size t refused b body d = refl
  dispatched-resumed recv_size t pong b body d = refl
  dispatched-resumed recv_size t reply b body d =
      replied-resumed recv_size t (b / 16 * 16) (decode_packet_id lib body) d
  dispatched-resumed recv_size t message b body d =
      resumed-after recv_size t (gives_message b body) d

  -- One round, with and without the bytes of t.
  round_resumed :
      (recv_size n m : ℕ) (s t : List ℕ) (a b : Assembled)
      → GoesOn (length s) t a b
      → assembled lib b (s ++ t) (drain lib n recv_size (rest_of b))
        ≡ drain lib (length (s ++ t)) recv_size (s ++ t)
      → ((rest : List ℕ)
          → length rest < length s
          → drain lib n recv_size (rest ++ t) ≡ resumed recv_size t (drain lib m recv_size rest))
      → assembled lib b (s ++ t) (drain lib n recv_size (rest_of b))
        ≡ resumed recv_size t (assembled lib a s (drain lib m recv_size (rest_of a)))
  unfolding resumed
  round_resumed recv_size n m s t _ _ (open_more r) e ih = e
  round_resumed recv_size n m s t _ _ same_malformed e ih = refl
  round_resumed recv_size n m s t _ _ (same_packet b body rest h) e ih =
      ap (dispatched lib (dispatch_kind b) b body) (ih rest h)
      ∙ dispatched-resumed recv_size t (dispatch_kind b) b body (drain lib m recv_size rest)

  drain-append :
      (m n recv_size : ℕ) (s t : List ℕ)
      → length s ≤ m
      → length (s ++ t) ≤ n
      → drain lib n recv_size (s ++ t) ≡ resumed recv_size t (drain lib m recv_size s)
  unfolding drain resumed
  drain-append zero n recv_size [] t h l = drain_fuel n (length t) recv_size t l (omega arith)
  drain-append zero n recv_size (x ∷ s) t h l = ground arith
  drain-append (suc m) n recv_size s t h l =
      drain_fuel n (suc n) recv_size (s ++ t) l (omega arith)
      ∙ round_resumed recv_size n m s t _ _ (on_bytes-GoesOn recv_size s t)
          (drain_fuel (suc n) (length (s ++ t)) recv_size (s ++ t) (omega arith) (omega arith))
          (λ rest q.
            drain-append m n recv_size rest t (omega arith)
              (omega (arith, length-append rest t, length-append s t)))

  -- What waits is not a whole packet.
  abbrev IsSettled : ℕ → State → Type 0
  IsSettled recv_size (waiting r) = on_bytes recv_size r ≡ read_more
  IsSettled recv_size completed_malformed = Unit {0}
  IsSettled recv_size undefined = Unit {0}

  replied-IsSettled :
      (recv_size code : ℕ) (pid : Res ℕ) (more : Drained)
      → IsSettled recv_size more.1
      → IsSettled recv_size (replied code pid more).1
  replied-IsSettled recv_size code (ok packet_id rest) more h = h
  replied-IsSettled recv_size code fail more h = tt
  replied-IsSettled recv_size code fault more h = tt

  assembled-IsSettled :
      (recv_size : ℕ) (a : Assembled) (s : List ℕ) (more : Drained)
      → on_bytes recv_size s ≡ a
      → IsSettled recv_size more.1
      → IsSettled recv_size (assembled lib a s more).1
  assembled-IsSettled recv_size read_more s more e h = e
  assembled-IsSettled recv_size malformed s more e h = tt
  assembled-IsSettled recv_size (packet b body rest) s more e h = kind_case (dispatch_kind b)
    where
      kind_case : (k : Dispatched) → IsSettled recv_size (dispatched lib k b body more).1
      kind_case refused = tt
      kind_case pong = h
      kind_case reply = replied-IsSettled recv_size _ (decode_packet_id lib body) more h
      kind_case message = h

  drain-IsSettled :
      (m recv_size : ℕ) (s : List ℕ)
      → length s ≤ m
      → IsSettled recv_size (drain lib m recv_size s).1
  unfolding drain on_bytes
  drain-IsSettled zero recv_size [] h = refl
  drain-IsSettled zero recv_size (x ∷ s) h = ground arith
  drain-IsSettled (suc m) recv_size s h =
      assembled-IsSettled recv_size (on_bytes recv_size s) s _ refl (
        drain-IsSettled m recv_size (rest_of (on_bytes recv_size s))
          (elim (rest-short recv_size s) [ inl e ↦ omega arith | inr e ↦ omega arith ]))

  settled-drain :
      (n recv_size : ℕ) (r : List ℕ)
      → on_bytes recv_size r ≡ read_more
      → drain lib n recv_size r ≡ ([], waiting r)
  unfolding drain
  settled-drain zero recv_size r h = refl
  settled-drain (suc n) recv_size r h = rw h refl

  after-resumed :
      (recv_size : ℕ) (t : List ℕ) (d : Drained)
      → after d.0 (resumed recv_size t ([], d.1)) ≡ resumed recv_size t d
  unfolding resumed
  after-resumed recv_size t (handed, waiting r) = refl
  after-resumed recv_size t (handed, completed_malformed) =
      ap (λ hs. (hs, completed_malformed)) (append-nil handed)
  after-resumed recv_size t (handed, undefined) = ap (λ hs. (hs, undefined)) (append-nil handed)

  reads-resumed :
      (recv_size : ℕ) (chunks : List (List ℕ)) (st : State)
      → IsSettled recv_size st
      → on_reads lib recv_size st chunks ≡ resumed recv_size (joined chunks) ([], st)
  unfolding on_reads resumed
  reads-resumed recv_size [] (waiting r) h = sym (
      ap (λ u. drain lib (length u) recv_size u) (append-nil r)
      ∙ settled-drain (length r) recv_size r h)
  reads-resumed recv_size [] completed_malformed h = refl
  reads-resumed recv_size [] undefined h = refl
  reads-resumed recv_size (chunk ∷ chunks) completed_malformed h =
      ap (after []) (reads-resumed recv_size chunks completed_malformed tt)
  reads-resumed recv_size (chunk ∷ chunks) undefined h =
      ap (after []) (reads-resumed recv_size chunks undefined tt)
  reads-resumed recv_size (chunk ∷ chunks) (waiting r) h =
      let d : Drained = drain lib (length (r ++ chunk)) recv_size (r ++ chunk) in
      ap (after d.0) (
        reads-resumed recv_size chunks d.1
          (drain-IsSettled (length (r ++ chunk)) recv_size (r ++ chunk) (omega arith)))
      ∙ after-resumed recv_size (joined chunks) d
      ∙ sym (
          drain-append (length (r ++ chunk)) (length ((r ++ chunk) ++ joined chunks)) recv_size
            (r ++ chunk) (joined chunks) (omega arith) (omega arith))
      ∙ ap (λ u. drain lib (length u) recv_size u) (append_assoc r chunk (joined chunks))

  -- However the bytes of a connection are cut into reads, the packets that are handed out, their order,
  -- what is left of the last one, and whether the loop ends with malformed_packet, are those of one read
  -- of all the bytes; up to a reply that is too short for a packet identifier: that there is one, and
  -- what is handed out before it, are the same too, and nothing is said of what follows it.
  pub on_reads-joined :
      (recv_size : ℕ) (chunks : List (List ℕ))
      → on_reads lib recv_size (waiting []) chunks
        ≡ on_read lib recv_size (waiting []) (joined chunks)
  unfolding on_bytes resumed
  on_reads-joined recv_size chunks = reads-resumed recv_size chunks (waiting []) refl
