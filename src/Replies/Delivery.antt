-- ===== src/Replies/Delivery.antt =====
-- A reply and the operation that waits for it, in both orders.
use async_mqtt.Base.{
  ℕ, ◌≡◌, refl, List, [], ◌∷◌, ◌++◌, none, some, arith, ap, ◌∙◌, true, false, Bool-cases, inl, inr,
}
use async_mqtt.Replies.{
  success, ReplyHandler, FastReply, Replies, complete, fits, find_handler, erase_handler, fast_fits,
  find_fast_reply, erase_fast_reply, drop_duplicate, wait_or_take, async_wait_reply, dispatch,
}

find_last :
    (code pid : ℕ) (hs : List ReplyHandler) (h : ReplyHandler)
    → find_handler code pid hs ≡ none
    → fits code pid h ≡ true
    → (find_handler code pid (hs ++ (h ∷ [])) ≡ some h)
      × (erase_handler code pid (hs ++ (h ∷ [])) ≡ hs)
unfolding find_handler erase_handler
find_last code pid [] h e f = rw f (refl, refl)
find_last code pid (k ∷ hs) h e f = elim (Bool-cases (fits code pid k)) [
  | inl g ↦ absurd (ground (arith, g))
  | inr g ↦ let ih = find_last code pid hs h (ground (arith, g)) f in rw g (ih.0, ap (◌∷◌ k) ih.1)
]

fast_last :
    (code pid : ℕ) (fs : List FastReply) (f : FastReply)
    → find_fast_reply code pid fs ≡ none
    → fast_fits code pid f ≡ true
    → (find_fast_reply code pid (fs ++ (f ∷ [])) ≡ some f)
      × (erase_fast_reply code pid (fs ++ (f ∷ [])) ≡ fs)
unfolding find_fast_reply erase_fast_reply
fast_last code pid [] f e t = rw t (refl, refl)
fast_last code pid (k ∷ fs) f e t = elim (Bool-cases (fast_fits code pid k)) [
  | inl g ↦ absurd (ground (arith, g))
  | inr g ↦ let ih = fast_last code pid fs f (ground (arith, g)) t in rw g (ih.0, ap (◌∷◌ k) ih.1)
]

abbrev new_handler : ℕ → ℕ → ℕ → ℕ → ReplyHandler
new_handler now code pid handler = record {
  handler = handler;
  code = code;
  packet_id = pid;
  ts = now;
}

abbrev new_fast : ℕ → ℕ → List ℕ → FastReply
new_fast code pid packet = record { code = code; packet_id = pid; packet = packet }

dispatch_idle :
    (code pid : ℕ) (packet : List ℕ) (r : Replies)
    → find_handler code pid r.handlers ≡ none
    → dispatch success code pid packet r
      ≡ (record r { fast_replies = r.fast_replies ++ (new_fast code pid packet ∷ []) }, [])
unfolding dispatch
dispatch_idle code pid packet r h = rw (h, dispatch)

dispatch_waiting :
    (code pid : ℕ) (packet : List ℕ) (r : Replies) (k : ReplyHandler)
    → find_handler code pid r.handlers ≡ some k
    → dispatch success code pid packet r
      ≡ (record r { handlers = erase_handler code pid r.handlers }, complete success packet k ∷ [])
unfolding dispatch
dispatch_waiting code pid packet r k h = rw (h, dispatch)

wait_step :
    (now code pid handler : ℕ) (r : Replies)
    → find_handler code pid r.handlers ≡ none
    → async_wait_reply now code pid handler r ≡ wait_or_take now code pid handler r
unfolding async_wait_reply
wait_step now code pid handler r h = rw (drop r h)
  where
    drop :
        (r : Replies)
        → find_handler code pid r.handlers ≡ none
        → drop_duplicate code pid r ≡ (r, [])
    drop r h = unfold drop_duplicate in rw (h, drop_duplicate)

wait_idle :
    (now code pid handler : ℕ) (r : Replies)
    → find_fast_reply code pid r.fast_replies ≡ none
    → wait_or_take now code pid handler r
      ≡ (record r { handlers = r.handlers ++ (new_handler now code pid handler ∷ []) }, [])
unfolding wait_or_take
wait_idle now code pid handler r f = rw (f, wait_or_take)

wait_fast :
    (now code pid handler : ℕ) (r : Replies) (k : FastReply)
    → find_fast_reply code pid r.fast_replies ≡ some k
    → wait_or_take now code pid handler r ≡ (
      record r { fast_replies = erase_fast_reply code pid r.fast_replies },
      record { handler = handler; error = success; packet = k.packet; posted = true } ∷ [],
    )
unfolding wait_or_take
wait_fast now code pid handler r k f = rw (f, wait_or_take)

-- A reply that comes before its operation waits is kept, and posted to the operation when it
-- waits; one that comes while it waits completes it at once. In both orders the operation gets
-- that reply, nothing else completes, and the state is in the end what it was.
pub reply_delivered :
    (now code pid handler : ℕ) (packet : List ℕ) (r : Replies)
    → find_handler code pid r.handlers ≡ none
    → find_fast_reply code pid r.fast_replies ≡ none
    → (let (early, c) = dispatch success code pid packet r in
        (c ≡ [])
        × (async_wait_reply now code pid handler early ≡ (
          r,
          record { handler = handler; error = success; packet = packet; posted = true } ∷ [],
        )))
      × (let (waiting, c) = async_wait_reply now code pid handler r in
          (c ≡ [])
          × (dispatch success code pid packet waiting ≡ (
            r,
            record { handler = handler; error = success; packet = packet; posted = false } ∷ [],
          )))
reply_delivered now code pid handler packet r h f = (
  rw (dispatch_idle code pid packet r h) (refl, early),
  rw (wait_step now code pid handler r h, wait_idle now code pid handler r f) (refl, late),
)
  where
    kept :
        (find_fast_reply code pid (r.fast_replies ++ (new_fast code pid packet ∷ []))
          ≡ some (new_fast code pid packet))
        × (erase_fast_reply code pid (r.fast_replies ++ (new_fast code pid packet ∷ []))
            ≡ r.fast_replies)
    kept = fast_last code pid r.fast_replies (new_fast code pid packet) f (ground arith)

    early :
        async_wait_reply now code pid handler
          (record r { fast_replies = r.fast_replies ++ (new_fast code pid packet ∷ []) })
        ≡ (r, record { handler = handler; error = success; packet = packet; posted = true } ∷ [])
    early =
        wait_step now code pid handler _ h
        ∙ wait_fast now code pid handler _ (new_fast code pid packet) kept.0
        ∙ rw kept.1

    waits :
        (find_handler code pid (r.handlers ++ (new_handler now code pid handler ∷ []))
          ≡ some (new_handler now code pid handler))
        × (erase_handler code pid (r.handlers ++ (new_handler now code pid handler ∷ []))
            ≡ r.handlers)
    waits = find_last code pid r.handlers (new_handler now code pid handler) h (ground arith)

    late :
        dispatch success code pid packet
          (record r { handlers = r.handlers ++ (new_handler now code pid handler ∷ []) })
        ≡ (r, record { handler = handler; error = success; packet = packet; posted = false } ∷ [])
    late =
        dispatch_waiting code pid packet _ (new_handler now code pid handler) waits.0 ∙ rw waits.1
