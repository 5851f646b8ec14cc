-- ===== src/Sender/Batch.antt =====
-- What do_write takes from the queue.
use async_mqtt.Base.{
  subst, Option, eq→==, ==→eq, Bool, none, ◌≢◌, some, false, ℕ, ◌+◌, ◌-◌, ◌≡◌, refl, List, [], ◌∷◌,
  ◌++◌, All, ltb, ◌==◌, if◌then◌else◌, arith, true, not, ◌&&◌, ◌||◌, Bool-cases, ◌⊎◌, inl, inr,
}
use async_mqtt.Sender.Request.{WriteReq, throttled}
use async_mqtt.Sender.{
  write_unless, write_queue_of, write_taken, write_limited, write_selected, max_limit, begin_write,
  take_terminal, Outcome, do_write, Sender, Effect, writes, select,
}

abbrev pub once : ℕ → ℕ → ℕ
once handler x = if handler == x then 1 else 0

-- How often a handler stands in a queue.
unfoldable pub queued : ℕ → List WriteReq → ℕ
queued x [] = 0
queued x (r ∷ rs) = once r.handler x + queued x rs

-- How many of the requests are throttled.
unfoldable pub throttled_in : List WriteReq → ℕ
throttled_in [] = 0
throttled_in (r ∷ rs) = (if throttled r then 1 else 0) + throttled_in rs

abbrev pub batch_of : Effect → List WriteReq
batch_of (writes rs) = rs
batch_of _ = []

-- The requests that the effects hand to the stream.
unfoldable pub written : List Effect → List WriteReq
written [] = []
written (e ∷ es) = batch_of e ++ written es

-- The two lists together are the first one, each in its order.
pub data Interleaves : List WriteReq → List WriteReq → List WriteReq → Type 0 where
  done : Interleaves [] [] []
  takes :
      {r : WriteReq} {rs as' bs : List WriteReq}
      → Interleaves rs as' bs
      → Interleaves (r ∷ rs) (r ∷ as') bs
  keeps :
      {r : WriteReq} {rs as' bs : List WriteReq}
      → Interleaves rs as' bs
      → Interleaves (r ∷ rs) as' (r ∷ bs)

select-Interleaves :
    (quota : ℕ) (rs : List WriteReq) → Interleaves rs (select quota rs).0 (select quota rs).1
unfolding select
select-Interleaves quota [] = done
select-Interleaves quota (r ∷ rs) =
    let ih = select-Interleaves (if throttled r && ltb 0 quota then quota - 1 else quota) rs in
    elim (Bool-cases (not (throttled r) || ltb 0 quota)) [
      | inl e ↦ rw e (takes ih)
      | inr e ↦ rw e (keeps ih)
    ]

-- A batch, what is kept, and the quota left, which are a fair choice from a queue.
pub record Fair (quota : ℕ) (rs batch kept : List WriteReq) (left : ℕ) : Type 0 where
  pub order : Interleaves rs batch kept
  pub spends : left + throttled_in batch ≡ quota
  pub blocked : All (λ r. throttled r ≡ true) kept
  pub exhausted : (kept ≡ []) ⊎ (left ≡ 0)

select-spends :
    (quota : ℕ) (rs : List WriteReq)
    → (select quota rs).2 + throttled_in (select quota rs).0 ≡ quota
unfolding select throttled_in
select-spends quota [] = omega arith
select-spends quota (r ∷ rs) =
    ground (arith, select-spends (if throttled r && ltb 0 quota then quota - 1 else quota) rs)

select-blocked :
    (quota : ℕ) (rs : List WriteReq) → All (λ r. throttled r ≡ true) (select quota rs).1
unfolding select
select-blocked quota [] = tt
select-blocked quota (r ∷ rs) =
    ground (arith, select-blocked (if throttled r && ltb 0 quota then quota - 1 else quota) rs)

select_zero : (rs : List WriteReq) → (select 0 rs).2 ≡ 0
unfolding select
select_zero [] = refl
select_zero (r ∷ rs) = ground (arith, select_zero rs)

select-exhausted :
    (quota : ℕ) (rs : List WriteReq) → ((select quota rs).1 ≡ []) ⊎ ((select quota rs).2 ≡ 0)
unfolding select
select-exhausted quota [] = inl refl
select-exhausted quota (r ∷ rs) = ground (
  arith,
  select_zero rs,
  select-exhausted (if throttled r && ltb 0 quota then quota - 1 else quota) rs,
)

-- The loop of do_write under a quota gives two lists that together are the queue, each in its order;
-- the requests to write have as many throttled ones as the quota falls by; all that are kept are
-- throttled, and none is kept while any quota is left.
pub select-Fair :
    (quota : ℕ) (rs : List WriteReq)
    → Fair quota rs (select quota rs).0 (select quota rs).1 (select quota rs).2
select-Fair quota rs = record {
  order = select-Interleaves quota rs;
  spends = select-spends quota rs;
  blocked = select-blocked quota rs;
  exhausted = select-exhausted quota rs;
}

-- What do_write takes from the queue of a sender that is not writing.
pub data Taken (s : Sender) : List WriteReq → List WriteReq → ℕ → Type 0 where
  one_terminal :
      (t : WriteReq) (kept : List WriteReq)
      → take_terminal s.write_queue ≡ some (t, kept)
      → Taken s (t ∷ []) kept s.quota
  unlimited : s.limit ≡ max_limit → Taken s s.write_queue [] s.quota
  limited :
      (batch kept : List WriteReq) (left : ℕ)
      → s.limit ≢ max_limit
      → take_terminal s.write_queue ≡ none
      → select s.quota s.write_queue ≡ (batch, kept, left)
      → Taken s batch kept left

-- do_write changes nothing, or begins to write what it took.
pub do_write_cases {ℓ} :
    (P : Outcome → Type ℓ) (s : Sender)
    → P (s, [])
    → ((batch kept : List WriteReq) (left : ℕ)
        → s.write_in_progress ≡ false
        → Taken s batch kept left
        → P (begin_write batch kept left s))
    → P (do_write s)
unfolding do_write
do_write_cases P s idle begin = progress s.write_in_progress refl
  where
    selected :
        (sel : List WriteReq × List WriteReq × ℕ)
        → s.write_in_progress ≡ false
        → s.limit ≢ max_limit
        → take_terminal s.write_queue ≡ none
        → select s.quota s.write_queue ≡ sel
        → P (write_selected sel s)
    selected ([], kept, left) e l n z = idle
    selected (r ∷ batch, kept, left) e l n z =
        begin (r ∷ batch) kept left e (limited (r ∷ batch) kept left l n z)

    under :
        (b : Bool)
        → s.write_in_progress ≡ false
        → take_terminal s.write_queue ≡ none
        → (s.limit == max_limit) ≡ b
        → P (write_limited b s.write_queue s)
    under true e n l = begin s.write_queue [] s.quota e (unlimited (==→eq s.limit max_limit l))
    under false e n l =
        selected (select s.quota s.write_queue) e (λ x. cc (l, eq→== s.limit max_limit x)) n refl

    taken :
        (o : Option (WriteReq × List WriteReq))
        → s.write_in_progress ≡ false
        → take_terminal s.write_queue ≡ o
        → P (write_taken o s.write_queue s)
    taken none e n = under (s.limit == max_limit) e n refl
    taken (some (t, kept)) e n = begin (t ∷ []) kept s.quota e (one_terminal t kept n)

    queue :
        (rs : List WriteReq)
        → s.write_in_progress ≡ false
        → s.write_queue ≡ rs
        → P (write_queue_of rs s)
    queue [] e q = idle
    queue (r ∷ rs) e q =
        subst (λ x. P (write_taken (take_terminal x) x s)) q
          (taken (take_terminal s.write_queue) e refl)

    progress : (b : Bool) → s.write_in_progress ≡ b → P (write_unless b s)
    progress true e = idle
    progress false e = queue s.write_queue e refl
