-- ===== src/PacketId.antt =====
-- The class packet_id_allocator of include/boost/mqtt5/detail/control_packet.hpp.
--
-- The vector _free_ids is a list from its front to its back. An interval stands for the free
-- identifiers end + 1, ..., start, and the vector runs downwards, so the lowest ones are at the back.
-- Each uint16_t is a number, and what is stored into one is taken modulo 2 ^ 16.
pub mod Invariant
pub mod Allocate
pub mod Release
pub mod Canonical
pub mod Refund
pub mod Clients
use async_mqtt.Base.{
  ℕ, ◌+◌, ◌%◌, ◌^◌, ◌<◌, Bool, false, ◌&&◌, ◌||◌, List, [], ◌∷◌, ◌++◌, ltb, leb, ◌==◌,
  if◌then◌else◌,
}

pub record Interval : Type 0 where
  pub start : ℕ
  pub end : ℕ

abbrev pub max_packet_id : ℕ
max_packet_id = 65535

abbrev pub interval : ℕ → ℕ → Interval
interval s e = record { start = s; end = e }

-- `uint16_t(pid - 1)` and `++end` on a uint16_t.
abbrev pub pred_u16 : ℕ → ℕ
pred_u16 pid = (pid + 65535) % 65536

abbrev pub suc_u16 : ℕ → ℕ
suc_u16 n = (n + 1) % 65536

-- The constructor.
unfoldable pub init : List Interval
init = interval max_packet_id 0 ∷ []

-- `last.start == ++last.end` on the interval at the back: the identifier, and what is left of it.
unfoldable pub take_last : Interval → ℕ × List Interval
take_last last =
    let e = suc_u16 last.end in
    if last.start == e then (e, []) else (e, record last { end = e } ∷ [])

-- `allocate` returns 0 when nothing is free.
unfoldable pub allocate : List Interval → ℕ × List Interval
allocate [] = (0, [])
allocate (last ∷ []) = take_last last
allocate (i ∷ j ∷ is) = let (pid, js) = allocate (j ∷ is) in (pid, i ∷ js)

-- `std::upper_bound` with `x > i.start`: what stands before the iterator that it returns, and the
-- rest of the vector from that iterator on.
unfoldable pub upper_bound : ℕ → List Interval → List Interval × List Interval
upper_bound pid [] = ([], [])
upper_bound pid (i ∷ is) =
    let (before, from) = upper_bound pid is in
    if ltb i.start pid then ([], i ∷ is) else (i ∷ before, from)

-- `it != begin() && prev(it)->end == pid`: the test under which `end_p` is set.
unfoldable pub ends_at : ℕ → List Interval → Bool
ends_at pid [] = false
ends_at pid (i ∷ []) = i.end == pid
ends_at pid (i ∷ j ∷ is) = ends_at pid (j ∷ is)

-- The store through `end_p`, which points into the last interval before the iterator.
unfoldable pub set_last_end : ℕ → List Interval → List Interval
set_last_end e [] = []
set_last_end e (i ∷ []) = record i { end = e } ∷ []
set_last_end e (i ∷ j ∷ is) = i ∷ set_last_end e (j ∷ is)

-- The body of `free` after the search. `pid - 1 == it->start` is a comparison of ints.
unfoldable pub release_at : ℕ → List Interval → List Interval → List Interval
release_at pid before [] =
    if ends_at pid before
    then set_last_end (pred_u16 pid) before
    else (before ++ (interval pid (pred_u16 pid) ∷ []))
release_at pid before (it ∷ rest) =
    if it.start + 1 == pid
    then (if ends_at pid before
        then set_last_end it.end before ++ rest
        else before ++ (record it { start = pid } ∷ rest))
    else (if ends_at pid before
        then set_last_end (pred_u16 pid) before ++ (it ∷ rest)
        else before ++ (interval pid (pred_u16 pid) ∷ it ∷ rest))

-- `free`.
unfoldable pub release : ℕ → List Interval → List Interval
release pid is = let (before, from) = upper_bound pid is in release_at pid before from

-- The abstract view: is this identifier free?
unfoldable pub is_free : ℕ → List Interval → Bool
is_free q [] = false
is_free q (i ∷ is) = (ltb i.end q && leb q i.start) || is_free q is
