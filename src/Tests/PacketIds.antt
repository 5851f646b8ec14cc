-- ===== src/Tests/PacketIds.antt =====
-- The packet identifier allocator at concrete states.
use async_mqtt.Base.{◌<◌, ◌≡◌, ◌≤◌, refl, false, List, [], ◌∷◌, arith}
use async_mqtt.PacketId.{
  Interval, interval, init, allocate, release, take_last, upper_bound, release_at, ends_at,
  set_last_end,
}
use async_mqtt.PacketId.Clients.{
  allocate_serves, System, Reach, start, next, allocates, Inv, Reach-Inv, holds,
}

-- 2 is in use, and so is all from 10 on.
abbrev gaps : List Interval
gaps = interval 9 2 ∷ interval 1 0 ∷ []

release_merges : release 2 gaps ≡ interval 9 0 ∷ []
unfolding release upper_bound release_at ends_at set_last_end
release_merges = refl

release_new_gap : release 20 gaps ≡ interval 20 19 ∷ gaps
unfolding release upper_bound release_at ends_at set_last_end
release_new_gap = refl

abbrev one_held : System
one_held = record { free_ids = (allocate init).1; held = (allocate init).0 ∷ [] }

Reach-one : Reach one_held
unfolding allocate take_last init
Reach-one = next start (allocates (record { free_ids = init; held = [] }) (omega arith))

Reach-Inv_example : Inv one_held
Reach-Inv_example = Reach-Inv Reach-one

allocate_serves_example :
    (0 < (allocate one_held.free_ids).0)
    × ((allocate one_held.free_ids).0 ≤ 2)
    × (holds (allocate one_held.free_ids).0 one_held.held ≡ false)
unfolding allocate take_last init
allocate_serves_example = allocate_serves Reach-one 2 (omega arith) (omega arith) refl
