-- ===== src/Sender/Request.antt =====
-- The class write_req of include/boost/mqtt5/impl/async_sender.hpp, and the flags and serial numbers
-- of include/boost/mqtt5/detail/internal_types.hpp. std::stable_sort is insertion from the right.
use async_mqtt.Base.{
  ℕ, ◌+◌, ◌-◌, ◌/◌, ◌%◌, ◌^◌, Bool, true, false, List, [], ◌∷◌, ltb, leb, ◌==◌, if◌then◌else◌,
}

pub record WriteReq : Type 0 where
  pub buffer : List ℕ
  pub serial_num : ℕ
  pub flags : ℕ
  pub handler : ℕ

-- send_flag::throttled is bit 0, send_flag::prioritized bit 1, send_flag::terminal bit 2.
abbrev pub throttled : WriteReq → Bool
throttled r = r.flags % 2 == 1

abbrev pub prioritized : WriteReq → Bool
prioritized r = r.flags / 2 % 2 == 1

abbrev pub terminal : WriteReq → Bool
terminal r = r.flags / 4 % 2 == 1

-- `next_serial_num` on a uint32_t.
abbrev pub next_serial_num : ℕ → ℕ
next_serial_num last = (last + 1) % 2 ^ 32

-- The comparison of serial numbers in `operator<`. In each branch the subtraction does not wrap.
unfoldable pub serial_lt : ℕ → ℕ → Bool
serial_lt s1 s2 = if ltb s1 s2 then ltb (s2 - s1) 0x8000_0000 else leb 0x8000_0000 (s1 - s2)

-- `operator<`
unfoldable pub less : WriteReq → WriteReq → Bool
less a b =
    if prioritized a
    then (if prioritized b then serial_lt a.serial_num b.serial_num else true)
    else (if prioritized b then false else serial_lt a.serial_num b.serial_num)

-- An element goes before the first one that is not less than it.
unfoldable pub insert : WriteReq → List WriteReq → List WriteReq
insert r [] = r ∷ []
insert r (x ∷ xs) = if less x r then x ∷ insert r xs else (r ∷ x ∷ xs)

unfoldable pub sort : List WriteReq → List WriteReq
sort [] = []
sort (r ∷ rs) = insert r (sort rs)
