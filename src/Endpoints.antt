-- ===== src/Endpoints.antt =====
-- The rotation over the brokers: resolve_op and endpoints of
-- include/boost/mqtt5/impl/endpoints.hpp.
--
-- `next_host` is `_current_host + 1`, which starts at 0. What the resolver and its timer answer
-- for a broker is an argument of each call. A call also returns the brokers that it looked up, in
-- order. The parser of the list of brokers is not modelled.
pub mod Rotation
use async_mqtt.Base.{
  ℕ, zero, suc, ◌+◌, Bool, true, false, ◌&&◌, ◌||◌, not, List, [], ◌∷◌, if◌then◌else◌,
}

-- `authority_path`
pub record Server : Type 0 where
  pub host : List ℕ
  pub port : List ℕ
  pub path : List ℕ

pub record Endpoints : Type 0 where
  pub servers : List Server
  pub next_host : ℕ

-- The error codes of the resolver and the timer, as far as they are told apart.
pub data Code : Type 0 where
  no_error aborted_code other_code : Code

pub data Lookup : Type 0 where
  resolved aborted refused : Lookup

pub data Answer : Type 0 where
  gives : Server → Answer
  operation_aborted try_again host_not_found : Answer

abbrev pub is_aborted : Code → Bool
is_aborted aborted_code = true
is_aborted _ = false

abbrev pub is_success : Code → Bool
is_success no_error = true
is_success _ = false

-- The tests of `operator()`: whether the resolver was first, its code, and that of the timer. When
-- the timer went off, the look-up timed out.
unfoldable pub on_resolve : Bool → Code → Code → Lookup
on_resolve resolver_first resolve_ec timer_ec =
    if (resolver_first && is_aborted resolve_ec) || (not resolver_first && is_aborted timer_ec)
    then aborted
    else (if not (is_success timer_ec) && is_success resolve_ec then resolved else refused)

unfoldable pub drop_first {ℓ} : {A : Type ℓ} → ℕ → List A → List A
drop_first zero xs = xs
drop_first (suc n) [] = []
drop_first (suc n) (x ∷ xs) = drop_first n xs

abbrev pub Result : Type 0
Result = Answer × List Server × ℕ

-- After one look-up: the call ends, or goes on with the next broker.
abbrev pub looked_up : Lookup → Server → ℕ → Result → Result
looked_up resolved s i more = (gives s, s ∷ [], i + 1)
looked_up aborted s i more = (operation_aborted, s ∷ [], i + 1)
looked_up refused s i more = (more.0, s ∷ more.1, more.2)

-- `perform` and `operator()` in turn, over the brokers that are left from number `i` on.
unfoldable pub perform : (Server → Lookup) → List Server → ℕ → Result
perform look [] i = (try_again, [], 0)
perform look (s ∷ rest) i = let more = perform look rest (i + 1) in looked_up (look s) s i more

abbrev pub perform_on : (Server → Lookup) → List Server → ℕ → Result
perform_on look [] i = (host_not_found, [], i)
perform_on look (s ∷ ss) i = perform look (drop_first i (s ∷ ss)) i

unfoldable pub async_next_endpoint :
    (Server → Lookup) → Endpoints → Answer × List Server × Endpoints
async_next_endpoint look e =
    let (answer, tried, i) = perform_on look e.servers e.next_host in
    (answer, tried, record e { next_host = i })
