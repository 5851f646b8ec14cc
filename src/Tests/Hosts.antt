-- ===== src/Tests/Hosts.antt =====
-- The rotation over the brokers at a concrete list.
use async_mqtt.Base.{ℕ, ◌≡◌, refl, [], ◌∷◌, arith, true, false}
use async_mqtt.Endpoints.{
  Server, Endpoints, Lookup, resolved, refused, no_error, aborted_code, on_resolve, drop_first,
}
use async_mqtt.Endpoints.Rotation.{round, round-drop_first}

abbrev broker : ℕ → Server
broker n = record { host = n ∷ []; port = []; path = [] }

abbrev three : Endpoints
three = record { servers = broker 1 ∷ broker 2 ∷ broker 3 ∷ []; next_host = 1 }

abbrev found : Server → Lookup
found s = resolved

abbrev missing : Server → Lookup
missing s = refused

round-drop_first_example :
    round (found ∷ missing ∷ found ∷ []) three
    ≡ (broker 2 ∷ broker 3 ∷ [], record three { next_host = 0 })
unfolding drop_first
round-drop_first_example =
    round-drop_first (found ∷ missing ∷ found ∷ []) three (λ e. cc e) (omega arith)

timed_out : on_resolve false no_error no_error ≡ refused
unfolding on_resolve
timed_out = refl

found_in_time : on_resolve true no_error aborted_code ≡ resolved
unfolding on_resolve
found_in_time = refl
