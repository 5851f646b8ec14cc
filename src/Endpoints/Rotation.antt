-- ===== src/Endpoints/Rotation.antt =====
-- The calls of one round over the brokers.
use async_mqtt.Base.{
  ℕ, zero, suc, ◌+◌, ◌<◌, ◌≡◌, ◌≢◌, refl, sym, subst, ap, Bool, true, false, List, [], ◌∷◌, ◌++◌,
  if◌then◌else◌, length, length-append, arith,
}
use async_mqtt.Endpoints.{
  Server, Endpoints, Lookup, resolved, aborted, refused, Answer, try_again, drop_first, Result,
  looked_up, perform, perform_on, async_next_endpoint,
}

abbrev pub ends_round : Answer → Bool
ends_round try_again = true
ends_round _ = false

-- Calls one after another, each with its own answers of the resolver, up to the first that returns
-- try_again: the brokers that they look up, and the state after them.
unfoldable pub round : List (Server → Lookup) → Endpoints → List Server × Endpoints
round [] e = ([], e)
round (look ∷ looks) e =
    let (answer, tried, next) = async_next_endpoint look e in
    let (more, last) = round looks next in
    if ends_round answer then (tried, next) else (tried ++ more, last)

-- A call ends the round behind the last broker, or stops at a broker before.
data Stop (left : List Server) (i : ℕ) : Result → Type 0 where
  at_end : Stop left i (try_again, left, 0)
  before :
      {answer : Answer} {next : ℕ} (tried rest : List Server)
      → next ≡ i + length tried
      → left ≡ tried ++ rest
      → 0 < length tried
      → ends_round answer ≡ false
      → Stop left i (answer, tried, next)

perform-Stop :
    (look : Server → Lookup) (left : List Server) (i : ℕ) → Stop left i (perform look left i)
unfolding perform
perform-Stop look [] i = at_end
perform-Stop look (s ∷ rest) i = step (look s) (perform-Stop look rest (i + 1))
  where
    step : (l : Lookup) {r : Result} → Stop rest (i + 1) r → Stop (s ∷ rest) i (looked_up l s i r)
    step resolved h = before (s ∷ []) rest (omega arith) refl (omega arith) refl
    step aborted h = before (s ∷ []) rest (omega arith) refl (omega arith) refl
    step refused at_end = at_end
    step refused (before tried more x e p n) =
        before (s ∷ tried) more (omega (arith, x)) (ap (◌∷◌ s) e) (omega (arith, p)) n

drop_first-append :
    (n : ℕ) (xs tried rest : List Server)
    → drop_first n xs ≡ tried ++ rest
    → drop_first (n + length tried) xs ≡ rest
unfolding drop_first
drop_first-append zero xs [] rest e = e
drop_first-append zero [] (t ∷ tried) rest e = absurd (cc e)
drop_first-append zero (x ∷ xs) (t ∷ tried) rest e =
    let q : suc (0 + length tried) ≡ 0 + length (t ∷ tried) = omega arith in
    subst (λ k. drop_first k (x ∷ xs) ≡ rest) q (drop_first-append zero xs tried rest (cc e))
drop_first-append (suc n) [] [] rest e =
    let q : suc n ≡ suc n + length {A = Server} [] = omega arith in
    subst (λ k. drop_first {A = Server} k [] ≡ rest) q e
drop_first-append (suc n) [] (t ∷ tried) rest e = absurd (cc e)
drop_first-append (suc n) (x ∷ xs) tried rest e =
    let q : suc (n + length tried) ≡ suc n + length tried = omega arith in
    subst (λ k. drop_first k (x ∷ xs) ≡ rest) q (drop_first-append n xs tried rest e)

perform_on-Stop :
    (look : Server → Lookup) (ss : List Server) (i : ℕ)
    → ss ≢ []
    → Stop (drop_first i ss) i (perform_on look ss i)
perform_on-Stop look [] i ne = absurd (ne refl)
perform_on-Stop look (s ∷ ss) i ne = perform-Stop look (drop_first i (s ∷ ss)) i

abbrev at_host : Endpoints → ℕ → Endpoints
at_host e i = record e { next_host = i }

round_on :
    (looks : List (Server → Lookup)) (e : Endpoints) {r : Result}
    → length (drop_first e.next_host e.servers) < suc (length looks)
    → ((i : ℕ)
        → length (drop_first i e.servers) < length looks
        → round looks (at_host e i) ≡ (drop_first i e.servers, at_host e 0))
    → Stop (drop_first e.next_host e.servers) e.next_host r
    → ◌≡◌ {A = List Server × Endpoints}
        (if ends_round r.0
          then (r.1, at_host e r.2)
          else (r.1 ++ (round looks (at_host e r.2)).0, (round looks (at_host e r.2)).1))
        (drop_first e.next_host e.servers, at_host e 0)
round_on looks e h ih at_end = refl
round_on looks e h ih (before {answer} {next} tried rest x q p n) =
    let behind : drop_first next e.servers ≡ rest =
      subst (λ k. drop_first k e.servers ≡ rest) (sym x)
        (drop_first-append e.next_host e.servers tried rest q) in
    let fewer : length rest < length looks =
      omega (arith, h, p, ap (λ (s : List Server). length s) q, length-append tried rest) in
    let later = ih next (subst (λ (s : List Server). length s < length looks) (sym behind) fewer) in
    rw (n, later, behind, q) refl

-- If there is a broker, then of more calls than there are brokers left one returns try_again,
-- whatever the resolver answers: up to that call every broker that is left is looked up once, in
-- order, and after it the rotation is at the first broker again.
pub round-drop_first :
    (looks : List (Server → Lookup)) (e : Endpoints)
    → e.servers ≢ []
    → length (drop_first e.next_host e.servers) < length looks
    → round looks e ≡ (drop_first e.next_host e.servers, record e { next_host = 0 })
unfolding round async_next_endpoint
round-drop_first [] e ne h = absurd (omega (arith, h))
round-drop_first (look ∷ looks) e ne h =
    round_on looks e h (λ i l. round-drop_first looks (at_host e i) ne l)
      (perform_on-Stop look e.servers e.next_host ne)
