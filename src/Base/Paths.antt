-- ===== src/Base/Paths.antt =====
-- Sequences of calls that a step relation on phases allows.
use mathlib.Core.List.{List, [], ◌∷◌, ◌++◌}

module _ {P E : Type 0} (Allowed : P → E → P → Type 0) where
  pub data Steps : P → List E → P → Type 0 where
    stop : {a : P} → Steps a [] a
    step : {a b c : P} {e : E} {es : List E} → Allowed a e b → Steps b es c → Steps a (e ∷ es) c

  pub Steps-append :
      {a b c : P} {es ds : List E} → Steps a es b → Steps b ds c → Steps a (es ++ ds) c
  Steps-append stop q = q
  Steps-append (step s r) q = step s (Steps-append r q)
