-- ===== src/Forge/Routes/Rules.antt =====
-- Properties of the state that an action of a forge client keeps, by the way the action is built.
use selfhosted_runner_swarm.Prelude.{Bool, true, false, Option, none, some, if◌then◌else◌}
use selfhosted_runner_swarm.Prelude.Dict.{number_key}
use selfhosted_runner_swarm.Scaler.State.{Outcome, returned, raised}
use selfhosted_runner_swarm.Forge.Action.{Action, expect, go_on, ◌>>=◌}

module _ {S : Type 0} (P : S → Type 0) where
  -- The action leads from states with the property to such states.
  abbrev pub Keeps : {A : Type 0} → Action S A → Type 0
  Keeps m = (s : S) → P s → P (m s).1

  pub Keeps-bind :
      {A B : Type 0} (m : Action S A) (f : A → Action S B)
      → Keeps m
      → ((a : A) → Keeps (f a))
      → Keeps (m >>= f)
  Keeps-bind {A = A} m f k h s p = by_outcome (m s).0 (m s).1 (k s p)
    where
      by_outcome : (o : Outcome A) (t : S) → P t → P (go_on f (o, t)).1
      by_outcome (returned a) t q = h a t q
      by_outcome (raised e) t q = q

  pub Keeps-if :
      {A : Type 0} (b : Bool) (m n : Action S A) → Keeps m → Keeps n → Keeps (if b then m else n)
  Keeps-if true m n k l = k
  Keeps-if false m n k l = l

  pub Keeps-expect : {A : Type 0} (o : Option A) → Keeps (expect o)
  Keeps-expect none s p = p
  Keeps-expect (some a) s p = p
