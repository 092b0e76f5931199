-- ===== src/Forge/Action.antt =====
-- Methods of the forge clients as actions on a state, which may raise.
use selfhosted_runner_swarm.Prelude.{Option, none, some}
use selfhosted_runner_swarm.Scaler.State.{Outcome, returned, raised, failed, Raised}

abbrev pub Action : Type 0 → Type 0 → Type 0
Action S A = S → Outcome A × S

module _ {S : Type 0} where
  abbrev pub pure : {A : Type 0} → A → Action S A
  pure a s = (returned a, s)

  abbrev pub raise : {A : Type 0} → Raised → Action S A
  raise e s = (raised e, s)

  abbrev pub go_on : {A B : Type 0} → (A → Action S B) → Outcome A × S → Outcome B × S
  go_on f (returned a, s) = f a s
  go_on f (raised e, s) = (raised e, s)

  infixl 5 ◌>>=◌
  abbrev pub ◌>>=◌ : {A B : Type 0} → Action S A → (A → Action S B) → Action S B
  ◌>>=◌ m f s = go_on f (m s)

  -- An `AttributeError` where there is no value.
  abbrev pub expect : {A : Type 0} → Option A → Action S A
  expect none = raise failed
  expect (some a) = pure a
