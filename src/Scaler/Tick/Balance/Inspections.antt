-- ===== src/Scaler/Tick/Balance/Inspections.antt =====
-- An inspection keeps the slots and is of its pool; those of a scan have the pools' repositories.
use selfhosted_runner_swarm.Prelude.{
  ◌≡◌, ◌≢◌, refl, sym, subst, ◌∙◌, Bool, false, Option, none, some, List, [], ◌∷◌, Distinct, All,
}
use selfhosted_runner_swarm.Config.{PoolConfig}
use selfhosted_runner_swarm.Scaler.Types.{PoolInspection, RunnerInfo}
use selfhosted_runner_swarm.Scaler.Share.{repo_of}
use selfhosted_runner_swarm.Scaler.State.{
  Services, Scene, Outcome, returned, raised, rate_limited, failed,
}
use selfhosted_runner_swarm.Scaler.Inspect.{inspect_pool, federated_queue, or_fail}
use selfhosted_runner_swarm.Scaler.Tick.{Collected, collect, inspect_all}
use selfhosted_runner_swarm.Scaler.Tick.Balance.Rules.{
  slots, Keeps, keeps_rules, IfReturned, Gives, gives_rules,
}

module _ {W : Type 0} (s : Services W) where
  Keeps-or_fail : (listed : Option (List RunnerInfo)) → Keeps (or_fail s listed)
  Keeps-or_fail none = search keeps_rules
  Keeps-or_fail (some runners) = search keeps_rules

  Keeps-federated_queue : (pool : PoolConfig) → Keeps (federated_queue s pool)
  unfolding federated_queue
  Keeps-federated_queue pool = search keeps_rules

  pub Keeps-inspect_pool :
      (pool : PoolConfig) (federated : Bool) → Keeps (inspect_pool s pool federated)
  unfolding inspect_pool
  Keeps-inspect_pool pool federated =
      search (keeps_rules, Keeps-or_fail, Keeps-federated_queue) depth 20 fits 4000

  pub Gives-inspect_pool :
      (pool : PoolConfig) (federated : Bool)
      → Gives (λ i. i.pool ≡ pool) (inspect_pool s pool federated)
  unfolding inspect_pool
  Gives-inspect_pool pool federated = search gives_rules depth 20 fits 4000

  pub slots-inspect_all :
      (pools : List PoolConfig) (scene : Scene W)
      → slots (inspect_all s pools scene).1 ≡ slots scene
  unfolding inspect_all
  slots-inspect_all [] scene = refl
  slots-inspect_all (pool ∷ rest) scene =
      slots-inspect_all rest (inspect_pool s pool false scene).1
      ∙ (Keeps-inspect_pool pool false).at scene

  -- What holds of the pools holds of the inspections that succeeded.
  All-collect :
      (P : PoolConfig → Type 0) (pool : PoolConfig) (c : Collected)
      (outcome : Outcome PoolInspection)
      → P pool
      → IfReturned (λ i. i.pool ≡ pool) outcome
      → All (λ i. P i.pool) c.inspections
      → All (λ i. P i.pool) (collect outcome c).inspections
  unfolding collect
  All-collect P pool c (returned i) p e h = (subst P (sym e) p, h)
  All-collect P pool c (raised (rate_limited at)) p e h = h
  All-collect P pool c (raised failed) p e h = h

  All-inspect_all :
      (P : PoolConfig → Type 0) (pools : List PoolConfig) (scene : Scene W)
      → All P pools
      → All (λ i. P i.pool) (inspect_all s pools scene).0.inspections
  unfolding inspect_all
  All-inspect_all P [] scene h = tt
  All-inspect_all P (pool ∷ rest) scene h =
      let (outcome, after) = inspect_pool s pool false scene in
      All-collect P pool (inspect_all s rest after).0 outcome h.0
        ((Gives-inspect_pool pool false).at scene) (All-inspect_all P rest after h.1)

  Distinct-collect :
      (pool : PoolConfig) (c : Collected) (outcome : Outcome PoolInspection)
      → IfReturned (λ i. i.pool ≡ pool) outcome
      → All (λ i. pool.repo ≢ repo_of i) c.inspections
      → Distinct repo_of c.inspections
      → Distinct repo_of (collect outcome c).inspections
  unfolding collect
  Distinct-collect pool c (returned i) e h d =
      (subst (λ p. All (λ j. p.repo ≢ repo_of j) c.inspections) (sym e) h, d)
  Distinct-collect pool c (raised (rate_limited at)) e h d = d
  Distinct-collect pool c (raised failed) e h d = d

  pub Distinct-inspect_all :
      (pools : List PoolConfig) (scene : Scene W)
      → Distinct (λ p. p.repo) pools
      → Distinct repo_of (inspect_all s pools scene).0.inspections
  unfolding inspect_all
  Distinct-inspect_all [] scene d = tt
  Distinct-inspect_all (pool ∷ rest) scene d =
      let (outcome, after) = inspect_pool s pool false scene in
      Distinct-collect pool (inspect_all s rest after).0 outcome
        ((Gives-inspect_pool pool false).at scene)
        (All-inspect_all (λ p. pool.repo ≢ p.repo) rest after d.0)
        (Distinct-inspect_all rest after d.1)
