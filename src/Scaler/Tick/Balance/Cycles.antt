-- ===== src/Scaler/Tick/Balance/Cycles.antt =====
-- The balance of the two kinds of cycle: of a single pool, and of a personal account.
use selfhosted_runner_swarm.Prelude.{
  All-map, ℕ, ◌≢◌, refl, Bool, true, false, Option, none, some, List, [], ◌∷◌, map, arith, Distinct,
  Bool-cases, inl, inr,
}
use selfhosted_runner_swarm.Prelude.Int.{ℤ}
use selfhosted_runner_swarm.Prelude.Text.{Text}
use selfhosted_runner_swarm.Prelude.Sort.{Distinct-sorted}
use selfhosted_runner_swarm.Scaler.Tick.{
  serve_single, settle, by_repo, count_pool, tick_single, inspect_all, inspect_pools_parallel,
  personal_wants, scale_personal, tick_repositories, record_all, provision_personal,
}
use selfhosted_runner_swarm.Scaler.State.{note, Services, update}
use selfhosted_runner_swarm.Scaler.Tick.Balance.Rules.{
  Keeps-seq, Keeps, keeps_rules, Keeps-note, Keeps-update, IfReturned, Gives, Keeps-bind-given,
}
use selfhosted_runner_swarm.Config.{PoolConfig, for_repository}
use selfhosted_runner_swarm.Scaler.Types.{PoolInspection, RepositoryCacheEntry}
use selfhosted_runner_swarm.Scaler.Share.{repo_of}
use selfhosted_runner_swarm.Scaler.Operations.{has_workers}
use selfhosted_runner_swarm.Scaler.Tick.Balance.Provision.{
  Keeps-provision_single, Keeps-provision_personal,
}
use selfhosted_runner_swarm.Scaler.Tick.Balance.Inspections.{
  Keeps-inspect_pool, slots-inspect_all, Distinct-inspect_all,
}

-- The forge names each repository of an account once.
abbrev pub NamedOnce : Option (List Text) → Type 0
NamedOnce none = Unit
NamedOnce (some names) = Distinct (λ name. name) names

abbrev pub CachedOnce : Option RepositoryCacheEntry → Type 0
CachedOnce none = Unit
CachedOnce (some e) = Distinct (λ name. name) e.repositories

abbrev pub InspectedOnce : Option (List PoolInspection) → Type 0
InspectedOnce none = Unit
InspectedOnce (some is) = Distinct repo_of is

module _ {W : Type 0} (s : Services W) where
  Keeps-count_pool :
      (pool : PoolConfig) (i : PoolInspection) → Keeps {W = W} (update (count_pool s pool i))
  Keeps-count_pool pool i = Keeps-update (count_pool s pool i) (λ state. refl)

  pub Keeps-tick_single :
      (pool : PoolConfig) (draining : Bool) → Keeps (tick_single s pool draining)
  unfolding tick_single serve_single
  Keeps-tick_single pool draining =
      search (keeps_rules, Keeps-inspect_pool, Keeps-provision_single, Keeps-count_pool) depth 20
        fits 4000

  Gives-settle :
      (is : List PoolInspection) (failed_one : Bool) (limit : Option ℕ)
      → Distinct repo_of is
      → IfReturned InspectedOnce
          (settle s (record { inspections = is; failed_one = failed_one; limit = limit }))
  Gives-settle is failed_one (some at) d = tt
  Gives-settle is true none d = tt
  Gives-settle is false none d = Distinct-sorted by_repo repo_of is d

  Distinct-for_repository :
      (pool : PoolConfig) (names : List Text)
      → Distinct (λ name. name) names
      → Distinct (λ p. p.repo) (map (for_repository pool) names)
  unfolding for_repository
  Distinct-for_repository pool [] d = tt
  Distinct-for_repository pool (n ∷ ns) d =
      (All-map (λ p. n ≢ p.repo) (for_repository pool) ns d.0, Distinct-for_repository pool ns d.1)

  Keeps-scale_personal :
      (pool : PoolConfig) (draining : Bool) (is : List PoolInspection)
      → Distinct repo_of is
      → Keeps (scale_personal s pool draining (some is))
  unfolding scale_personal personal_wants
  Keeps-scale_personal pool draining is d =
      Keeps-seq (note (record_all s is))
        (provision_personal s pool is (personal_wants s draining pool is))
        (Keeps-note (record_all s is))
        (Keeps-provision_personal s pool is (personal_wants s draining pool is) d (ground arith))

  Keeps-inspect_pools_parallel :
      (pools : List PoolConfig) (workers : ℤ) → Keeps (inspect_pools_parallel s pools workers)
  unfolding inspect_pools_parallel
  Keeps-inspect_pools_parallel pools workers = record {
    at = λ scene. ground (arith, slots-inspect_all s pools scene);
  }

  Gives-inspect_pools_parallel :
      (pools : List PoolConfig) (workers : ℤ)
      → Distinct (λ p. p.repo) pools
      → Gives InspectedOnce (inspect_pools_parallel s pools workers)
  unfolding inspect_pools_parallel
  Gives-inspect_pools_parallel pools workers d = record {
    at = λ scene.
        let c = (inspect_all s pools scene).0 in
        elim (Bool-cases (has_workers s workers)) [
          | inl e ↦ rw e (
              Gives-settle c.inspections c.failed_one c.limit
                (Distinct-inspect_all s pools scene d))
          | inr e ↦ rw e tt
        ];
  }

  Keeps-scale_inspected :
      (pool : PoolConfig) (draining : Bool) (inspected : Option (List PoolInspection))
      → InspectedOnce inspected
      → Keeps (scale_personal s pool draining inspected)
  unfolding scale_personal
  Keeps-scale_inspected pool draining none d = search keeps_rules
  Keeps-scale_inspected pool draining (some is) d = Keeps-scale_personal pool draining is d

  pub Keeps-tick_repositories :
      (pool : PoolConfig) (draining : Bool) (names : List Text)
      → Distinct (λ name. name) names
      → Keeps (tick_repositories s pool draining names)
  unfolding tick_repositories
  Keeps-tick_repositories pool draining [] d = search keeps_rules
  Keeps-tick_repositories pool draining (n ∷ ns) d =
      let pools = map (for_repository pool) (n ∷ ns) in
      Keeps-bind-given InspectedOnce (inspect_pools_parallel s pools pool.repo_check_workers)
        (scale_personal s pool draining)
        (Keeps-inspect_pools_parallel pools pool.repo_check_workers)
        (Gives-inspect_pools_parallel pools pool.repo_check_workers
          (Distinct-for_repository pool (n ∷ ns) d))
        (Keeps-scale_inspected pool draining)
