-- ===== src/Scaler/Tick/Balance/Provision.antt =====
-- The slots taken and given back by reserving and running the operations.
use selfhosted_runner_swarm.Prelude.{
  subst, ℕ, zero, suc, ◌+◌, ◌-◌, ◌≤◌, ◌≡◌, refl, List, [], ◌∷◌, map, sum_by, arith, Distinct,
}
use selfhosted_runner_swarm.Prelude.Sort.{sorted, sum_by-sorted}
use selfhosted_runner_swarm.Config.{PoolConfig}
use selfhosted_runner_swarm.Scaler.Share.Fair.{sum_by-allocate}
use selfhosted_runner_swarm.Scaler.Types.{PoolInspection}
use selfhosted_runner_swarm.Scaler.Cap.{granted_le, reserved-reserve}
use selfhosted_runner_swarm.Scaler.Share.{needed, repo_of, busier, allotted, allocate}
use selfhosted_runner_swarm.Scaler.State.{
  Services, Scene, Method, Outcome, returned, raised, fetch, update, go_on, ◌>>=◌, ◌>>◌,
}
use selfhosted_runner_swarm.Scaler.Operations.{run_runner_operations}
use selfhosted_runner_swarm.Scaler.Tick.{
  count_running, grant, reserve, provision_single, spawn_allocations, provision_personal,
}
use selfhosted_runner_swarm.Scaler.Tick.Balance.Rules.{slots, Keeps, keeps_rules}
use selfhosted_runner_swarm.Scaler.Tick.Balance.Jobs.{slots-run_runner_operations}

module _ {W : Type 0} where
  -- An action that takes as many slots as it returns, at most so many, and none if it raises.
  abbrev Took : ℕ → ℕ → Outcome ℕ × Scene W → Type 0
  Took before most (returned n, scene) = (slots scene ≡ before + n) × (n ≤ most)
  Took before most (raised e, scene) = slots scene ≡ before

  Took-grant :
      (limit n total : ℕ) (scene : Scene W) → Took (slots scene) n (grant limit n total scene)
  unfolding grant fetch update ◌>>=◌ ◌>>◌
  Took-grant limit n total scene =
      (reserved-reserve limit total (slots scene) n, granted_le limit total (slots scene) n)

  Took-after_count :
      (limit n before : ℕ) (r : Outcome ℕ × Scene W)
      → slots r.1 ≡ before
      → Took before n (go_on (grant limit n) r)
  Took-after_count limit n before (returned total, scene) h =
      subst (λ k. Took k n (grant limit n total scene)) h (Took-grant limit n total scene)
  Took-after_count limit n before (raised e, scene) h = h

module _ {W : Type 0} (s : Services W) where
  Keeps-count_running : (limit : ℕ) → Keeps (count_running s limit)
  unfolding count_running
  Keeps-count_running zero = search keeps_rules
  Keeps-count_running (suc n) = search keeps_rules

  Took-reserve : (n : ℕ) (scene : Scene W) → Took (slots scene) n (reserve s n scene)
  unfolding reserve fetch ◌>>=◌
  Took-reserve zero scene = (omega arith, omega arith)
  Took-reserve (suc n) scene =
      Took-after_count limit (suc n) (slots scene) (count_running s limit scene)
        ((Keeps-count_running limit).at scene)
    where
      limit : ℕ
      limit = scene.scaler.max_total_runners

  -- Whatever spends the granted slots gives them back.
  slots-spend :
      (before most : ℕ) (f : ℕ → Method W (Unit {0}))
      → ((n : ℕ) → n ≤ most → (scene : Scene W) → slots (f n scene).1 ≡ slots scene - n)
      → (r : Outcome ℕ × Scene W) → Took before most r
      → slots (go_on f r).1 ≡ before
  slots-spend before most f spend (returned n, scene) h = omega (arith, h.0, spend n h.1 scene)
  slots-spend before most f spend (raised e, scene) h = h

  pub Keeps-provision_single :
      (pool : PoolConfig) (i : PoolInspection) (wanted : ℕ)
      → Keeps (provision_single s pool i wanted)
  unfolding provision_single ◌>>=◌
  Keeps-provision_single pool i wanted = record {
    at = λ scene.
        slots-spend (slots scene) wanted
          (λ n. run_runner_operations s (i ∷ []) ((pool, n) ∷ []) pool.runner_operation_workers)
          (λ n le scene'. omega (
            arith,
            slots-run_runner_operations s (i ∷ []) ((pool, n) ∷ []) pool.runner_operation_workers
                scene',
          ))
          (reserve s wanted scene) (Took-reserve wanted scene);
  }

  sum_by-pairs :
      (f : PoolInspection → ℕ) (is : List PoolInspection)
      → sum_by {A = PoolConfig × ℕ} (λ a. a.1) (map (λ i. (i.pool, f i)) is) ≡ sum_by f is
  sum_by-pairs f [] = refl
  sum_by-pairs f (i ∷ is) = omega (arith, sum_by-pairs f is)

  -- For repositories with different names, everything granted within their need is handed out.
  sum_by-spawn_allocations :
      (capacity : ℕ) (is : List PoolInspection)
      → Distinct repo_of is
      → capacity ≤ sum_by needed is
      → sum_by (λ a. a.1) (spawn_allocations s capacity is) ≡ capacity
  unfolding spawn_allocations
  sum_by-spawn_allocations capacity is distinct le = omega (
    arith,
    sum_by-pairs (λ i. allotted (allocate capacity is) (repo_of i)) (sorted busier is),
    sum_by-sorted busier (λ i. allotted (allocate capacity is) (repo_of i)) is,
    sum_by-allocate capacity is distinct,
  )

  pub Keeps-provision_personal :
      (pool : PoolConfig) (is : List PoolInspection) (wanted : ℕ)
      → Distinct repo_of is
      → wanted ≤ sum_by needed is
      → Keeps (provision_personal s pool is wanted)
  unfolding provision_personal ◌>>=◌
  Keeps-provision_personal pool is wanted distinct le = record {
    at = λ scene.
        slots-spend (slots scene) wanted
          (λ n. run_runner_operations s is (spawn_allocations s n is) pool.runner_operation_workers)
          (λ n le' scene'. omega (
            arith,
            slots-run_runner_operations s is (spawn_allocations s n is)
                pool.runner_operation_workers scene',
            sum_by-spawn_allocations n is distinct (omega (arith, le, le')),
          ))
          (reserve s wanted scene) (Took-reserve wanted scene);
  }
