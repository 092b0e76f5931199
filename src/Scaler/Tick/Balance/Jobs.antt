-- ===== src/Scaler/Tick/Balance/Jobs.antt =====
-- The operations release one slot for each spawn, and `finally` the rest.
use mathlib.Core.List.{reverse, reverse-cons}
use selfhosted_runner_swarm.Prelude.{
  ℕ, zero, suc, ◌+◌, ◌-◌, ◌≡◌, refl, List, [], ◌∷◌, ◌++◌, map, sum_by, length, length-append,
  length-replicate, replicate, arith,
}
use selfhosted_runner_swarm.Prelude.Int.{ℤ}
use selfhosted_runner_swarm.Config.{PoolConfig}
use selfhosted_runner_swarm.Scaler.Types.{RunnerInfo, PoolInspection}
use selfhosted_runner_swarm.Scaler.Cap.{release_spawns}
use selfhosted_runner_swarm.Scaler.State.{Services, Scene, call}
use selfhosted_runner_swarm.Scaler.Operations.{
  Operation, deregister, spawn, deregistration_jobs, spawn_jobs, in_turn, release, spawn_reserved,
  deregister_runner, record_gone, perform, perform_all, execute_runner_operations,
  run_runner_operations,
}
use selfhosted_runner_swarm.Scaler.Tick.Balance.Rules.{slots, Keeps, keeps_rules}

abbrev pub spawns : List Operation → ℕ
spawns [] = 0
spawns (deregister pool runner ∷ rest) = spawns rest
spawns (spawn pool ∷ rest) = suc (spawns rest)

spawns-append : (xs ys : List Operation) → spawns (xs ++ ys) ≡ spawns xs + spawns ys
spawns-append [] ys = omega arith
spawns-append (deregister pool runner ∷ xs) ys = spawns-append xs ys
spawns-append (spawn pool ∷ xs) ys = omega (arith, spawns-append xs ys)

pub spawns-reverse : (xs : List Operation) → spawns (reverse xs) ≡ spawns xs
spawns-reverse [] = refl
spawns-reverse (deregister pool runner ∷ xs) =
    rw (reverse-cons (deregister pool runner) xs)
      (omega (arith, spawns-append (reverse xs) (deregister pool runner ∷ []), spawns-reverse xs))
spawns-reverse (spawn pool ∷ xs) =
    rw (reverse-cons (spawn pool) xs)
      (omega (arith, spawns-append (reverse xs) (spawn pool ∷ []), spawns-reverse xs))

pub spawns-in_turn : (ds ss : List Operation) → spawns (in_turn ds ss) ≡ spawns ds + spawns ss
unfolding in_turn
spawns-in_turn [] ss = omega arith
spawns-in_turn (deregister pool runner ∷ ds) [] = omega arith
spawns-in_turn (spawn pool ∷ ds) [] = omega arith
spawns-in_turn (deregister pool runner ∷ ds) (deregister pool' runner' ∷ ss) =
    omega (arith, spawns-in_turn ds ss)
spawns-in_turn (deregister pool runner ∷ ds) (spawn pool' ∷ ss) =
    omega (arith, spawns-in_turn ds ss)
spawns-in_turn (spawn pool ∷ ds) (deregister pool' runner' ∷ ss) =
    omega (arith, spawns-in_turn ds ss)
spawns-in_turn (spawn pool ∷ ds) (spawn pool' ∷ ss) = omega (arith, spawns-in_turn ds ss)

no_spawns :
    (pool : PoolConfig) (runners : List RunnerInfo) → spawns (map (deregister pool) runners) ≡ 0
no_spawns pool [] = refl
no_spawns pool (r ∷ rs) = no_spawns pool rs

pub spawns-deregistration_jobs : (is : List PoolInspection) → spawns (deregistration_jobs is) ≡ 0
unfolding deregistration_jobs
spawns-deregistration_jobs [] = refl
spawns-deregistration_jobs (i ∷ is) = omega (
  arith,
  spawns-append (map (deregister i.pool) i.offline_runners) (deregistration_jobs is),
  no_spawns i.pool i.offline_runners,
  spawns-deregistration_jobs is,
)

spawns-replicate : (n : ℕ) (pool : PoolConfig) → spawns (replicate n (spawn pool)) ≡ n
spawns-replicate zero pool = refl
spawns-replicate (suc n) pool = omega (arith, spawns-replicate n pool)

pub spawns-spawn_jobs :
    (grants : List (PoolConfig × ℕ)) → spawns (spawn_jobs grants) ≡ sum_by (λ a. a.1) grants
unfolding spawn_jobs
spawns-spawn_jobs [] = refl
spawns-spawn_jobs ((pool, n) ∷ grants) = omega (
  arith,
  spawns-append (replicate n (spawn pool)) (spawn_jobs grants),
  spawns-replicate n pool,
  spawns-spawn_jobs grants,
)

length-spawn_jobs :
    (grants : List (PoolConfig × ℕ)) → length (spawn_jobs grants) ≡ sum_by (λ a. a.1) grants
unfolding spawn_jobs
length-spawn_jobs [] = refl
length-spawn_jobs ((pool, n) ∷ grants) = omega (
  arith,
  length-append (replicate n (spawn pool)) (spawn_jobs grants),
  length-replicate n (spawn pool),
  length-spawn_jobs grants,
)

module _ {W : Type 0} (s : Services W) where
  Keeps-deregister_runner :
      (pool : PoolConfig) (runner : RunnerInfo) → Keeps (deregister_runner s pool runner)
  unfolding deregister_runner record_gone
  Keeps-deregister_runner pool runner = search keeps_rules

  slots-spawn_reserved :
      (pool : PoolConfig) (scene : Scene W)
      → slots (spawn_reserved s pool scene).1 ≡ slots scene - 1
  unfolding spawn_reserved release release_spawns call
  slots-spawn_reserved pool scene = refl

  -- Each spawn gives back one slot, whether it succeeds or raises.
  slots-perform_all :
      (jobs : List Operation) (scene : Scene W)
      → slots (perform_all s jobs scene) ≡ slots scene - spawns jobs
  unfolding perform_all perform
  slots-perform_all [] scene = omega arith
  slots-perform_all (deregister pool runner ∷ jobs) scene = omega (
    arith,
    slots-perform_all jobs (deregister_runner s pool runner scene).1,
    (Keeps-deregister_runner pool runner).at scene,
  )
  slots-perform_all (spawn pool ∷ jobs) scene = omega (
    arith,
    slots-perform_all jobs (spawn_reserved s pool scene).1,
    slots-spawn_reserved pool scene,
  )

  -- Running the operations gives back exactly the slots that the allocations hold.
  pub slots-run_runner_operations :
      (is : List PoolInspection) (grants : List (PoolConfig × ℕ)) (workers : ℤ) (scene : Scene W)
      → slots (run_runner_operations s is grants workers scene).1
        ≡ slots scene - sum_by (λ a. a.1) grants
  unfolding run_runner_operations execute_runner_operations release release_spawns
  slots-run_runner_operations is grants workers scene =
      let jobs = in_turn (reverse (deregistration_jobs is)) (reverse (spawn_jobs grants)) in
      ground (
        arith,
        slots-perform_all jobs scene,
        spawns-in_turn (reverse (deregistration_jobs is)) (reverse (spawn_jobs grants)),
        spawns-reverse (deregistration_jobs is),
        spawns-reverse (spawn_jobs grants),
        spawns-deregistration_jobs is,
        spawns-spawn_jobs grants,
        length-spawn_jobs grants,
      )
