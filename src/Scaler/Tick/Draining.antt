-- ===== src/Scaler/Tick/Draining.antt =====
-- How a draining pool's tick depends on spawning, `tick` of orchestrator/rorch/scaler.py.
use mathlib.Core.List.{reverse}
use selfhosted_runner_swarm.Prelude.Int.{negsuc, pos, ℤ}
use selfhosted_runner_swarm.Prelude.{
  ltb, ℕ, zero, suc, ◌≡◌, refl, ap, ◌∙◌, Bool, true, false, Option, none, some, List, [], ◌∷◌, map,
  if◌then◌else◌, sum_by, arith, Bool-cases, inl, inr,
}
use selfhosted_runner_swarm.Prelude.Text.{Text}
use selfhosted_runner_swarm.Prelude.Sort.{sorted}
use selfhosted_runner_swarm.Scaler.State.{
  rate_limited, ScalerState, failed, note, update, look, Services, Scene, Method, Call, Outcome,
  returned, raised, go_on, ◌>>=◌, ◌>>◌,
}
use selfhosted_runner_swarm.Scaler.Tick.{
  settle, count_pool, record_all, Collected, serve_single, schedule_next, personal_wants,
  inspect_pools_parallel, inspect_all, collect, pool_key, due_at, single_wants, provision_single,
  tick_single, spawn_allocations, provision_personal, scale_personal, tick_repositories,
  tick_personal, scan, after_scan, tick, reserve,
}
use selfhosted_runner_swarm.Scaler.Operations.{
  has_workers, Operation, deregister, spawn, deregistration_jobs, spawn_jobs, in_turn, perform,
  perform_all, execute_runner_operations, run_runner_operations,
}
use selfhosted_runner_swarm.Scaler.Inspect.{inspect_pool}
use selfhosted_runner_swarm.Scaler.Repositories.{get_personal_repositories}
use selfhosted_runner_swarm.Config.{for_repository, PoolConfig, is_personal_level}
use selfhosted_runner_swarm.Scaler.Types.{PoolInspection, PoolState}
use selfhosted_runner_swarm.Scaler.Share.Fair.{none_yet}
use selfhosted_runner_swarm.Scaler.Share.{rounds, repo_of, allotted, allocate, busier}
use selfhosted_runner_swarm.Scaler.Tick.Balance.Jobs.{
  spawns, spawns-in_turn, spawns-reverse, spawns-deregistration_jobs, spawns-spawn_jobs,
}

module _ {W : Type 0} (s : Services W) (other : PoolConfig → Call W Bool) where
  -- The same services with another way to spawn.
  abbrev pub changed : Services W
  changed = record s { spawn_runner = other }

  perform_all-changed :
      (jobs : List Operation) (scene : Scene W)
      → spawns jobs ≡ 0
      → perform_all changed jobs scene ≡ perform_all s jobs scene
  unfolding perform_all perform
  perform_all-changed [] scene none_left = refl
  perform_all-changed (deregister pool runner ∷ jobs) scene none_left =
      perform_all-changed jobs (perform s (deregister pool runner) scene).1 none_left
  perform_all-changed (spawn pool ∷ jobs) scene none_left = absurd (ground (arith, none_left))

  run-changed :
      (is : List PoolInspection) (grants : List (PoolConfig × ℕ)) (workers : ℤ) (scene : Scene W)
      → sum_by (λ a. a.1) grants ≡ 0
      → run_runner_operations changed is grants workers scene
        ≡ run_runner_operations s is grants workers scene
  unfolding run_runner_operations execute_runner_operations
  run-changed is grants workers scene nothing =
      let jobs = in_turn (reverse (deregistration_jobs is)) (reverse (spawn_jobs grants)) in
      let same : perform_all changed jobs scene ≡ perform_all s jobs scene =
        perform_all-changed jobs scene (
          omega (
            arith,
            nothing,
            spawns-in_turn (reverse (deregistration_jobs is)) (reverse (spawn_jobs grants)),
            spawns-reverse (deregistration_jobs is),
            spawns-reverse (spawn_jobs grants),
            spawns-deregistration_jobs is,
            spawns-spawn_jobs grants,
          )) in
      rw same refl

  provision_single-changed :
      (pool : PoolConfig) (i : PoolInspection) (scene : Scene W)
      → provision_single changed pool i 0 scene ≡ provision_single s pool i 0 scene
  unfolding provision_single reserve ◌>>=◌
  provision_single-changed pool i scene =
      run-changed (i ∷ []) ((pool, 0) ∷ []) pool.runner_operation_workers scene refl

  go_on-changed :
      {A B : Type 0} (f g : A → Method W B)
      → ((a : A) (scene : Scene W) → f a scene ≡ g a scene)
      → (r : Outcome A × Scene W) → go_on f r ≡ go_on g r
  go_on-changed f g same (returned a, scene) = same a scene
  go_on-changed f g same (raised e, scene) = refl

  nothing_allocated :
      (is js : List PoolInspection)
      → sum_by {A = PoolConfig × ℕ}
          (λ a. a.1)
          (map (λ i. (i.pool, allotted (map (λ j. (repo_of j, zero)) js) (repo_of i))) is)
        ≡ 0
  nothing_allocated [] js = refl
  nothing_allocated (i ∷ is) js = omega (arith, nothing_allocated is js, none_yet js (repo_of i))

  provision_personal-changed :
      (pool : PoolConfig) (is : List PoolInspection) (scene : Scene W)
      → provision_personal changed pool is 0 scene ≡ provision_personal s pool is 0 scene
  unfolding provision_personal reserve spawn_allocations allocate rounds ◌>>=◌
  provision_personal-changed pool is scene =
      run-changed is (spawn_allocations s 0 is) pool.runner_operation_workers scene
        (nothing_allocated (sorted busier is) is)

  serve_single-changed :
      (pool : PoolConfig) (i : PoolInspection) (scene : Scene W)
      → serve_single changed pool true i scene ≡ serve_single s pool true i scene
  unfolding serve_single single_wants look update note ◌>>=◌ ◌>>◌
  serve_single-changed pool i scene = provision_single-changed pool i (record scene {
    scaler = count_pool s pool i scene.scaler;
    world = s.record_snapshot i scene.world;
  })

  tick_single-changed :
      (pool : PoolConfig) (scene : Scene W)
      → tick_single changed pool true scene ≡ tick_single s pool true scene
  unfolding tick_single look inspect_pool ◌>>=◌
  tick_single-changed pool scene =
      go_on-changed (serve_single changed pool true) (serve_single s pool true)
        (serve_single-changed pool) (inspect_pool s pool (s.covers pool.name scene.world) scene)

  scale_personal-changed :
      (pool : PoolConfig) (inspected : Option (List PoolInspection)) (scene : Scene W)
      → scale_personal changed pool true inspected scene
        ≡ scale_personal s pool true inspected scene
  unfolding scale_personal personal_wants record_all note ◌>>=◌ ◌>>◌
  scale_personal-changed pool none scene = refl
  scale_personal-changed pool (some is) scene =
      provision_personal-changed pool is (record scene { world = record_all s is scene.world })

  inspect_all-changed :
      (pools : List PoolConfig) (scene : Scene W)
      → inspect_all changed pools scene ≡ inspect_all s pools scene
  unfolding inspect_all inspect_pool
  inspect_all-changed [] scene = refl
  inspect_all-changed (pool ∷ rest) scene =
      ap (λ r. (collect (inspect_pool s pool false scene).0 r.0, r.1))
        (inspect_all-changed rest (inspect_pool s pool false scene).1)

  inspect_parallel-changed :
      (pools : List PoolConfig) (workers : ℤ) (scene : Scene W)
      → inspect_pools_parallel changed pools workers scene
        ≡ inspect_pools_parallel s pools workers scene
  unfolding inspect_pools_parallel
  inspect_parallel-changed pools workers scene =
      ap
        (λ (r : Collected × Scene W).
          if has_workers s workers then (settle s r.0, r.1) else (raised failed, scene))
        (inspect_all-changed pools scene)

  tick_repositories-changed :
      (pool : PoolConfig) (names : List Text) (scene : Scene W)
      → tick_repositories changed pool true names scene ≡ tick_repositories s pool true names scene
  unfolding tick_repositories ◌>>=◌
  tick_repositories-changed pool [] scene = refl
  tick_repositories-changed pool (n ∷ ns) scene =
      let pools = map (for_repository pool) (n ∷ ns) in
      ap (go_on (scale_personal changed pool true))
        (inspect_parallel-changed pools pool.repo_check_workers scene)
      ∙ go_on-changed (scale_personal changed pool true) (scale_personal s pool true)
          (scale_personal-changed pool)
          (inspect_pools_parallel s pools pool.repo_check_workers scene)

  module _ (digest : Text → Text) where
    tick_personal-changed :
        (pool : PoolConfig) (now : ℕ) (scene : Scene W)
        → tick_personal changed digest pool now true scene
          ≡ tick_personal s digest pool now true scene
    unfolding tick_personal get_personal_repositories ◌>>=◌
    tick_personal-changed pool now scene =
        go_on-changed (tick_repositories changed pool true) (tick_repositories s pool true)
          (tick_repositories-changed pool) (get_personal_repositories s digest pool now scene)

    scan-changed :
        (pool : PoolConfig) (now : ℕ) (scene : Scene W)
        → scan changed digest pool now true scene ≡ scan s digest pool now true scene
    unfolding scan
    scan-changed pool now scene = elim (Bool-cases (is_personal_level pool)) [
      | inl e ↦ rw e (tick_personal-changed pool now scene)
      | inr e ↦ rw e (tick_single-changed pool scene)
    ]

    schedule_next-changed :
        (pool : PoolConfig) (now : ℕ) (interval : ℤ) (state : ScalerState)
        → schedule_next changed digest pool now interval state
          ≡ schedule_next s digest pool now interval state
    unfolding schedule_next pool_key
    schedule_next-changed pool now (pos zero) state = refl
    schedule_next-changed pool now (pos (suc n)) state = refl
    schedule_next-changed pool now (negsuc n) state = refl

    after_scan-changed :
        (pool : PoolConfig) (now wall : ℕ) (r : Outcome (Unit {0}) × Scene W)
        → after_scan changed digest pool now wall r ≡ after_scan s digest pool now wall r
    unfolding after_scan pool_key
    after_scan-changed pool now wall (returned u, scene) = refl
    after_scan-changed pool now wall (raised failed, scene) = refl
    after_scan-changed pool now wall (raised (rate_limited at), scene) = refl

    -- Past the tests, with the scan of a draining pool.
    unfoldable scanned : Services W → PoolConfig → ℕ → ℕ → Scene W → Outcome (Unit {0}) × Scene W
    scanned t pool now wall scene = after_scan t digest pool now wall (
        scan t digest pool now true (record scene {
          scaler = schedule_next t digest pool now pool.github_poll_interval scene.scaler;
        }))

    scanned-changed :
        (pool : PoolConfig) (now wall : ℕ) (scene : Scene W)
        → scanned changed pool now wall scene ≡ scanned s pool now wall scene
    unfolding scanned
    scanned-changed pool now wall scene =
        let scheduled =
          schedule_next changed digest pool now pool.github_poll_interval scene.scaler in
        after_scan-changed pool now wall
          (scan changed digest pool now true (record scene { scaler = scheduled }))
        ∙ (ap (after_scan s digest pool now wall)
              (scan-changed pool now (record scene { scaler = scheduled }))
            ∙ ap
                (λ state.
                  after_scan s digest pool now wall
                    (scan s digest pool now true (record scene { scaler = state })))
                (schedule_next-changed pool now pool.github_poll_interval scene.scaler))

    -- The tick of a draining pool comes to the same end, with the same state and the same world,
    -- whatever spawning a runner would do, return or raise: it spawns none.
    pub draining_never_spawns :
        (pool : PoolConfig) (flags : PoolState) (now wall : ℕ) (scene : Scene W)
        → flags.draining ≡ true
        → tick changed digest pool flags now wall scene ≡ tick s digest pool flags now wall scene
    unfolding tick scanned pool_key
    draining_never_spawns pool flags now wall scene draining = elim (Bool-cases flags.paused) [
      | inl e ↦ rw (tick, e) refl
      | inr e ↦ elim (Bool-cases (ltb now (due_at s digest pool scene.scaler))) [
        | inl f ↦ rw (tick, e, f) refl
        | inr f ↦ rw (tick, e, f, draining) (scanned-changed pool now wall scene)
      ]
    ]
