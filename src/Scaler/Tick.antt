-- ===== src/Scaler/Tick.antt =====
-- One scaling cycle: `tick`, `_tick_single`, `_tick_personal` and `_inspect_pools_parallel` of
-- orchestrator/rorch/scaler.py. Repositories are inspected one after another, in their order.
-- Clock readings are arguments: `now` of the monotonic clock, `wall` of `time.time()`; times are
-- whole seconds.
pub mod Balance
pub mod Schedule
pub mod Draining
use selfhosted_runner_swarm.Prelude.{
  ℕ, zero, suc, ◌+◌, ◌-◌, max, min, Bool, true, false, Option, none, some, List, [], ◌∷◌, map,
  if◌then◌else◌, sum_by, length, ltb, leb, ◌==◌,
}
use selfhosted_runner_swarm.Prelude.Int.{ℤ, pos, negsuc, pos_part, ◌-ℤ◌}
use selfhosted_runner_swarm.Prelude.Text.{Text, codes, lower}
use selfhosted_runner_swarm.Prelude.Dict.{get, put, text_key}
use selfhosted_runner_swarm.Prelude.Sort.{sorted, text_leb}
use selfhosted_runner_swarm.Config.{PoolConfig, is_personal_level, for_repository}
use selfhosted_runner_swarm.Scaler.Types.{PoolInspection, PoolState, PoolCounts}
use selfhosted_runner_swarm.Scaler.Spawn.{calculate_spawn_count}
use selfhosted_runner_swarm.Scaler.Cap.{reserve_spawns}
use selfhosted_runner_swarm.Scaler.Share.{needed, repo_of, busier, allotted, allocate}
use selfhosted_runner_swarm.Scaler.State.{
  Services, Scene, Method, Outcome, returned, raised, Raised, rate_limited, failed, ScalerState,
  PoolKey, pool_key_key, pure, raise, call, note, look, fetch, update, ◌>>=◌, ◌>>◌,
}
use selfhosted_runner_swarm.Scaler.Inspect.{inspect_pool}
use selfhosted_runner_swarm.Scaler.Operations.{run_runner_operations, has_workers}
use selfhosted_runner_swarm.Scaler.Repositories.{get_personal_repositories}

-- The inspections that succeeded, whether one failed, and the last rate limit that was hit.
pub record Collected : Type 0 where
  pub inspections : List PoolInspection
  pub failed_one : Bool
  pub limit : Option ℕ

unfoldable pub collect : Outcome PoolInspection → Collected → Collected
collect (returned i) c = record c { inspections = i ∷ c.inspections }
collect (raised (rate_limited at)) c = record c {
  limit = elim c.limit [ none ↦ some at | some later ↦ some later ];
}
collect (raised failed) c = record c { failed_one = true }

unfoldable pub by_repo : PoolInspection → PoolInspection → Bool
unfolding text_leb
by_repo i j = text_leb (repo_of i) (repo_of j)

-- Under the lock: grant what the cap leaves, and count it as reserved.
unfoldable pub grant : {W : Type 0} → (cap to_spawn total : ℕ) → Method W ℕ
unfolding fetch update reserve_spawns ◌>>=◌ ◌>>◌
grant cap to_spawn total = do
  granted ← fetch (λ state. (reserve_spawns cap total state.reserved_spawns to_spawn).0)
  update (λ state. record state {
    reserved_spawns = (reserve_spawns cap total state.reserved_spawns to_spawn).1;
  })
  pure granted

module _ {W : Type 0} (s : Services W) where
  -- The count of running containers is read only where there is a cap to compare it with.
  unfoldable pub count_running : ℕ → Method W ℕ
  unfolding call ◌>>=◌
  count_running zero = pure 0
  count_running (suc cap) = do
    names ← call (s.running_containers (codes "gh-runner"))
    pure (length names)

  unfoldable pub reserve : ℕ → Method W ℕ
  unfolding count_running grant fetch ◌>>=◌
  reserve zero = pure 0
  reserve (suc n) = do
    cap ← fetch (λ state. state.max_total_runners)
    total ← count_running cap
    grant cap (suc n) total

  abbrev pub count_pool : PoolConfig → PoolInspection → ScalerState → ScalerState
  count_pool pool i state = record state {
    pool_counts =
        put pool.name
          (record { running = i.running; busy = i.busy; max_runners = pool.max_runners })
          state.pool_counts;
  }

  unfoldable pub single_wants : Bool → Bool → PoolConfig → PoolInspection → ℕ
  unfolding calculate_spawn_count
  single_wants draining hot pool i =
      if draining then 0 else if hot then 0 else calculate_spawn_count pool i

  -- Reserve, then deregister and spawn.
  unfoldable pub provision_single : PoolConfig → PoolInspection → ℕ → Method W (Unit {0})
  unfolding reserve run_runner_operations ◌>>=◌
  provision_single pool inspection wanted = do
    to_spawn ← reserve wanted
    run_runner_operations s (inspection ∷ []) ((pool, to_spawn) ∷ []) pool.runner_operation_workers

  -- With the inspection: publish the counts, record them, provision.
  unfoldable pub serve_single : PoolConfig → Bool → PoolInspection → Method W (Unit {0})
  unfolding look update note single_wants provision_single put ◌>>=◌ ◌>>◌
  serve_single pool draining inspection = do
    update (count_pool pool inspection)
    note (s.record_snapshot inspection)
    hot ← look s.is_hot
    provision_single pool inspection (single_wants draining hot pool inspection)

  unfoldable pub tick_single : PoolConfig → Bool → Method W (Unit {0})
  unfolding inspect_pool look serve_single ◌>>=◌
  tick_single pool draining = do
    federated ← look (s.covers pool.name)
    inspection ← inspect_pool s pool federated
    serve_single pool draining inspection

  unfoldable pub inspect_all : List PoolConfig → Scene W → Collected × Scene W
  unfolding inspect_pool collect
  inspect_all [] scene = (record { inspections = []; failed_one = false; limit = none }, scene)
  inspect_all (pool ∷ rest) scene =
      let (outcome, after) = inspect_pool s pool false scene in
      let (others, end) = inspect_all rest after in (collect outcome others, end)

  abbrev pub settle : Collected → Outcome (Option (List PoolInspection))
  settle c = elim c.limit [
    | some at ↦ raised (rate_limited at)
    | none ↦ returned (if c.failed_one then none else some (sorted by_repo c.inspections))
  ]

  unfoldable pub inspect_pools_parallel :
      List PoolConfig → ℤ → Method W (Option (List PoolInspection))
  unfolding inspect_all sorted by_repo
  inspect_pools_parallel pools max_workers scene =
      let (c, after) = inspect_all pools scene in
      if has_workers s max_workers then (settle c, after) else (raised failed, scene)

  unfoldable pub record_all : List PoolInspection → W → W
  record_all [] w = w
  record_all (i ∷ rest) w = record_all rest (s.record_snapshot i w)

  -- What the account may still start: the room under max_runners, as far as there is need.
  unfoldable pub personal_wants : Bool → PoolConfig → List PoolInspection → ℕ
  unfolding ◌-ℤ◌
  personal_wants draining pool inspections =
      if draining
      then 0
      else min (pos_part (pool.max_runners -ℤ pos (sum_by (λ i. i.running) inspections)))
          (sum_by needed inspections)

  unfoldable pub spawn_allocations : ℕ → List PoolInspection → List (PoolConfig × ℕ)
  unfolding allocate sorted busier allotted
  spawn_allocations capacity inspections =
      map (λ i. (i.pool, allotted (allocate capacity inspections) (repo_of i)))
        (sorted busier inspections)

  unfoldable pub provision_personal : PoolConfig → List PoolInspection → ℕ → Method W (Unit {0})
  unfolding reserve spawn_allocations run_runner_operations ◌>>=◌
  provision_personal pool inspections wanted = do
    capacity ← reserve wanted
    run_runner_operations s inspections (spawn_allocations capacity inspections)
        pool.runner_operation_workers

  unfoldable pub scale_personal :
      PoolConfig → Bool → Option (List PoolInspection) → Method W (Unit {0})
  unfolding record_all note personal_wants provision_personal ◌>>=◌ ◌>>◌
  scale_personal pool draining none = pure tt
  scale_personal pool draining (some inspections) = do
    note (record_all inspections)
    provision_personal pool inspections (personal_wants draining pool inspections)

  unfoldable pub tick_repositories : PoolConfig → Bool → List Text → Method W (Unit {0})
  unfolding inspect_pools_parallel scale_personal for_repository ◌>>=◌
  tick_repositories pool draining [] = pure tt
  tick_repositories pool draining (repo ∷ repos) = do
    inspected ←
        inspect_pools_parallel (map (for_repository pool) (repo ∷ repos)) pool.repo_check_workers
    scale_personal pool draining inspected

  module _ (digest : Text → Text) where
    unfoldable pub pool_key : PoolConfig → PoolKey
    unfolding lower
    pool_key pool = record {
      name = pool.name;
      owner = lower pool.owner;
      repo = lower pool.repo;
      token_digest = digest pool.pat;
    }

    unfoldable pub tick_personal : PoolConfig → ℕ → Bool → Method W (Unit {0})
    unfolding get_personal_repositories tick_repositories ◌>>=◌
    tick_personal pool now draining = do
      repos ← get_personal_repositories s digest pool now
      tick_repositories pool draining repos

    abbrev pub due_at : PoolConfig → ScalerState → ℕ
    due_at pool state = elim (get (pool_key pool) state.next_poll_at) [ none ↦ 0 | some at ↦ at ]

    abbrev pub set_due : PoolConfig → ℕ → ScalerState → ScalerState
    set_due pool at state = record state {
      next_poll_at = put (pool_key pool) at state.next_poll_at;
    }

    -- `if pool.github_poll_interval > 0: …`
    unfoldable pub schedule_next : PoolConfig → ℕ → ℤ → ScalerState → ScalerState
    unfolding pool_key put
    schedule_next pool now (pos zero) state = state
    schedule_next pool now (pos (suc n)) state = set_due pool (now + suc n) state
    schedule_next pool now (negsuc n) state = state

    unfoldable pub scan : PoolConfig → ℕ → Bool → Method W (Unit {0})
    unfolding tick_personal tick_single is_personal_level
    scan pool now draining =
        if is_personal_level pool
        then tick_personal pool now draining
        else tick_single pool draining

    -- `except GitHubRateLimitError`; any other exception goes on to the lane.
    unfoldable pub after_scan :
        PoolConfig → ℕ → ℕ → Outcome (Unit {0}) × Scene W → Outcome (Unit {0}) × Scene W
    unfolding pool_key put get
    after_scan pool now wall (returned u, scene) = (returned u, scene)
    after_scan pool now wall (raised failed, scene) = (raised failed, scene)
    after_scan pool now wall (raised (rate_limited retry_at), scene) =
        let retry_after = max 1 (retry_at - wall) in
        (
          returned tt,
          record scene {
            scaler = set_due pool (max (due_at pool scene.scaler) (now + retry_after)) scene.scaler;
          },
        )

    unfoldable pub tick : PoolConfig → PoolState → ℕ → ℕ → Method W (Unit {0})
    unfolding schedule_next scan after_scan get pool_key
    tick pool state now wall scene =
        let begun = record scene {
          scaler = schedule_next pool now pool.github_poll_interval scene.scaler;
        } in
        let done = after_scan pool now wall (scan pool now state.draining begun) in
        if state.paused
        then (returned tt, scene)
        else if ltb now (due_at pool scene.scaler)
        then (returned tt, scene)
        else done
