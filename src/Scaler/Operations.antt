-- ===== src/Scaler/Operations.antt =====
-- Deregistration and provisioning: `_run_runner_operations`, `_execute_runner_operations`,
-- `_spawn_reserved` and `_deregister_runner` of orchestrator/rorch/scaler.py. The operations of
-- the worker pool run here one after another, in the order in which they are submitted.
use mathlib.Core.List.{reverse}
use selfhosted_runner_swarm.Prelude.{
  ℕ, zero, suc, ◌+◌, ◌-◌, ◌==◌, Bool, true, false, List, [], ◌∷◌, map, if◌then◌else◌, sum_by,
  concat_map, length, replicate,
}
use selfhosted_runner_swarm.Prelude.Int.{ℤ, pos, negsuc}
use selfhosted_runner_swarm.Config.{PoolConfig}
use selfhosted_runner_swarm.Scaler.Types.{RunnerInfo, PoolInspection}
use selfhosted_runner_swarm.Scaler.Cap.{release_spawns}
use selfhosted_runner_swarm.Scaler.State.{
  Services, Scene, Method, Outcome, returned, raised, failed, ScalerState, pure, call, note, ◌>>=◌,
  ◌>>◌,
}

pub data Operation : Type 0 where
  deregister : PoolConfig → RunnerInfo → Operation
  spawn : PoolConfig → Operation

-- `[(pool, runner) for … in inspections for runner in offline_runners]`
unfoldable pub deregistration_jobs : List PoolInspection → List Operation
deregistration_jobs = concat_map (λ i. map (deregister i.pool) i.offline_runners)

-- `[pool for pool, count in spawn_allocations for _ in range(count)]`
unfoldable pub spawn_jobs : List (PoolConfig × ℕ) → List Operation
spawn_jobs = concat_map (λ a. replicate a.1 (spawn a.0))

-- Jobs are popped from the ends of the two lists in turn, while either has one.
unfoldable pub in_turn : List Operation → List Operation → List Operation
in_turn [] spawns = spawns
in_turn (d ∷ deregistrations) [] = d ∷ deregistrations
in_turn (d ∷ deregistrations) (p ∷ spawns) = d ∷ p ∷ in_turn deregistrations spawns

unfoldable pub release : ℕ → ScalerState → ScalerState
unfolding release_spawns
release count state = record state { reserved_spawns = release_spawns count state.reserved_spawns }

module _ {W : Type 0} (s : Services W) where
  -- `try: spawn … finally: release 1`
  unfoldable pub spawn_reserved : PoolConfig → Method W Bool
  unfolding call release
  spawn_reserved pool scene =
      let (outcome, after) = call (s.spawn_runner pool) scene in
      (outcome, record after { scaler = release 1 after.scaler })

  unfoldable pub record_gone : PoolConfig → RunnerInfo → Method W Bool
  unfolding note ◌>>=◌ ◌>>◌
  record_gone pool runner = do note (s.record_deregistered runner.name pool.name); pure true

  unfoldable pub deregister_runner : PoolConfig → RunnerInfo → Method W Bool
  unfolding call record_gone ◌>>=◌
  deregister_runner pool runner = do
    gone ← call (s.deregister_runner pool runner.id)
    (if gone then record_gone pool runner else pure false)

  unfoldable pub perform : Operation → Method W Bool
  unfolding spawn_reserved deregister_runner
  perform (deregister pool runner) = deregister_runner pool runner
  perform (spawn pool) = spawn_reserved pool

  -- Results and exceptions of the operations are logged and go no further.
  unfoldable pub perform_all : List Operation → Scene W → Scene W
  unfolding perform
  perform_all [] scene = scene
  perform_all (o ∷ rest) scene = perform_all rest (perform o scene).1

  -- `ThreadPoolExecutor` refuses a worker count below 1.
  abbrev pub has_workers : ℤ → Bool
  has_workers (pos zero) = false
  has_workers (pos (suc n)) = true
  has_workers (negsuc n) = false

  unfoldable pub execute_runner_operations :
      List PoolInspection → List (PoolConfig × ℕ) → ℤ → Method W ℕ
  unfolding deregistration_jobs spawn_jobs in_turn perform_all
  execute_runner_operations inspections spawn_allocations max_workers scene =
      let operation_count =
        sum_by (λ i. length i.offline_runners) inspections + sum_by (λ a. a.1) spawn_allocations in
      let jobs =
        in_turn (reverse (deregistration_jobs inspections))
          (reverse (spawn_jobs spawn_allocations)) in
      if operation_count == 0
      then (returned 0, scene)
      else if has_workers max_workers
      then (returned (length (spawn_jobs spawn_allocations)), perform_all jobs scene)
      else (raised failed, scene)

  -- How many spawns were handed to a worker, as `finally` sees it.
  abbrev pub submitted : Outcome ℕ → ℕ
  submitted (returned n) = n
  submitted (raised e) = 0

  abbrev pub forget : Outcome ℕ → Outcome (Unit {0})
  forget (returned n) = returned tt
  forget (raised e) = raised e

  unfoldable pub run_runner_operations :
      List PoolInspection → List (PoolConfig × ℕ) → ℤ → Method W (Unit {0})
  unfolding execute_runner_operations release
  run_runner_operations inspections spawn_allocations max_workers scene =
      let spawn_count = sum_by (λ a. a.1) spawn_allocations in
      let (outcome, after) =
        execute_runner_operations inspections spawn_allocations max_workers scene in
      (
        forget outcome,
        record after { scaler = release (spawn_count - submitted outcome) after.scaler },
      )
