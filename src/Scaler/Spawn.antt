-- ===== src/Scaler/Spawn.antt =====
-- How many runners a pool wants: `_calculate_spawn_count` of orchestrator/rorch/scaler.py.
use selfhosted_runner_swarm.Prelude.{ℕ, ◌+◌, ◌≡◌, min, max, arith}
use selfhosted_runner_swarm.Prelude.Int.{pos, pos_part, min_ℤ, max_ℤ, ◌-ℤ◌}
use selfhosted_runner_swarm.Config.{PoolConfig}
use selfhosted_runner_swarm.Scaler.Types.{PoolInspection}

unfoldable pub calculate_spawn_count : PoolConfig → PoolInspection → ℕ
unfolding ◌-ℤ◌
calculate_spawn_count pool i =
    let desired = min_ℤ pool.max_runners (max_ℤ pool.min_idle (pos (i.busy + i.queued))) in
    pos_part (desired -ℤ pos i.running)

module _ (pool : PoolConfig) (i : PoolInspection) where
  -- Spawning what was calculated leaves the pool with exactly the larger of what runs and what is
  -- wanted: the demand (busy and queued) or min_idle if that is more, cut at max_runners.
  pub spawn_reaches_target :
      i.running + calculate_spawn_count pool i
      ≡ max i.running
          (min (pos_part pool.max_runners) (max (pos_part pool.min_idle) (i.busy + i.queued)))
  unfolding calculate_spawn_count
  spawn_reaches_target = ground arith
