-- ===== src/Scaler/Cap.antt =====
-- The global runner cap: `_reserve_spawns`, `_release_spawns` and `_spawn_reserved` of
-- orchestrator/rorch/scaler.py.
pub mod Threads
use selfhosted_runner_swarm.Prelude.{ℕ, ◌+◌, ◌-◌, ◌≤◌, ◌≡◌, min, arith, ltb, ◌==◌, if◌then◌else◌}

-- `total` is what `docker ps` shows, `reserved` the field `_reserved_spawns`: the slots granted,
-- and the new field. A cap of 0 is no cap.
unfoldable pub reserve_spawns : (cap total reserved to_spawn : ℕ) → ℕ × ℕ
reserve_spawns cap total reserved to_spawn =
    if to_spawn == 0
    then (0, reserved)
    else let granted = if ltb 0 cap then min to_spawn (cap - total - reserved) else to_spawn in
      (granted, reserved + granted)

unfoldable pub release_spawns : (count reserved : ℕ) → ℕ
release_spawns count reserved = if count == 0 then reserved else reserved - count

module _ (cap total reserved to_spawn : ℕ) where
  pub reserved-reserve :
      (reserve_spawns cap total reserved to_spawn).1
      ≡ reserved + (reserve_spawns cap total reserved to_spawn).0
  unfolding reserve_spawns
  reserved-reserve = ground arith

  pub granted_le : (reserve_spawns cap total reserved to_spawn).0 ≤ to_spawn
  unfolding reserve_spawns
  granted_le = ground arith

  -- Releasing what was granted, whatever was granted, puts the field back.
  pub release-reserve :
      release_spawns
        (reserve_spawns cap total reserved to_spawn).0
        (reserve_spawns cap total reserved to_spawn).1
      ≡ reserved
  unfolding release_spawns
  release-reserve = ground (arith, reserved-reserve)
