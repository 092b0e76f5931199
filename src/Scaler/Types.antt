-- ===== src/Scaler/Types.antt =====
-- What the scaler passes about: `RunnerInfo` of orchestrator/rorch/protocols.py, and the
-- inspection of a pool and the cache entry of orchestrator/rorch/scaler.py.
use selfhosted_runner_swarm.Prelude.{ℕ, ◌+◌, Bool, true, List}
use selfhosted_runner_swarm.Prelude.Int.{ℤ, leb_ℤ}
use selfhosted_runner_swarm.Prelude.Text.{Text}
use selfhosted_runner_swarm.Config.{PoolConfig}

pub record RunnerInfo : Type 0 where
  pub id : ℕ
  pub name : Text
  pub status : Text
  pub busy : Bool

-- `duration_seconds` is a measurement that nothing decides by, and is left out.
pub record PoolInspection : Type 0 where
  pub pool : PoolConfig
  pub running : ℕ
  pub queued : ℕ
  pub idle : ℕ
  pub busy : ℕ
  pub offline_runners : List RunnerInfo

unfoldable pub online : PoolInspection → ℕ
online i = i.idle + i.busy

pub record RepositoryCacheEntry : Type 0 where
  pub repositories : List Text
  pub expires_at : ℕ

-- The operator's flags for a pool (orchestrator/rorch/store.py).
pub record PoolState : Type 0 where
  pub paused : Bool
  pub draining : Bool

-- What GitHub says of one Actions job (orchestrator/rorch/protocols.py).
pub record JobInfo : Type 0 where
  pub job_id : ℕ
  pub repo : Text
  pub workflow : Text
  pub job_name : Text
  pub runner : Text
  pub status : Text
  pub conclusion : Text
  pub url : Text
  pub started_at : Text
  pub completed_at : Text

-- How long a job has been queued, in seconds; an unreadable time counts as infinitely long.
pub data Age : Type 0 where
  seconds : ℤ → Age
  forever : Age

-- `age >= bound`
abbrev pub at_least : ℤ → Age → Bool
at_least bound (seconds n) = leb_ℤ bound n
at_least bound forever = true

-- One pool's entry in `_pool_counts`.
pub record PoolCounts : Type 0 where
  pub running : ℕ
  pub busy : ℕ
  pub max_runners : ℤ
