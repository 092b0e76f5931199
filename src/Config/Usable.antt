-- ===== src/Config/Usable.antt =====
-- What validation accepts, as statements about a pool (`validation_errors` of
-- orchestrator/rorch/config.py).
pub mod Numbers
pub mod Identity
pub mod Container
pub mod Errors
use mathlib.Core.List.{append-nil}
use selfhosted_runner_swarm.Prelude.{
  ℕ, ◌≤◌, Bool, true, false, not, ◌&&◌, ◌||◌, ◌≡◌, ◌≢◌, ◌↔◌, ◌⊎◌, inl, inr, refl, List, [], ◌∷◌,
  ◌++◌, map, if◌then◌else◌, all, All, concat_map, leb, Option, none, some, arith, Bool-cases,
}
use selfhosted_runner_swarm.Prelude.Int.{ℤ, pos, negsuc, in_range}
use selfhosted_runner_swarm.Prelude.Text.{
  Text, codes, is, truthy, starts_with, text_eq, text_eq_iff,
}
use selfhosted_runner_swarm.Config.{PoolConfig, is_gitea, for_repository}
use selfhosted_runner_swarm.Config.Size.{parse_size, work_tmpfs_enabled, effective_work_tmpfs_size}
use selfhosted_runner_swarm.Config.Validation.{
  Problem, report, is_negative, is_zero, is_none, is_url, is_lower_alnum, identity_tests,
  number_tests, container_tests, pool_problems, validation_errors,
}

-- low <= a <= high
abbrev pub Within : ℕ → ℕ → ℤ → Type 0
Within low high a = (n : ℕ) × (a ≡ pos n) × (low ≤ n) × (n ≤ high)

abbrev pub Nonneg : ℤ → Type 0
Nonneg a = (n : ℕ) × (a ≡ pos n)

-- The token is there and resolved, the forge and the scope are known, and they agree with the
-- URL and the repository.
pub record IsIdentified (p : PoolConfig) : Type 0 where
  pub token : (truthy p.pat ≡ true) × (starts_with p.pat (codes "${") ≡ false)
  pub owned : truthy p.owner ≡ true
  pub forge :
      ((p.provider ≡ codes "github") × (p.base_url ≡ []))
      ⊎ ((p.provider ≡ codes "gitea") × (is_url p.base_url ≡ true))
  pub scoped :
      (p.scope ≡ codes "organization")
      ⊎ (((p.scope ≡ codes "personal") × (p.repo ≡ []))
          ⊎ ((p.scope ≡ codes "repository") × (p.repo ≢ [])))

-- Every number is in its range.
pub record IsInRange (p : PoolConfig) : Type 0 where
  pub ttl : Nonneg p.repo_discovery_ttl
  pub poll : (p.github_poll_interval ≡ pos 0) ⊎ Within 15 3600 p.github_poll_interval
  pub min_age : Within 0 86400 p.queued_min_age
  pub instance_chars : all is_lower_alnum p.instance_name ≡ true
  pub stuck : Within 1 1440 p.stuck_timeout
  pub checkers : Within 1 32 p.repo_check_workers
  pub operators : Within 1 16 p.runner_operation_workers
  pub ceiling : Nonneg p.max_runners
  pub floor : Nonneg p.min_idle

-- The network mode is known, the size of the work directory's tmpfs reads as a size when it is on,
-- and the hook's path is absolute when it is set.
pub record IsRunnable (p : PoolConfig) : Type 0 where
  pub network : (p.network_mode ≡ codes "host") ⊎ (p.network_mode ≡ codes "bridge")
  pub tmpfs :
      (work_tmpfs_enabled p ≡ false)
      ⊎ ((n : ℕ) × (parse_size (effective_work_tmpfs_size p) ≡ some n))
  pub hook : (p.job_started_hook ≡ []) ⊎ (starts_with p.job_started_hook (codes "/") ≡ true)

-- A pool whose settings the orchestrator accepts.
pub record IsUsable (p : PoolConfig) : Type 0 where
  pub identified : IsIdentified p
  pub ranged : IsInRange p
  pub runnable : IsRunnable p

pub falsy→nil : (s : Text) → truthy s ≡ false → s ≡ []
falsy→nil [] h = refl
falsy→nil (c ∷ s) h = cc

pub truthy-ne-nil : (s : Text) → truthy s ≡ true → s ≢ []
truthy-ne-nil [] h e = cc
truthy-ne-nil (c ∷ s) h e = cc

pub nil-truthy : (s : Text) → s ≢ [] → truthy s ≡ true
nil-truthy [] h = absurd (h refl)
nil-truthy (c ∷ s) h = refl

-- Every test fails.
abbrev pub AllFail : List (Bool × Problem) → Type 0
AllFail [] = Unit
AllFail ((test, problem) ∷ rest) = (test ≡ false) × AllFail rest

pub report-nil : (tests : List (Bool × Problem)) → report tests ≡ [] → AllFail tests
unfolding report
report-nil [] h = tt
report-nil ((true, problem) ∷ rest) h = cc
report-nil ((false, problem) ∷ rest) h = (refl, report-nil rest h)

pub nil-report : (tests : List (Bool × Problem)) → AllFail tests → report tests ≡ []
unfolding report
nil-report [] h = refl
nil-report ((true, problem) ∷ rest) h = cc
nil-report ((false, problem) ∷ rest) h = nil-report rest h.1
