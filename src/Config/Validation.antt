-- ===== src/Config/Validation.antt =====
-- `validation_errors` of orchestrator/rorch/config.py. A message is the pool that it names and a
-- constructor for its text.
use selfhosted_runner_swarm.Prelude.{
  ℕ, ◌==◌, map, Bool, true, false, not, ◌&&◌, ◌||◌, List, [], ◌∷◌, ◌++◌, if◌then◌else◌, all,
  concat_map, leb, Option, none, some,
}
use selfhosted_runner_swarm.Prelude.Int.{ℤ, pos, negsuc, in_range}
use selfhosted_runner_swarm.Prelude.Text.{Text, codes, is, truthy, starts_with}
use selfhosted_runner_swarm.Config.{PoolConfig, is_gitea}
use selfhosted_runner_swarm.Config.Size.{parse_size, work_tmpfs_enabled, effective_work_tmpfs_size}

pub data Problem : Type 0 where
  pat_missing owner_missing unsupported_provider gitea_without_url url_without_gitea : Problem
  unsupported_scope personal_with_repo repository_without_repo : Problem
  negative_ttl bad_poll_interval bad_min_age bad_instance bad_stuck_timeout : Problem
  bad_check_workers bad_operation_workers negative_max negative_min_idle : Problem
  bad_network_mode bad_tmpfs_size bad_hook_path : Problem

-- A run of `if test: errors.append(message)`: the messages whose tests hold, in order.
unfoldable pub report : List (Bool × Problem) → List Problem
report [] = []
report ((test, problem) ∷ rest) = if test then problem ∷ report rest else report rest

abbrev pub is_negative : ℤ → Bool
is_negative (pos n) = false
is_negative (negsuc n) = true

abbrev pub is_zero : ℤ → Bool
is_zero (pos n) = n == 0
is_zero (negsuc n) = false

-- `[a-z0-9]`
abbrev pub is_lower_alnum : ℕ → Bool
is_lower_alnum c = (leb b'a' c && leb c b'z') || (leb b'0' c && leb c b'9')

abbrev pub is_none {ℓ} : {A : Type ℓ} → Option A → Bool
is_none none = true
is_none (some a) = false

abbrev pub is_url : Text → Bool
is_url s = starts_with s (codes "http://") || starts_with s (codes "https://")

-- The tests on the settings that name a pool's forge and its scope.
unfoldable pub identity_tests : PoolConfig → List (Bool × Problem)
unfolding is_gitea
identity_tests p =
    (not (truthy p.pat) || starts_with p.pat (codes "${"), pat_missing)
    ∷ (not (truthy p.owner), owner_missing)
    ∷ (not (is p.provider "github" || is p.provider "gitea"), unsupported_provider)
    ∷ (is_gitea p && not (is_url p.base_url), gitea_without_url)
    ∷ (is p.provider "github" && truthy p.base_url, url_without_gitea)
    ∷ (
      not (is p.scope "organization" || (is p.scope "personal" || is p.scope "repository")),
      unsupported_scope,
    )
    ∷ (is p.scope "personal" && truthy p.repo, personal_with_repo)
    ∷ (is p.scope "repository" && not (truthy p.repo), repository_without_repo)
    ∷ []

-- The tests on the numbers, and on the instance's name among them.
unfoldable pub number_tests : PoolConfig → List (Bool × Problem)
number_tests p =
    (is_negative p.repo_discovery_ttl, negative_ttl)
    ∷ (
      not (is_zero p.github_poll_interval) && not (in_range 15 3600 p.github_poll_interval),
      bad_poll_interval,
    )
    ∷ (not (in_range 0 86400 p.queued_min_age), bad_min_age)
    ∷ (truthy p.instance_name && not (all is_lower_alnum p.instance_name), bad_instance)
    ∷ (not (in_range 1 1440 p.stuck_timeout), bad_stuck_timeout)
    ∷ (not (in_range 1 32 p.repo_check_workers), bad_check_workers)
    ∷ (not (in_range 1 16 p.runner_operation_workers), bad_operation_workers)
    ∷ (is_negative p.max_runners, negative_max)
    ∷ (is_negative p.min_idle, negative_min_idle)
    ∷ []

-- The tests on the container's own settings.
unfoldable pub container_tests : PoolConfig → List (Bool × Problem)
container_tests p =
    (not (is p.network_mode "host" || is p.network_mode "bridge"), bad_network_mode)
    ∷ (work_tmpfs_enabled p && is_none (parse_size (effective_work_tmpfs_size p)), bad_tmpfs_size)
    ∷ (truthy p.job_started_hook && not (starts_with p.job_started_hook (codes "/")), bad_hook_path)
    ∷ []

unfoldable pub pool_problems : PoolConfig → List Problem
unfolding report identity_tests number_tests container_tests
pool_problems p =
    report (identity_tests p) ++ (report (number_tests p) ++ report (container_tests p))

unfoldable pub validation_errors : List PoolConfig → List (Text × Problem)
unfolding pool_problems
validation_errors pools =
    concat_map (λ p. map (λ problem. (p.name, problem)) (pool_problems p)) pools
