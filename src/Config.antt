-- ===== src/Config.antt =====
-- orchestrator/rorch/config.py: a pool's settings and what is derived from them.
-- Settings that the source types as `int` are signed integers, since a bad file or an override can
-- hold a negative one; `cpu_limit`, a float, is in hundredths of a CPU.
pub mod Size
pub mod Labels
pub mod Validation
pub mod Usable
pub mod Warnings
use selfhosted_runner_swarm.Prelude.{
  Bool, not, ◌&&◌, ◌||◌, List, [], ◌∷◌, ◌++◌, map, if◌then◌else◌, keep, any,
}
use selfhosted_runner_swarm.Prelude.Int.{ℤ, pos}
use selfhosted_runner_swarm.Prelude.Text.{
  Text, codes, is, truthy, lower, strip, split, replace_char,
}

pub record PoolConfig : Type 0 where
  pub name : Text
  pub pat : Text
  pub owner : Text
  pub repo : Text
  pub scope : Text
  pub repo_discovery_ttl : ℤ
  pub github_poll_interval : ℤ
  pub queued_min_age : ℤ
  pub instance_name : Text
  pub stuck_timeout : ℤ
  pub repo_check_workers : ℤ
  pub runner_operation_workers : ℤ
  pub max_runners : ℤ
  pub min_idle : ℤ
  pub runner_labels : Text
  pub runner_image : Text
  pub memory_limit : Text
  pub cpu_limit : ℤ
  pub work_tmpfs_size : Text
  pub network_mode : Text
  pub include_public_repos : Bool
  pub exclude_repos : Text
  pub job_started_hook : Text
  pub provider : Text
  pub base_url : Text

unfoldable pub is_gitea : PoolConfig → Bool
is_gitea p = is p.provider "gitea"

unfoldable pub excluded_repo_patterns : PoolConfig → List Text
unfolding split strip
excluded_repo_patterns p = keep truthy (map strip (split b',' p.exclude_repos))

-- `fnmatch` is the glob test of Python's library.
unfoldable pub excludes_repo : (Text → Text → Bool) → PoolConfig → Text → Bool
unfolding excluded_repo_patterns
excludes_repo fnmatch p name = any (λ pattern. fnmatch name pattern) (excluded_repo_patterns p)

unfoldable pub is_personal_level : PoolConfig → Bool
is_personal_level p = not (truthy p.repo) && is p.scope "personal"

unfoldable pub is_org_level : PoolConfig → Bool
unfolding is_personal_level
is_org_level p = not (truthy p.repo) && not (is_personal_level p)

unfoldable pub display : PoolConfig → Text
unfolding is_personal_level is_org_level
display p =
    if is_personal_level p
    then p.owner ++ codes " [personal: all repos]"
    else if is_org_level p
    then p.owner ++ codes " [org]"
    else p.owner ++ (codes "/" ++ p.repo)

unfoldable pub container_prefix : PoolConfig → Text
unfolding lower replace_char
container_prefix p =
    let safe = replace_char b'/' b'-' (replace_char b' ' b'-' (lower p.name)) in
    if truthy p.instance_name
    then codes "gh-runner-" ++ (p.instance_name ++ (codes "-" ++ safe))
    else codes "gh-runner-" ++ safe

unfoldable pub api_runners_path : PoolConfig → Text
api_runners_path p =
    if truthy p.repo
    then codes "/repos/" ++ (p.owner ++ (codes "/" ++ (p.repo ++ codes "/actions/runners")))
    else codes "/orgs/" ++ (p.owner ++ codes "/actions/runners")

unfoldable pub registration_url : PoolConfig → Text
registration_url p =
    if truthy p.repo
    then codes "https://github.com/" ++ (p.owner ++ (codes "/" ++ p.repo))
    else codes "https://github.com/" ++ p.owner

unfoldable pub for_repository : PoolConfig → Text → PoolConfig
for_repository p repo = record p {
  name = p.name ++ (codes "-" ++ repo);
  repo = repo;
  scope = codes "repository";
  min_idle = pos 0;
}
