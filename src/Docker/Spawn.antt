-- ===== src/Docker/Spawn.antt =====
-- `spawn_runner` of orchestrator/rorch/docker_client.py. The eight hexadecimal digits of the new
-- name, how a limit on processors is printed, and the Gitea registration token (where there is one)
-- are arguments.
pub mod Command
use selfhosted_runner_swarm.Prelude.{
  ℕ, zero, suc, ◌==◌, Bool, true, false, Option, none, some, List, [], ◌∷◌, ◌++◌, if◌then◌else◌,
  concat_map,
}
use selfhosted_runner_swarm.Prelude.Int.{ℤ, pos, ltb_ℤ}
use selfhosted_runner_swarm.Prelude.Text.{Text, codes, truthy, show}
use selfhosted_runner_swarm.Config.{PoolConfig, is_gitea, container_prefix, display}
use selfhosted_runner_swarm.Config.Size.{work_tmpfs_enabled, effective_work_tmpfs_size}
use selfhosted_runner_swarm.Docker.{Docker, Event, event_spawn, event_spawn_failed, exec}
use selfhosted_runner_swarm.Docker.Names.{expand_image}
use selfhosted_runner_swarm.Docker.Image.{Step, RetryTimes, ensure_image}

abbrev cache_mounts : List (Text × Text)
cache_mounts =
    (codes "cache", codes "/home/runner/.cache")
    ∷ (codes "npm", codes "/home/runner/.npm")
    ∷ (codes "composer", codes "/home/runner/.composer")
    ∷ (codes "nuget", codes "/home/runner/.nuget")
    ∷ []

abbrev tool_cache : Text
tool_cache = codes "/opt/hostedtoolcache"

-- `-e NAME=value`
abbrev env : Text → Text → List Text
env name value = codes "-e" ∷ (name ++ (codes "=" ++ value)) ∷ []

unfoldable pub base_arguments : PoolConfig → Text → List Text
base_arguments pool name =
    codes "run"
    ∷ codes "-d"
    ∷ codes "--name"
    ∷ name
    ∷ codes "--restart"
    ∷ codes "no"
    ∷ codes "--network"
    ∷ pool.network_mode
    ∷ codes "--memory"
    ∷ pool.memory_limit
    ∷ codes "--memory-swap"
    ∷ pool.memory_limit
    ∷ codes "--pids-limit"
    ∷ codes "512"
    ∷ codes "-v"
    ∷ codes "/var/run/docker.sock:/var/run/docker.sock"
    ∷ codes "-v"
    ∷ (tool_cache ++ (codes ":" ++ tool_cache))
    ∷ []

unfoldable pub mount_arguments : PoolConfig → List Text
unfolding container_prefix
mount_arguments pool =
    concat_map
      (λ m.
        codes "-v"
        ∷ (codes "/opt/runner-cache/"
            ++ (container_prefix pool ++ (codes "/" ++ (m.0 ++ (codes ":" ++ m.1)))))
        ∷ [])
      cache_mounts

unfoldable pub tmpfs_arguments : PoolConfig → List Text
unfolding work_tmpfs_enabled effective_work_tmpfs_size
tmpfs_arguments pool =
    if work_tmpfs_enabled pool
    then codes "--tmpfs"
      ∷ (codes "/home/runner/actions-runner/_work:rw,exec,size="
          ++ (effective_work_tmpfs_size pool ++ codes ",uid=1000,gid=1000"))
      ∷ []
    else []

unfoldable pub runner_arguments : PoolConfig → Text → List Text
runner_arguments pool name =
    env (codes "GITHUB_OWNER") pool.owner
    ++ (env (codes "GITHUB_REPO") pool.repo
        ++ (env (codes "RUNNER_NAME") name
            ++ (env (codes "RUNNER_LABELS") pool.runner_labels
                ++ (env (codes "RUNNER_TOOL_CACHE") tool_cache
                    ++ env (codes "AGENT_TOOLSDIRECTORY") tool_cache))))

unfoldable pub hook_arguments : PoolConfig → List Text
hook_arguments pool =
    if truthy pool.job_started_hook
    then codes "--mount"
      ∷ (codes "type=bind,src="
          ++ (pool.job_started_hook ++ codes ",dst=/opt/rorch/job-started-hook.sh,readonly"))
      ∷ env (codes "ACTIONS_RUNNER_HOOK_JOB_STARTED") (codes "/opt/rorch/job-started-hook.sh")
    else []

-- The forge's credentials; none where a Gitea pool has no registration token.
unfoldable pub provider_arguments : PoolConfig → Text → Option (List Text)
unfolding is_gitea
provider_arguments pool token =
    if is_gitea pool
    then (if truthy token
        then some (
            env (codes "RORCH_PROVIDER") (codes "gitea")
            ++ (env (codes "GITEA_URL") pool.base_url
                ++ env (codes "GITEA_RUNNER_REGISTRATION_TOKEN") token))
        else none)
    else some (env (codes "GITHUB_PAT") pool.pat)

module _ (print_cpus : ℤ → Text) where
  unfoldable pub cpu_arguments : PoolConfig → List Text
  cpu_arguments pool =
      if ltb_ℤ (pos 0) pool.cpu_limit then codes "--cpus" ∷ print_cpus pool.cpu_limit ∷ [] else []

  unfoldable pub run_arguments : PoolConfig → Text → List Text → Text → List Text
  unfolding base_arguments mount_arguments tmpfs_arguments runner_arguments hook_arguments
      cpu_arguments
  run_arguments pool name provider image =
      base_arguments pool name
      ++ (mount_arguments pool
          ++ (tmpfs_arguments pool
              ++ (provider
                  ++ (runner_arguments pool name
                      ++ (hook_arguments pool ++ (cpu_arguments pool ++ image ∷ []))))))

  module _ {W : Type 0} (d : Docker W) (version : Text) (gid : ℕ) (has_context : Bool) where
    abbrev failure : PoolConfig → Text → Text → Event
    failure pool name reason = record {
      kind = event_spawn_failed;
      container = name;
      pool = pool.name;
      reason = reason;
    }

    unfoldable pub new_name : PoolConfig → Text → Text
    unfolding container_prefix
    new_name pool uid = container_prefix pool ++ (codes "-" ++ uid)

    -- `docker run`, and the event of its outcome
    unfoldable pub start : PoolConfig → Text → List Text → Step W Bool
    unfolding exec display show
    start pool name args (retry_at, w) =
        let (code, after) = exec d args w in
        if code == 0
        then (
          true,
          (
            retry_at,
            d.record_event
                (record {
                  kind = event_spawn;
                  container = name;
                  pool = pool.name;
                  reason = display pool;
                })
                after,
          ),
        )
        else (
          false,
          (
            retry_at,
            d.record_event (failure pool name (codes "docker run exit " ++ show code)) after,
          ),
        )

    unfoldable pub launch : PoolConfig → Text → Text → Option (List Text) → Step W Bool
    unfolding run_arguments start
    launch pool name image none (retry_at, w) = (
      false,
      (retry_at, d.record_event (failure pool [] (codes "no Gitea registration token")) w),
    )
    launch pool name image (some provider) (retry_at, w) =
        start pool name (run_arguments pool name provider image) (retry_at, w)

    unfoldable pub spawn_runner : (W → ℕ) → Text → Text → PoolConfig → Step W Bool
    unfolding expand_image ensure_image new_name provider_arguments launch
    spawn_runner clock uid token pool (retry_at, w) =
        let image = expand_image version pool.runner_image in
        let (ready, (retry_at', w')) =
          ensure_image d clock version gid has_context image (retry_at, w) in
        if ready
        then launch pool (new_name pool uid) image (provider_arguments pool token) (retry_at', w')
        else (
          false,
          (
            retry_at',
            d.record_event (failure pool [] (codes "image " ++ (image ++ codes " unusable"))) w',
          ),
        )
