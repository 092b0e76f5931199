-- ===== src/Tests/Samples.antt =====
-- Pools, services and worlds that the tests share.
use mathlib.Core.Bool.{true≢false}
use selfhosted_runner_swarm.Prelude.{◌∙◌, ℕ, suc, ◌≡◌, ◌≢◌, refl, sym, true, false, some, [], ◌∷◌}
use selfhosted_runner_swarm.Prelude.Int.{pos}
use selfhosted_runner_swarm.Prelude.Text.{Text, codes, text_eq, text_eq_iff}
use selfhosted_runner_swarm.Config.{PoolConfig}
use selfhosted_runner_swarm.Scaler.Types.{PoolInspection, PoolState}
use selfhosted_runner_swarm.Scaler.State.{Services, Scene, returned}

abbrev pub ci_pool : PoolConfig
ci_pool = record {
  name = codes "ci";
  pat = codes "token";
  owner = codes "mechemsi";
  repo = [];
  scope = codes "organization";
  repo_discovery_ttl = pos 600;
  github_poll_interval = pos 60;
  queued_min_age = pos 0;
  instance_name = [];
  stuck_timeout = pos 8;
  repo_check_workers = pos 6;
  runner_operation_workers = pos 4;
  max_runners = pos 3;
  min_idle = pos 1;
  runner_labels = codes "self-hosted,linux,x64,docker";
  runner_image = codes "gh-runner:latest";
  memory_limit = codes "2g";
  cpu_limit = pos 150;
  work_tmpfs_size = codes "auto";
  network_mode = codes "host";
  include_public_repos = false;
  exclude_repos = [];
  job_started_hook = [];
  provider = codes "github";
  base_url = [];
}

abbrev pub personal_pool : PoolConfig
personal_pool = record ci_pool { name = codes "mine"; scope = codes "personal"; min_idle = pos 0 }

differ : (s t : Text) → text_eq s t ≡ false → s ≢ t
differ s t e q = true≢false (sym ((text_eq_iff s t).1 q) ∙ e)

-- The world is the number of runners that have been spawned.
abbrev pub services : Services ℕ
services = record {
  cleanup_exited = λ prefix w. (returned tt, w);
  running_containers = λ prefix w. (returned [], w);
  cleanup_stuck = λ prefix names timeout w. (returned tt, w);
  spawn_runner = λ pool w. (returned true, suc w);
  list_repositories = λ pool w. (returned (some (codes "site" ∷ codes "blog" ∷ [])), w);
  list_runners = λ pool w. (returned (some []), w);
  get_queued_count = λ pool w. (returned (2, []), w);
  get_queued_ages = λ pool w. (returned ([], []), w);
  deregister_runner = λ pool id w. (returned true, w);
  covers = λ name w. false;
  is_hot = λ w. false;
  queue_input = λ name ages w. (returned 0, w);
  record_runner_status = λ name runners w. w;
  record_jobs = λ name jobs w. w;
  record_snapshot = λ i w. w;
  record_deregistered = λ runner pool w. w;
}

abbrev pub digest : Text → Text
digest s = s

abbrev pub opening : Scene ℕ
opening = record {
  scaler = record {
    max_total_runners = 5;
    reserved_spawns = 2;
    repository_cache = [];
    next_poll_at = [];
    pool_counts = [];
  };
  world = 0;
}

abbrev pub active : PoolState
active = record { paused = false; draining = false }

abbrev pub repository_inspection : Text → ℕ → PoolInspection
repository_inspection repo queued = record {
  pool = record ci_pool { repo = repo };
  running = 0;
  queued = queued;
  idle = 0;
  busy = 0;
  offline_runners = [];
}

pub site_ne_blog : codes "site" ≢ codes "blog"
unfolding text_eq
site_ne_blog = differ (codes "site") (codes "blog") refl
