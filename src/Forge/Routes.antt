-- ===== src/Forge/Routes.antt =====
-- Where a pool's token goes: the URLs that the methods of `ForgeClients`
-- (orchestrator/rorch/gitea_client.py) open for a pool.
pub mod Rules
pub mod Scans
pub mod Listings
use selfhosted_runner_swarm.Forge.Methods
use selfhosted_runner_swarm.Forge.Clients
use selfhosted_runner_swarm.Prelude.{
  ℕ, zero, suc, ◌+◌, ◌≡◌, ◌⊎◌, inl, inr, refl, Bool, true, false, Option, none, some, List, ◌∷◌,
  ◌++◌, if◌then◌else◌, ltb, length, map, Bool-cases,
}
use selfhosted_runner_swarm.Prelude.Text.{Text, codes, is, truthy}
use selfhosted_runner_swarm.Prelude.Sort.{sorted, text_leb}
use selfhosted_runner_swarm.Prelude.Dict.{member, number_key}
use selfhosted_runner_swarm.Config.{PoolConfig, is_gitea, is_personal_level}
use selfhosted_runner_swarm.Scaler.Types.{JobInfo, RunnerInfo}
use selfhosted_runner_swarm.Scaler.State.{raised}
use selfhosted_runner_swarm.Forge.Action.{Action, pure, expect, go_on}
use selfhosted_runner_swarm.Forge.Client.{
  Client, RequestKey, Verb, http_get, http_post, Answer, mutation_pause, note_mutation,
}
use selfhosted_runner_swarm.Forge.Payload.{
  Body, Run, Repository, RunnerEntry, workflow_runs, listed_jobs,
}
use selfhosted_runner_swarm.Forge.Request.{
  Network, Cached, begin, send, pause, etag_of, request, unless_blocked,
}
use selfhosted_runner_swarm.Forge.Scan.{
  QueueScan, empty_scan, failed_scan, Walk, with_jobs, scan_run, walk_runs, with_runs,
  walk_statuses, scan_repo, scan_repos, note_run, add_scans, runs_path, jobs_path,
  active_run_statuses, start_walk,
}
use selfhosted_runner_swarm.Forge.Methods.{Server, add_eligible, page_of, entries_of, repos_path}
use selfhosted_runner_swarm.Forge.Clients.{ForgeClients, rstrip_slashes, server_of, gitea_server}
use selfhosted_runner_swarm.Forge.Routes.Rules.{Keeps, Keeps-bind, Keeps-if, Keeps-expect}
use selfhosted_runner_swarm.Forge.Routes.Listings.{Keeps-pool_repositories}

-- A predicate on the world outside that holds, whatever is asked of the pool's server with the
-- pool's token.
module _ {W : Type 0} (net : Network W Body) (monotonic : W → ℕ) (digest : Text → Text)
    (server : Server) (pat : Text) (Q : W → Type 0)
    (sent : (path : Text) (verb : Verb) (etag : Option Text) (w : W)
      → Q w
      → Q (net.exchange (server.api_base ++ path) pat verb etag w).1)
    (slept : (n : ℕ) (w : W) → Q w → Q (net.sleep n w)) where
  abbrev Outside : Client Body × W → Type 0
  Outside s = Q s.1

  pause-Outside : (n : ℕ) (w : W) → Q w → Q (pause net n w)
  pause-Outside zero w q = q
  pause-Outside (suc n) w q = slept (suc n) w q

  Keeps-ask :
      (path : Text) (verb : Verb)
      → Keeps Outside (Methods.ask net monotonic digest server pat path verb)
  unfolding Methods.ask request send
  Keeps-ask path verb (c, w) q = by_start (begin key verb (net.clock w) c)
    where
      key : RequestKey
      key = record { token = digest pat; path = server.write_path path }

      by_start :
          (b : (Option ℕ × Cached Body) × Client Body)
          → Outside
              (unless_blocked net
                (send net (server.api_base ++ server.write_path path) pat key verb)
                w
                b).1
      by_start ((none, cached), c') =
          sent (server.write_path path) verb (etag_of cached) _
            (pause-Outside (mutation_pause verb (net.clock w) c') w q)
      by_start ((some blocked, cached), c') = q

  Keeps-get_body :
      (path : Text) → Keeps Outside (Methods.get_body net monotonic digest server pat path)
  unfolding Methods.get_body
  Keeps-get_body path =
      Keeps-bind Outside (Methods.ask net monotonic digest server pat path http_get) _
        (Keeps-ask path http_get) (λ answer s q. q)

-- The root of the API of the forge that the pool belongs to.
abbrev pub home : PoolConfig → Text
home pool =
    if is pool.provider "gitea"
    then rstrip_slashes pool.base_url ++ codes "/api/v1"
    else codes "https://api.github.com"

server_of-home : (pool : PoolConfig) → (server_of pool).api_base ≡ home pool
unfolding server_of is_gitea
server_of-home pool = elim (Bool-cases (is pool.provider "gitea")) [
  | inl e ↦ rw e refl
  | inr e ↦ rw e refl
]

-- The methods of `ForgeClients` for one pool.
module _ {W : Type 0} (net : Network W Body) (monotonic : W → ℕ) (digest : Text → Text)
    (fnmatch : Text → Text → Bool) (fuel : ℕ) (pool : PoolConfig) (Q : W → Type 0)
    (sent : (path : Text) (verb : Verb) (etag : Option Text) (w : W)
      → Q w
      → Q (net.exchange (home pool ++ path) pool.pat verb etag w).1)
    (slept : (n : ℕ) (w : W) → Q w → Q (net.sleep n w)) where
  abbrev Beyond : ForgeClients × W → Type 0
  Beyond s = Q s.1

  abbrev Within : Client Body × W → Type 0
  Within s = Q s.1

  at_home :
      (path : Text) (verb : Verb) (etag : Option Text) (w : W)
      → Q w
      → Q (net.exchange ((server_of pool).api_base ++ path) pool.pat verb etag w).1
  at_home path verb etag w q = rw (server_of-home pool) (sent path verb etag w q)

  bodies :
      (path : Text)
      → Keeps Within (Methods.get_body net monotonic digest (server_of pool) pool.pat path)
  bodies = Keeps-get_body net monotonic digest (server_of pool) pool.pat Q at_home slept
