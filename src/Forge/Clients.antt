-- ===== src/Forge/Clients.antt =====
-- One client for each server: `GiteaClient` and `ForgeClients` of
-- orchestrator/rorch/gitea_client.py.
use selfhosted_runner_swarm.Forge.Methods
use mathlib.Core.List.{reverse}
use selfhosted_runner_swarm.Prelude.{
  ℕ, Bool, Option, none, some, List, [], ◌∷◌, ◌++◌, if◌then◌else◌, ◌==◌,
}
use selfhosted_runner_swarm.Prelude.Text.{Text, codes, truthy}
use selfhosted_runner_swarm.Prelude.Text.Parts.{replace_text}
use selfhosted_runner_swarm.Prelude.Dict.{Dict, get, put, text_key}
use selfhosted_runner_swarm.Config.{PoolConfig, api_runners_path, is_gitea}
use selfhosted_runner_swarm.Scaler.Types.{JobInfo, RunnerInfo, Age}
use selfhosted_runner_swarm.Forge.Action.{Action, pure, ◌>>=◌}
use selfhosted_runner_swarm.Forge.Client.{Client, http_post, Answer, nothing, deleted, body}
use selfhosted_runner_swarm.Forge.Payload.{
  Body, runs, jobs, repositories, repository, runner_list, registration_token, object, scalar,
}
use selfhosted_runner_swarm.Forge.Request.{Network}
use selfhosted_runner_swarm.Forge.Scan.{QueueScan}
use selfhosted_runner_swarm.Forge.Methods.{Server}

abbrev pub github_server : Server
github_server = record {
  api_base = codes "https://api.github.com";
  repo_page_size = 100;
  write_path = λ path. path;
}

drop_slashes : Text → Text
drop_slashes [] = []
drop_slashes (c ∷ s) = if c == b'/' then drop_slashes s else c ∷ s

-- `base_url.rstrip("/")`
unfoldable pub rstrip_slashes : Text → Text
unfolding drop_slashes
rstrip_slashes s = reverse (drop_slashes (reverse s))

abbrev pub gitea_server : Text → Server
gitea_server base_url = record {
  api_base = rstrip_slashes base_url ++ codes "/api/v1";
  repo_page_size = 50;
  write_path = λ path. replace_text (codes "per_page=") (codes "limit=") path;
}

unfoldable pub server_of : PoolConfig → Server
unfolding is_gitea
server_of pool = if is_gitea pool then gitea_server pool.base_url else github_server

-- A client that was just made, with the default reserve.
abbrev pub new_client : Client Body
new_client = record {
  rate_limit_reserve = 100;
  blocked_until = [];
  secondary_failures = [];
  conditional_cache = [];
  shared_scans = [];
  last_mutation_at = 0;
  last_remaining = none;
  last_reset_at = none;
  blocked_until_any = 0;
}

-- A Gitea client stands under its base URL.
pub record ForgeClients : Type 0 where
  pub github : Client Body
  pub gitea : Dict Text (Client Body)

unfoldable pub client_of : PoolConfig → ForgeClients → Client Body
unfolding get is_gitea
client_of pool f =
    if is_gitea pool
    then elim (get pool.base_url f.gitea) [ none ↦ new_client | some c ↦ c ]
    else f.github

-- What a method has made of the client.
unfoldable pub set_client : PoolConfig → Client Body → ForgeClients → ForgeClients
unfolding put is_gitea
set_client pool c f =
    if is_gitea pool
    then record f { gitea = put pool.base_url c f.gitea }
    else record f { github = c }

abbrev pub token_in : Answer Body → Option Text
token_in nothing = none
token_in (deleted ok) = none
token_in (body (registration_token none)) = none
token_in (body (registration_token (some t))) = if truthy t then some t else none
token_in (body (runs rs)) = none
token_in (body (jobs js)) = none
token_in (body (repositories rs)) = none
token_in (body (repository p)) = none
token_in (body (runner_list rs)) = none
token_in (body object) = none
token_in (body scalar) = none

module _ {W : Type 0} (net : Network W Body) (monotonic : W → ℕ) (digest : Text → Text)
    (fnmatch : Text → Text → Bool) (fuel : ℕ) where
  -- A call of the method on the pool's own client.
  unfoldable pub on_own :
      {A : Type 0} → PoolConfig → Action (Client Body × W) A → Action (ForgeClients × W) A
  unfolding client_of set_client
  on_own pool m (f, w) =
      let (outcome, s) = m (client_of pool f, w) in (outcome, (set_client pool s.0 f, s.1))

  abbrev pub body_from : PoolConfig → Text → Text → Action (Client Body × W) (Option Body)
  body_from pool = Methods.get_body net monotonic digest (server_of pool)

  unfoldable pub list_repositories :
      PoolConfig → Action (ForgeClients × W) (Option (Option (List Text)))
  unfolding on_own server_of Methods.list_repositories Methods.get_body
  list_repositories pool =
      on_own pool (
        Methods.list_repositories (body_from pool) fnmatch (server_of pool).repo_page_size fuel
          pool)

  unfoldable pub is_public_repo : PoolConfig → Action (ForgeClients × W) (Option Bool)
  unfolding on_own server_of Methods.is_public_repo Methods.get_body
  is_public_repo pool =
      on_own pool
        (Methods.is_public_repo (body_from pool) fnmatch (server_of pool).repo_page_size pool)

  -- `get_queued_count` and `get_queued_ages` give the parts of this result.
  unfoldable pub scan_queue :
      PoolConfig → Action (ForgeClients × W) (Option (QueueScan × List JobInfo))
  unfolding on_own server_of Methods.scan_queue Methods.get_body Methods.get_shared
  scan_queue pool = on_own pool (
      Methods.scan_queue (body_from pool) fnmatch (server_of pool).repo_page_size
        (Methods.get_shared net monotonic digest (server_of pool)) (λ s. net.clock s.1) fuel pool)

  unfoldable pub get_queued_count :
      PoolConfig → Action (ForgeClients × W) (Option (ℕ × List JobInfo))
  unfolding scan_queue
  get_queued_count pool = do
    found ← scan_queue pool
    pure (elim found [ none ↦ none | some (scan, infos) ↦ some (scan.queued, infos) ])

  unfoldable pub get_queued_ages :
      PoolConfig → Action (ForgeClients × W) (Option (List Age × List JobInfo))
  unfolding scan_queue
  get_queued_ages pool = do
    found ← scan_queue pool
    pure (elim found [ none ↦ none | some (scan, infos) ↦ some (scan.ages, infos) ])

  unfoldable pub list_runners : PoolConfig → Action (ForgeClients × W) (Option (List RunnerInfo))
  unfolding on_own server_of Methods.list_runners Methods.get_body
  list_runners pool =
      on_own pool
        (Methods.list_runners (body_from pool) fnmatch (server_of pool).repo_page_size pool)

  unfoldable pub deregister_runner : PoolConfig → ℕ → Action (ForgeClients × W) Bool
  unfolding on_own server_of Methods.deregister_runner
  deregister_runner pool id =
      on_own pool (Methods.deregister_runner net monotonic digest (server_of pool) pool id)

  -- `GiteaClient.registration_token`
  unfoldable pub registration : PoolConfig → Action (Client Body × W) (Option Text)
  unfolding Methods.ask api_runners_path
  registration pool = do
    answer ←
        Methods.ask net monotonic digest (gitea_server pool.base_url) pool.pat
          (api_runners_path pool ++ codes "/registration-token") http_post
    pure (token_in answer)

  -- `ForgeClients.registration_token`, which is called for a pool of Gitea
  unfoldable pub registration_token_for : PoolConfig → Action (ForgeClients × W) (Option Text)
  unfolding on_own registration
  registration_token_for pool = on_own pool (registration pool)
