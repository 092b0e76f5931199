-- ===== src/Forge/Methods.antt =====
-- The methods of `GitHubClient` (orchestrator/rorch/github_client.py) that the scaler calls, over
-- one request after another. What tells the forges apart is a record: the server's root, the size
-- of a full page of repositories, and how a path is written (orchestrator/rorch/gitea_client.py).
-- `_pool_repositories` of an organization reads one page, as the source does.
use selfhosted_runner_swarm.Prelude.{
  ℕ, zero, suc, ◌+◌, Bool, false, not, ◌&&◌, ◌||◌, Option, none, some, List, [], ◌∷◌, ◌++◌, map,
  if◌then◌else◌, ltb, length,
}
use selfhosted_runner_swarm.Prelude.Sort.{sorted, text_leb}
use selfhosted_runner_swarm.Prelude.Text.{Text, codes, lower, show, text_eq, truthy}
use selfhosted_runner_swarm.Prelude.Dict.{Dict, get, put, member, text_key}
use selfhosted_runner_swarm.Config.{PoolConfig, api_runners_path, excludes_repo, is_personal_level}
use selfhosted_runner_swarm.Scaler.Types.{JobInfo, RunnerInfo}
use selfhosted_runner_swarm.Scaler.State.{returned}
use selfhosted_runner_swarm.Forge.Action.{Action, pure, ◌>>=◌}
use selfhosted_runner_swarm.Forge.Client.{
  RequestKey, request_key_key, Client, Verb, http_get, http_delete, Answer, nothing, deleted, body,
}
use selfhosted_runner_swarm.Forge.Payload.{
  Body, Repository, RunnerEntry, repository, repository_list, runners_of, runs, jobs, repositories,
  runner_list, registration_token, object, scalar,
}
use selfhosted_runner_swarm.Forge.Request.{Network, request}
use selfhosted_runner_swarm.Forge.Scan.{QueueScan, empty_scan, failed_scan, scan_repo, scan_repos}

abbrev pub shared_scan_seconds : ℕ
shared_scan_seconds = 10

abbrev pub max_shared_scan_entries : ℕ
max_shared_scan_entries = 512

-- One forge: `API_BASE`, `REPO_PAGE_SIZE`, and what `_request` makes of a path.
pub record Server : Type 0 where
  pub api_base : Text
  pub repo_page_size : ℕ
  pub write_path : Text → Text

abbrev pub Scans : Type 0
Scans = Dict RequestKey (ℕ × Body)

-- `_drop_stale_scans`
unfoldable pub drop_stale_scans : ℕ → Scans → Scans
drop_stale_scans now [] = []
drop_stale_scans now ((key, (at, b)) ∷ rest) =
    let others = drop_stale_scans now rest in
    if ltb now (at + shared_scan_seconds) then (key, (at, b)) ∷ others else others

unfoldable pub keep_scan : RequestKey → ℕ → Body → Client Body → Client Body
unfolding drop_stale_scans put
keep_scan key now b c =
    let scans = put key (now, b) c.shared_scans in
    if ltb max_shared_scan_entries (length scans)
    then record c { shared_scans = drop_stale_scans now scans }
    else record c { shared_scans = scans }

-- A scan that is young enough.
unfoldable pub fresh_scan : RequestKey → ℕ → Client Body → Option Body
unfolding get
fresh_scan key now c = elim (get key c.shared_scans) [
  | none ↦ none
  | some (at, b) ↦ if ltb now (at + shared_scan_seconds) then some b else none
]

abbrev pub body_of : Answer Body → Option Body
body_of nothing = none
body_of (deleted ok) = none
body_of (body b) = some b

abbrev pub was_deleted : Answer Body → Bool
was_deleted nothing = false
was_deleted (deleted ok) = ok
was_deleted (body b) = false

-- What `list_repositories` keeps of an entry.
unfoldable pub eligible : (Text → Text → Bool) → PoolConfig → Repository → Bool
unfolding lower excludes_repo
eligible fnmatch pool r =
    text_eq (lower r.owner) (lower pool.owner)
    && (truthy r.name
        && (not (r.archived || r.disabled)
            && ((r.private || pool.include_public_repos)
                && not (excludes_repo fnmatch pool r.name))))

-- `set.add`
abbrev pub add_name : Text → List Text → List Text
add_name name names = if member name names then names else name ∷ names

unfoldable pub add_eligible :
    (Text → Text → Bool) → PoolConfig → List Repository → List Text → List Text
unfolding eligible member
add_eligible fnmatch pool [] names = names
add_eligible fnmatch pool (r ∷ rest) names =
    add_eligible fnmatch pool rest
      (if eligible fnmatch pool r then add_name r.name names else names)

abbrev pub repos_path : ℕ → ℕ → Text
repos_path size page =
    codes "/user/repos?affiliation=owner&visibility=all&per_page="
    ++ (show size ++ (codes "&page=" ++ show page))

-- `list_runners` on the entries of the list
unfoldable pub runner_infos : List (Option RunnerEntry) → List RunnerInfo
runner_infos [] = []
runner_infos (none ∷ rest) = runner_infos rest
runner_infos (some e ∷ rest) =
    let others = runner_infos rest in
    elim e.id [
      | none ↦ others
      | some id ↦ elim e.name [
        | none ↦ others
        | some name ↦
            record {
              id = id;
              name = name;
              status = elim e.status [ none ↦ codes "unknown" | some status ↦ status ];
              busy = e.busy;
            }
            ∷ others
      ]
    ]

abbrev pub page_of : Option Body → Option (List Repository)
page_of none = none
page_of (some b) = repository_list b

-- `data["private"]` where the data are an object that has it; only a repository has.
unfoldable pub is_public : Option Body → Option Bool
is_public none = none
is_public (some (repository none)) = none
is_public (some (repository (some private))) = some (not private)
is_public (some (runs rs)) = none
is_public (some (jobs js)) = none
is_public (some (repositories rs)) = none
is_public (some (runner_list rs)) = none
is_public (some (registration_token t)) = none
is_public (some object) = none
is_public (some scalar) = none

abbrev pub entries_of : Option Body → Option (List (Option RunnerEntry))
entries_of none = none
entries_of (some b) = runners_of b

module _ {S : Type 0} (get_body : Text → Text → Action S (Option Body))
    (fnmatch : Text → Text → Bool) (size : ℕ) where
  -- The loop of `list_repositories`: the first result is `none` where the fuel ran out, the second
  -- where a page is no list.
  unfoldable pub list_pages :
      ℕ → PoolConfig → ℕ → List Text → Action S (Option (Option (List Text)))
  unfolding add_eligible repository_list sorted text_leb
  list_pages zero pool page names = pure none
  list_pages (suc fuel) pool page names = do
    answer ← get_body pool.pat (repos_path size page)
    elim (page_of answer) [
      | none ↦ pure (some none)
      | some rs ↦
          let names' = add_eligible fnmatch pool rs names in
          let more = list_pages fuel pool (page + 1) names' in
          if ltb (length rs) size then pure (some (some (sorted text_leb names'))) else more
    ]

  unfoldable pub list_repositories : ℕ → PoolConfig → Action S (Option (Option (List Text)))
  unfolding list_pages
  list_repositories fuel pool = list_pages fuel pool 1 []

  unfoldable pub is_public_repo : PoolConfig → Action S (Option Bool)
  unfolding is_public
  is_public_repo pool =
      if truthy pool.repo
      then (do
        answer ← get_body pool.pat (codes "/repos/" ++ (pool.owner ++ (codes "/" ++ pool.repo)))
        pure (is_public answer))
      else pure none

  unfoldable pub pool_repositories : ℕ → PoolConfig → Action S (Option (Option (List Text)))
  unfolding list_repositories is_personal_level repository_list
  pool_repositories fuel pool = if is_personal_level pool then list_repositories fuel pool else (do
    answer ←
        get_body pool.pat (codes "/orgs/" ++ (pool.owner ++ codes "/repos?per_page=100&type=all"))
    elim (page_of answer) [
      | none ↦ pure (some none)
      | some rs ↦ pure (some (some (map (λ r. r.name) rs)))
    ])

  unfoldable pub list_runners : PoolConfig → Action S (Option (List RunnerInfo))
  unfolding runner_infos api_runners_path runners_of
  list_runners pool = do
    answer ← get_body pool.pat (api_runners_path pool)
    elim (entries_of answer) [ none ↦ pure none | some es ↦ pure (some (runner_infos es)) ]

  module _ (get_shared : Text → Text → Action S (Option Body)) (clock : S → ℕ) where
    -- `_scan_queue`, `none` where the fuel of a listing ran out
    unfoldable pub scan_queue : ℕ → PoolConfig → Action S (Option (QueueScan × List JobInfo))
    unfolding scan_repo scan_repos pool_repositories
    scan_queue fuel pool =
        if truthy pool.repo
        then (do found ← scan_repo get_shared clock pool pool.repo; pure (some found))
        else (do
          listed ← pool_repositories fuel pool
          elim listed [
            | none ↦ pure none
            | some none ↦ pure (some (failed_scan, []))
            | some (some repos) ↦ (do
              found ← scan_repos get_shared clock pool repos empty_scan
              pure (some found))
          ])

module _ {W : Type 0} (net : Network W Body) (monotonic : W → ℕ) (digest : Text → Text)
    (server : Server) where
  abbrev pub State : Type 0
  State = Client Body × W

  -- `_request`, with the override of `GiteaClient`
  unfoldable pub ask : Text → Text → Verb → Action State (Answer Body)
  unfolding request
  ask pat path verb s = request net digest server.api_base pat (server.write_path path) verb s

  unfoldable pub get_body : Text → Text → Action State (Option Body)
  unfolding ask
  get_body pat path = do answer ← ask pat path http_get; pure (body_of answer)

  -- `_get_shared`, by a thread that holds the lock of the path
  unfoldable pub get_shared : Text → Text → Action State (Option Body)
  unfolding get_body keep_scan fresh_scan
  get_shared pat path (c, w) =
      let key : RequestKey = record { token = digest pat; path = path } in
      let now = monotonic w in
      elim (fresh_scan key now c) [
        | some b ↦ (returned (some b), (c, w))
        | none ↦
            ((do
              answer ← get_body pat path
              (λ s. elim answer [
                | none ↦ (returned none, s)
                | some b ↦ (returned (some b), (keep_scan key now b s.0, s.1))
              ])))
              (c, w)
      ]

  unfoldable pub deregister_runner : PoolConfig → ℕ → Action State Bool
  unfolding ask api_runners_path
  deregister_runner pool id = do
    answer ← ask pool.pat (api_runners_path pool ++ (codes "/" ++ show id)) http_delete
    pure (was_deleted answer)
