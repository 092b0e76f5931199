-- ===== src/Tests/Listings.antt =====
-- The conditional cache, a walk over a repository, and an account of two pages.
use selfhosted_runner_swarm.Forge.Methods
use selfhosted_runner_swarm.Prelude.{
  ℕ, ◌+◌, ◌-◌, ◌*◌, ◌≡◌, inl, refl, true, false, ◌&&◌, Option, none, some, List, [], ◌∷◌,
  if◌then◌else◌, All, Distinct, any, sum_by, concat_map, arith, take, drop,
}
use selfhosted_runner_swarm.Prelude.Int.{pos}
use selfhosted_runner_swarm.Prelude.Text.{
  Text, codes, text_eq, starts_with, show, digits_value, digits_value-show,
}
use selfhosted_runner_swarm.Prelude.Dict.{get, put, remove, member, text_key}
use selfhosted_runner_swarm.Scaler.State.{returned}
use selfhosted_runner_swarm.Scaler.Types.{seconds}
use selfhosted_runner_swarm.Forge.Action.{Action}
use selfhosted_runner_swarm.Forge.Client.{
  RequestKey, ConditionalResponse, Client, Headers, absent, success, http_error, http_get,
  raise_if_blocked,
}
use selfhosted_runner_swarm.Forge.Request.{begin, finish}
use selfhosted_runner_swarm.Forge.Conditional.{
  Readers, Reach, here, next, begun, finished, full, unchanged,
}
use selfhosted_runner_swarm.Forge.Conditional.Current.{reads_what_is_there}
use selfhosted_runner_swarm.Forge.Payload.{Body, Run, Job, runs, jobs, Repository, repositories}
use selfhosted_runner_swarm.Forge.Scan.{scan_repo, active_run_statuses}
use selfhosted_runner_swarm.Forge.Scan.Runs.{distinct}
use selfhosted_runner_swarm.Forge.Scan.Once.{
  scan_repo_lem, listed, unlisted, missing, ages_in, infos_in, queued_in,
}
use selfhosted_runner_swarm.Forge.Methods.{eligible, repos_path}
use selfhosted_runner_swarm.Forge.Pages.{list_repositories_lem}
use selfhosted_runner_swarm.Tests.Samples.{ci_pool, personal_pool}
use selfhosted_runner_swarm.Tests.Forges.{quiet, key, no_match}

-- Here an ETag is the content itself.
abbrev named_by : RequestKey → Text → Text
named_by k etag = etag

abbrev tagged : Headers
tagged = record { remaining = absent; reset = absent; retry_after = absent; etag = codes "v1" }

abbrev Seers : Type 0
Seers = Readers named_by

abbrev first_of_all : Seers
first_of_all = record { client = quiet; sent = []; seen = [] }

abbrev after_asking : Seers
after_asking = record {
  client = (begin key http_get 5 quiet).1;
  sent = (key, (begin key http_get 5 quiet).0.1) ∷ [];
  seen = [];
}

abbrev cached : Client Text
cached = (finish key http_get none (success 200 tagged (some (codes "v1"))) 6 after_asking.client).1

abbrev entry : ConditionalResponse Text
entry = record { etag = codes "v1"; content = codes "v1" }

-- A read, and a second one that the forge answers by 304.
abbrev twice : Seers
twice = record {
  client =
      (finish key http_get (some entry) (http_error 304 tagged []) 8
        (begin key http_get 7 cached).1).1;
  sent = (key, (begin key http_get 7 cached).0.1) ∷ (key, (begin key http_get 5 quiet).0.1) ∷ [];
  seen = (codes "v1", codes "v1") ∷ (codes "v1", codes "v1") ∷ [];
}

read_twice : Reach named_by first_of_all twice
unfolding begin raise_if_blocked finish get put remove text_eq
read_twice =
    next
      (next
        (next (next here (begun first_of_all key http_get 5)) (
          finished after_asking key http_get none (codes "v1")
            (success 200 tagged (some (codes "v1"))) 6 (inl refl) (full 200 tagged (λ h. refl))))
        (begun
          (record {
            client = cached;
            sent = after_asking.sent;
            seen = (codes "v1", codes "v1") ∷ [];
          })
          key http_get 7))
      (finished
        (record {
          client = (begin key http_get 7 cached).1;
          sent = twice.sent;
          seen = (codes "v1", codes "v1") ∷ [];
        })
        key http_get (some entry) (codes "v1") (http_error 304 tagged []) 8 (inl refl)
        (unchanged 304 tagged [] entry refl refl))

reads_what_is_there_example : All (λ e. e.0 ≡ e.1) twice.seen
reads_what_is_there_example = reads_what_is_there named_by quiet twice refl read_twice

abbrev push : Run
push = record { id = 4; workflow_name = codes "ci.yml"; name = []; display_title = [] }

abbrev waiting : Job
waiting = record {
  id = 9;
  name = codes "test";
  runner_name = [];
  status = codes "queued";
  conclusion = [];
  html_url = [];
  started_at = [];
  completed_at = [];
  labels = codes "linux" ∷ [];
  created = some (pos 70);
}

-- The forge lists the one run under each status.
abbrev forge : Text → Text → Action ℕ (Option Body)
forge pat path n =
    if starts_with path (codes "/repos/mechemsi/site/actions/runs?")
    then (returned (some (runs (push ∷ []))), n)
    else (returned (some (jobs (waiting ∷ []))), n)

abbrev one_run : Text → Option (List Run)
one_run status = some (push ∷ [])

abbrev one_job : Run → Option (List Job)
one_job run = some (waiting ∷ [])

scanned :
    scan_repo forge (λ n. 100) ci_pool (codes "site") 0
    ≡ (returned (record { queued = 1; failed = 0; ages = seconds (pos 30) ∷ [] }, []), 0)
unfolding scan_repo starts_with text_eq
scanned = refl

scan_repo_lem_example :
    (n : ℕ) × (scan_repo forge (λ n. 100) ci_pool (codes "site") 0 ≡ (
      returned (
        record {
          queued =
              sum_by
                (queued_in ci_pool (codes "site") 100 one_run one_job)
                (distinct (listed ci_pool (codes "site") 100 one_run one_job active_run_statuses));
          failed =
              unlisted ci_pool (codes "site") 100 one_run one_job active_run_statuses
              + sum_by
                  (λ r. missing ci_pool (codes "site") 100 one_run one_job (one_job r))
                  (distinct
                    (listed ci_pool (codes "site") 100 one_run one_job active_run_statuses));
          ages =
              concat_map
                (ages_in ci_pool (codes "site") 100 one_run one_job)
                (distinct (listed ci_pool (codes "site") 100 one_run one_job active_run_statuses));
        },
        concat_map
            (infos_in ci_pool (codes "site") 100 one_run one_job)
            (distinct (listed ci_pool (codes "site") 100 one_run one_job active_run_statuses)),
      ),
      n,
    ))
unfolding starts_with
scan_repo_lem_example =
    scan_repo_lem ci_pool (codes "site") 100 one_run one_job forge (λ n. 100) (λ n. refl)
      (λ status n. (n, refl)) (λ run n. (n, refl)) 0

abbrev repo_named : Text → Repository
repo_named name = record {
  owner = codes "mechemsi";
  name = name;
  archived = false;
  disabled = false;
  private = true;
}

abbrev account : List Repository
account = repo_named (codes "web") ∷ repo_named (codes "api") ∷ repo_named (codes "web") ∷ []

-- The page is read off the path.
abbrev paging : Text → Text → Action ℕ (Option Body)
paging pat path n = (
  returned (some (repositories (take 2 (drop ((digits_value 0 (drop 61 path) - 1) * 2) account)))),
  n,
)

listed_names :
    Methods.list_repositories paging no_match 2 4 personal_pool 0
    ≡ (returned (some (some (codes "api" ∷ codes "web" ∷ []))), 0)
unfolding Methods.list_repositories digits_value show text_eq
listed_names = refl

show_two : show 2 ≡ codes "2"
unfolding show
show_two = refl

pages_right :
    (k n : ℕ)
    → (m : ℕ) × (paging personal_pool.pat (repos_path 2 (k + 1)) n
        ≡ (returned (some (repositories (take 2 (drop (k * 2) account)))), m))
pages_right k n =
    let back : k + 1 - 1 ≡ k = omega arith in
    (n, rw show_two (rw (digits_value-show (k + 1)) (rw back refl)))

list_repositories_lem_example :
    (names : List Text) × (n : ℕ) × (Methods.list_repositories paging no_match 2 4 personal_pool 0
      ≡ (returned (some (some names)), n))
    × ((name : Text)
        → member name names
          ≡ any (λ r. eligible no_match personal_pool r && text_eq r.name name) account)
    × Distinct (λ name. name) names
list_repositories_lem_example =
    list_repositories_lem no_match personal_pool paging 2 account pages_right 4 0 (omega arith)
      (omega arith)
