-- ===== src/Forge/Scan.antt =====
-- The walk over a repository's runs and jobs: `_scan_repo`, `_scan_run` and `_age` of
-- orchestrator/rorch/github_client.py. How a body is fetched is a parameter; the list of jobs that
-- the walk adds to is always given, as the scaler does.
pub mod Once
pub mod Runs
use selfhosted_runner_swarm.Prelude.{
  ℕ, ◌+◌, Bool, true, false, not, ◌||◌, Option, none, some, List, [], ◌∷◌, ◌++◌, if◌then◌else◌, map,
  keep, count_if, ◌==◌,
}
use selfhosted_runner_swarm.Prelude.Int.{ℤ, pos, ◌-ℤ◌}
use selfhosted_runner_swarm.Prelude.Text.{Text, codes, is, show}
use selfhosted_runner_swarm.Prelude.Dict.{member, number_key}
use selfhosted_runner_swarm.Config.{PoolConfig}
use selfhosted_runner_swarm.Config.Labels.{serves_labels}
use selfhosted_runner_swarm.Config.Validation.{is_zero}
use selfhosted_runner_swarm.Scaler.Types.{JobInfo, Age, seconds, forever, at_least}
use selfhosted_runner_swarm.Forge.Payload.{Run, Job, Body, job_info, workflow_runs, listed_jobs}
use selfhosted_runner_swarm.Forge.Action.{Action, pure, expect, ◌>>=◌}

pub record QueueScan : Type 0 where
  pub queued : ℕ
  pub failed : ℕ
  pub ages : List Age

abbrev pub empty_scan : QueueScan
empty_scan = record { queued = 0; failed = 0; ages = [] }

abbrev pub failed_scan : QueueScan
failed_scan = record { queued = 0; failed = 1; ages = [] }

-- `QueueScan.__add__`
unfoldable pub add_scans : QueueScan → QueueScan → QueueScan
add_scans a b = record {
  queued = a.queued + b.queued;
  failed = a.failed + b.failed;
  ages = a.ages ++ b.ages;
}

unfoldable pub age : ℕ → Job → Age
unfolding ◌-ℤ◌
age now job = elim job.created [ none ↦ forever | some created ↦ seconds (pos now -ℤ created) ]

abbrev pub is_queued : Job → Bool
is_queued job = is job.status "queued"

-- The ages of the queued jobs that the pool serves.
unfoldable pub ages_of : PoolConfig → ℕ → List Job → List Age
unfolding age serves_labels
ages_of pool now [] = []
ages_of pool now (job ∷ rest) =
    let others = ages_of pool now rest in
    if is_queued job
    then (if serves_labels pool job.labels then age now job ∷ others else others)
    else others

-- The other jobs.
unfoldable pub infos_of : Run → Text → List Job → List JobInfo
unfolding job_info
infos_of run repo [] = []
infos_of run repo (job ∷ rest) =
    let others = infos_of run repo rest in
    if is_queued job then others else job_info job run repo ∷ others

abbrev pub counts : PoolConfig → Age → Bool
counts pool a = is_zero pool.queued_min_age || at_least pool.queued_min_age a

abbrev pub scan_of : PoolConfig → List Age → QueueScan
scan_of pool ages = record { queued = count_if (counts pool) ages; failed = 0; ages = ages }

abbrev pub runs_path : PoolConfig → Text → Text → Text
runs_path pool repo status =
    codes "/repos/"
    ++ (pool.owner
        ++ (codes "/"
            ++ (repo ++ (codes "/actions/runs?status=" ++ (status ++ codes "&per_page=50")))))

abbrev pub jobs_path : PoolConfig → Text → Run → Text
jobs_path pool repo run =
    codes "/repos/"
    ++ (pool.owner
        ++ (codes "/"
            ++ (repo
                ++ (codes "/actions/runs/"
                    ++ (show run.id ++ codes "/jobs?filter=latest&per_page=50")))))

abbrev pub active_run_statuses : List Text
active_run_statuses = codes "queued" ∷ codes "pending" ∷ codes "in_progress" ∷ []

-- The loops' variables: the scan so far, the jobs so far, and the runs seen.
pub record Walk : Type 0 where
  pub scan : QueueScan
  pub jobs : List JobInfo
  pub seen : List ℕ

abbrev pub start_walk : Walk
start_walk = record { scan = empty_scan; jobs = []; seen = [] }

abbrev pub note_run : ℕ → QueueScan × List JobInfo → Walk → Walk
note_run id (scan, jobs) walk = record {
  scan = add_scans walk.scan scan;
  jobs = walk.jobs ++ jobs;
  seen = id ∷ walk.seen;
}

abbrev pub note_failure : Walk → Walk
note_failure walk = record walk { scan = add_scans walk.scan failed_scan }

module _ {S : Type 0} (get_shared : Text → Text → Action S (Option Body)) (clock : S → ℕ) where
  -- What the walk gives for a run whose jobs were asked for.
  unfoldable pub with_jobs :
      PoolConfig → Text → Run → Option Body → Action S (QueueScan × List JobInfo)
  unfolding ages_of infos_of listed_jobs
  with_jobs pool repo run none = pure (failed_scan, [])
  with_jobs pool repo run (some b) = do
    js ← expect (listed_jobs b)
    (λ s. pure (scan_of pool (ages_of pool (clock s) js), infos_of run repo js) s)

  unfoldable pub scan_run : PoolConfig → Text → Run → Action S (QueueScan × List JobInfo)
  unfolding with_jobs
  scan_run pool repo run = do
    answer ← get_shared pool.pat (jobs_path pool repo run)
    with_jobs pool repo run answer

  -- The runs of one listing. A run that was seen is skipped.
  unfoldable pub walk_runs : PoolConfig → Text → List Run → Walk → Action S Walk
  unfolding scan_run member add_scans
  walk_runs pool repo [] walk = pure walk
  walk_runs pool repo (run ∷ rest) walk =
      let go_on_with = (do
        found ← scan_run pool repo run
        walk_runs pool repo rest (note_run run.id found walk)) in
      if member run.id walk.seen then walk_runs pool repo rest walk else go_on_with

  unfoldable pub with_runs : PoolConfig → Text → Option Body → Walk → Action S Walk
  unfolding walk_runs workflow_runs add_scans
  with_runs pool repo none walk = pure (note_failure walk)
  with_runs pool repo (some b) walk = do rs ← expect (workflow_runs b); walk_runs pool repo rs walk

  unfoldable pub walk_statuses : PoolConfig → Text → List Text → Walk → Action S Walk
  unfolding with_runs
  walk_statuses pool repo [] walk = pure walk
  walk_statuses pool repo (status ∷ rest) walk = do
    answer ← get_shared pool.pat (runs_path pool repo status)
    walk' ← with_runs pool repo answer walk
    walk_statuses pool repo rest walk'

  unfoldable pub scan_repo : PoolConfig → Text → Action S (QueueScan × List JobInfo)
  unfolding walk_statuses
  scan_repo pool repo = do
    walk ← walk_statuses pool repo active_run_statuses start_walk
    pure (walk.scan, walk.jobs)

  -- `sum(scans, QueueScan())`, the repositories one after another
  unfoldable pub scan_repos :
      PoolConfig → List Text → QueueScan → Action S (QueueScan × List JobInfo)
  unfolding scan_repo add_scans
  scan_repos pool [] total = pure (total, [])
  scan_repos pool (repo ∷ rest) total = do
    (scan, jobs) ← scan_repo pool repo
    (total', jobs') ← scan_repos pool rest (add_scans total scan)
    pure (total', jobs ++ jobs')
