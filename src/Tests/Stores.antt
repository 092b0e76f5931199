-- ===== src/Tests/Stores.antt =====
-- Two scans of one pool.
use selfhosted_runner_swarm.Prelude.{◌≤◌, ◌≡◌, refl, false, none, some, List, [], ◌∷◌, In}
use selfhosted_runner_swarm.Prelude.Text.{Text, codes, text_eq}
use selfhosted_runner_swarm.Prelude.Dict.{get, put, member, number_key}
use selfhosted_runner_swarm.Scaler.Types.{JobInfo}
use selfhosted_runner_swarm.Store.{JobRow}
use selfhosted_runner_swarm.Store.Jobs.{sync_jobs, is_completed}
use selfhosted_runner_swarm.Store.Jobs.Rows.{reports}
use selfhosted_runner_swarm.Store.Jobs.Once.{
  PoolScan, finished_over, finished_once, open_jobs_were_scanned,
}

abbrev job : Text → JobInfo
job status = record {
  job_id = 7;
  repo = codes "site";
  workflow = codes "ci.yml";
  job_name = codes "test";
  runner = codes "gh-runner-ci-1";
  status = status;
  conclusion = [];
  url = [];
  started_at = [];
  completed_at = [];
}

-- The job runs, and is gone from the next scan, and comes back.
abbrev scans : List PoolScan
scans =
    record { now = 10; pool = codes "ci"; jobs = job (codes "in_progress") ∷ [] }
    ∷ record { now = 20; pool = codes "ci"; jobs = [] }
    ∷ record { now = 30; pool = codes "ci"; jobs = job (codes "completed") ∷ [] }
    ∷ []

reported_once : reports 7 (finished_over scans []) ≡ 1
unfolding finished_over sync_jobs text_eq get put member
reported_once = refl

finished_once_example : reports 7 (finished_over scans []) ≤ 1
finished_once_example = finished_once 7 scans [] tt ((tt, tt), (tt, ((tt, tt), tt)))

abbrev row : JobRow
row = record {
  pool = codes "ci";
  repo = codes "site";
  workflow = codes "ci.yml";
  job_name = codes "test";
  runner = codes "gh-runner-ci-1";
  status = codes "in_progress";
  conclusion = [];
  url = [];
  started_at = [];
  ts = 10;
  ended = none;
}

stands_open : get 7 (sync_jobs 10 (codes "ci") (job (codes "in_progress") ∷ []) []).table ≡ some row
unfolding sync_jobs text_eq get put member
stands_open = refl

open_jobs_were_scanned_example :
    (j : JobInfo) × In j (job (codes "in_progress") ∷ [])
    × (j.job_id ≡ 7)
    × (is_completed j ≡ false)
    × (row.status ≡ j.status)
open_jobs_were_scanned_example =
    open_jobs_were_scanned 10 (codes "ci") (job (codes "in_progress") ∷ []) [] 7 row tt (tt, tt)
      stands_open refl refl

-- A job that another pool recorded is reported as started by every scan.
started_again :
    (sync_jobs 20
      (codes "deploy")
      (job (codes "in_progress") ∷ [])
      (sync_jobs 15
        (codes "deploy")
        (job (codes "in_progress") ∷ [])
        ((7, row) ∷ [])).table).started
    ≡ (sync_jobs 15 (codes "deploy") (job (codes "in_progress") ∷ []) ((7, row) ∷ [])).started
unfolding sync_jobs text_eq get put member
started_again = refl
