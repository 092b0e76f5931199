-- ===== src/Store/Jobs.antt =====
-- What each runner ran: `sync_jobs`, `recent_jobs` and `jobs_by_runner` of orchestrator/rorch/store.py.
-- The reports leave out `status`, which nothing reads.
pub mod Rows
pub mod Keys
pub mod Missing
pub mod Once
use selfhosted_runner_swarm.Prelude.{
  ℕ, take, ltb, leb, ◌==◌, Bool, true, false, not, ◌&&◌, ◌||◌, Option, none, some, List, [], ◌∷◌,
  ◌++◌, if◌then◌else◌,
}
use selfhosted_runner_swarm.Prelude.Text.{Text, codes, is, truthy, text_eq}
use selfhosted_runner_swarm.Prelude.Dict.{Dict, get, put, member, number_key, text_key}
use selfhosted_runner_swarm.Prelude.Sort.{sorted}
use selfhosted_runner_swarm.Scaler.Types.{JobInfo}
use selfhosted_runner_swarm.Store.{JobRow}

abbrev pub JobTable : Type 0
JobTable = Dict ℕ JobRow

pub record JobReport : Type 0 where
  pub job_id : ℕ
  pub repo : Text
  pub workflow : Text
  pub job_name : Text
  pub runner : Text
  pub conclusion : Text
  pub url : Text

pub record Synced : Type 0 where
  pub table : JobTable
  pub started : List JobReport
  pub finished : List JobReport

-- `SELECT job_id, status, ended_ts FROM runner_jobs WHERE pool = ?`, by job
unfoldable pub known_jobs : Text → JobTable → Dict ℕ (Option ℕ)
known_jobs pool [] = []
known_jobs pool ((id, row) ∷ rest) =
    let others = known_jobs pool rest in
    if text_eq row.pool pool then (id, row.ended) ∷ others else others

abbrev pub is_completed : JobInfo → Bool
is_completed job = is job.status "completed"

abbrev pub ended_at : ℕ → JobInfo → Option ℕ
ended_at now job = if is_completed job then some now else none

-- `COALESCE(a, b)`
abbrev pub coalesce : Option ℕ → Option ℕ → Option ℕ
coalesce none b = b
coalesce (some a) b = some a

-- The row that the upsert leaves.
unfoldable pub upserted : ℕ → Text → JobInfo → Option JobRow → JobRow
upserted now pool job none = record {
  pool = pool;
  repo = job.repo;
  workflow = job.workflow;
  job_name = job.job_name;
  runner = job.runner;
  status = job.status;
  conclusion = job.conclusion;
  url = job.url;
  started_at = job.started_at;
  ts = now;
  ended = ended_at now job;
}
upserted now pool job (some row) = record row {
  runner = job.runner;
  status = job.status;
  conclusion = job.conclusion;
  ended = coalesce row.ended (ended_at now job);
}

unfoldable pub upsert_job : ℕ → Text → JobInfo → JobTable → JobTable
unfolding upserted get put
upsert_job now pool job table = put job.job_id (upserted now pool job (get job.job_id table)) table

abbrev pub report_of : JobInfo → JobReport
report_of job = record {
  job_id = job.job_id;
  repo = job.repo;
  workflow = job.workflow;
  job_name = job.job_name;
  runner = job.runner;
  conclusion = job.conclusion;
  url = job.url;
}

abbrev pub when : Bool → JobReport → List JobReport
when true r = r ∷ []
when false r = []

abbrev pub is_open : Option (Option ℕ) → Bool
is_open none = false
is_open (some none) = true
is_open (some (some at)) = false

abbrev pub is_new : Option (Option ℕ) → Bool
is_new none = true
is_new (some ended) = false

-- The first loop, over the jobs of the scan.
unfoldable pub sync_scanned : ℕ → Text → Dict ℕ (Option ℕ) → List JobInfo → Synced → Synced
unfolding upsert_job get
sync_scanned now pool known [] s = s
sync_scanned now pool known (job ∷ rest) s =
    let previous = get job.job_id known in
    sync_scanned now pool known rest (record {
      table = upsert_job now pool job s.table;
      started = s.started ++ when (is_new previous) (report_of job);
      finished = s.finished ++ when (is_open previous && is_completed job) (report_of job);
    })

-- `SET status='completed', conclusion=…, ended_ts=?`
unfoldable pub closed_row : ℕ → JobRow → JobRow
closed_row now row = record row {
  status = codes "completed";
  conclusion = if truthy row.conclusion then row.conclusion else codes "unobserved";
  ended = some now;
}

abbrev pub report_row : ℕ → JobRow → JobReport
report_row id row = record {
  job_id = id;
  repo = row.repo;
  workflow = row.workflow;
  job_name = row.job_name;
  runner = row.runner;
  conclusion = row.conclusion;
  url = row.url;
}

-- The update and the select of one job that is no longer reported.
unfoldable pub close_job : ℕ → ℕ → Synced → Synced
unfolding closed_row get put
close_job now id s = elim (get id s.table) [
  | none ↦ s
  | some row ↦ record s {
    table = put id (closed_row now row) s.table;
    finished = s.finished ++ report_row id (closed_row now row) ∷ [];
  }
]

-- One round of the second loop.
unfoldable pub close_if_missing : ℕ → List ℕ → ℕ → Option ℕ → Synced → Synced
unfolding close_job member
close_if_missing now seen id ended s =
    if member id seen || not (is_open (some ended)) then s else close_job now id s

-- The second loop, over the jobs that were known.
unfoldable pub close_missing : ℕ → List ℕ → Dict ℕ (Option ℕ) → Synced → Synced
unfolding close_if_missing
close_missing now seen [] s = s
close_missing now seen ((id, ended) ∷ rest) s =
    close_missing now seen rest (close_if_missing now seen id ended s)

abbrev pub job_ids : List JobInfo → List ℕ
job_ids [] = []
job_ids (job ∷ rest) = job.job_id ∷ job_ids rest

unfoldable pub sync_jobs : ℕ → Text → List JobInfo → JobTable → Synced
unfolding known_jobs sync_scanned close_missing
sync_jobs now pool jobs table =
    let known = known_jobs pool table in
    close_missing now (job_ids jobs) known
      (sync_scanned now pool known jobs (record { table = table; started = []; finished = [] }))

-- The job that each runner is executing; a later row of one runner replaces an earlier one.
unfoldable pub jobs_by_runner : JobTable → Dict Text (ℕ × JobRow) → Dict Text (ℕ × JobRow)
unfolding put
jobs_by_runner [] found = found
jobs_by_runner ((id, row) ∷ rest) found =
    if is_open (some row.ended) && (truthy row.runner && is row.status "in_progress")
    then jobs_by_runner rest (put row.runner (id, row) found)
    else jobs_by_runner rest found

-- `ORDER BY ts DESC, job_id DESC`
abbrev pub more_recent : ℕ × JobRow → ℕ × JobRow → Bool
more_recent a b = ltb b.1.ts a.1.ts || (b.1.ts == a.1.ts && leb b.0 a.0)

unfoldable pub recent_jobs : ℕ → JobTable → List (ℕ × JobRow)
unfolding sorted
recent_jobs n table = take n (sorted more_recent table)
