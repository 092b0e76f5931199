-- ===== src/Store/Jobs/Once.antt =====
-- Scans one after another, `sync_jobs` of orchestrator/rorch/store.py: the reports of a job, and the
-- jobs that are still open.
use selfhosted_runner_swarm.Prelude.{
  ℕ, ◌+◌, ◌≤◌, ◌≡◌, inl, inr, refl, sym, ap, ◌∙◌, false, not, ◌&&◌, Option, none, some, List, [],
  ◌∷◌, ◌++◌, ◌==◌, ==_iff, All, In, Distinct, Bool-cases, arith,
}
use selfhosted_runner_swarm.Prelude.Text.{Text, text_eq_iff}
use selfhosted_runner_swarm.Prelude.Dict.{get, number_key}
use selfhosted_runner_swarm.Scaler.Types.{JobInfo}
use selfhosted_runner_swarm.Store.{JobRow}
use selfhosted_runner_swarm.Store.Jobs.{
  JobTable, JobReport, Synced, known_jobs, is_completed, upserted, is_open, sync_scanned,
  closed_row, job_ids, sync_jobs,
}
use selfhosted_runner_swarm.Store.Jobs.Rows.{
  DistinctKeys, reports, reports-append, job_of, is_some, member-job_ids, scanned_row, completed,
  one_if, get-sync_scanned, reports-sync_scanned, known_row, get-known_jobs,
  known_jobs-DistinctKeys,
}
use selfhosted_runner_swarm.Store.Jobs.Missing.{closed, to_close, close_missing_lem}
use selfhosted_runner_swarm.Store.Jobs.Keys.{sync_scanned-DistinctKeys, close_missing-DistinctKeys}

abbrev AllDistinct : List JobInfo → Type 0
AllDistinct jobs = Distinct (λ j. j.job_id) jobs

module _ (now : ℕ) (pool : Text) (jobs : List JobInfo) (table : JobTable)
    (keyed : DistinctKeys table) (distinct : AllDistinct jobs) where
  start : Synced
  start = record { table = table; started = []; finished = [] }

  scanned : Synced
  scanned = sync_scanned now pool (known_jobs pool table) jobs start

  get-sync_jobs :
      (id : ℕ)
      → get id (sync_jobs now pool jobs table).table
        ≡ closed now
            (to_close (is_some (job_of id jobs)) (known_row pool (get id table)))
            (scanned_row now pool (job_of id jobs) (get id table))
  unfolding sync_jobs scanned start
  get-sync_jobs id =
      (close_missing_lem now (job_ids jobs) id (known_jobs pool table) scanned
        (known_jobs-DistinctKeys pool table keyed)).0
      ∙ rw
          (
            member-job_ids id jobs,
            get-known_jobs id pool table keyed,
            get-sync_scanned now pool (known_jobs pool table) id jobs start distinct,
          )
          refl

  reports-sync_jobs :
      (id : ℕ)
      → reports id (sync_jobs now pool jobs table).finished
        ≡ one_if (is_open (known_row pool (get id table)) && completed (job_of id jobs))
          + one_if (
              to_close (is_some (job_of id jobs)) (known_row pool (get id table))
              && is_some (scanned_row now pool (job_of id jobs) (get id table)))
  unfolding sync_jobs scanned start
  reports-sync_jobs id = ground (
    arith,
    (close_missing_lem now (job_ids jobs) id (known_jobs pool table) scanned
        (known_jobs-DistinctKeys pool table keyed)).1,
    member-job_ids id jobs,
    get-known_jobs id pool table keyed,
    get-sync_scanned now pool (known_jobs pool table) id jobs start distinct,
    reports-sync_scanned now pool (known_jobs pool table) id jobs start distinct,
  )

  sync_jobs-DistinctKeys : DistinctKeys (sync_jobs now pool jobs table).table
  unfolding sync_jobs scanned start
  sync_jobs-DistinctKeys =
      close_missing-DistinctKeys now (job_ids jobs) (known_jobs pool table) scanned
        (sync_scanned-DistinctKeys now pool (known_jobs pool table) jobs start keyed)

-- How often a job may still be reported as finished.
abbrev remaining : Option JobRow → ℕ
remaining none = 1
remaining (some row) = one_if (not (is_some row.ended))

spent :
    (now : ℕ) (pool : Text) (job : Option JobInfo) (row : Option JobRow)
    → one_if (is_open (known_row pool row) && completed job)
        + one_if
            (to_close (is_some job) (known_row pool row) && is_some (scanned_row now pool job row))
        + remaining (
            closed now (to_close (is_some job) (known_row pool row)) (scanned_row now pool job row))
      ≤ remaining row
unfolding upserted closed_row
spent now pool none none = ground arith
spent now pool none (some row) = ground arith
spent now pool (some job) none = ground arith
spent now pool (some job) (some row) = ground arith

-- One scan of a pool.
pub record PoolScan : Type 0 where
  pub now : ℕ
  pub pool : Text
  pub jobs : List JobInfo

-- Every report of a finished job over the scans.
unfoldable pub finished_over : List PoolScan → JobTable → List JobReport
finished_over [] table = []
finished_over (s ∷ rest) table =
    let r = sync_jobs s.now s.pool s.jobs table in r.finished ++ finished_over rest r.table

reports_left :
    (id : ℕ) (scans : List PoolScan) (table : JobTable)
    → DistinctKeys table
    → All (λ s. AllDistinct s.jobs) scans
    → reports id (finished_over scans table) ≤ remaining (get id table)
unfolding finished_over
reports_left id [] table keyed h = omega arith
reports_left id (s ∷ rest) table keyed h =
    let r = sync_jobs s.now s.pool s.jobs table in
    omega (
      arith,
      reports-append id r.finished (finished_over rest r.table),
      reports-sync_jobs s.now s.pool s.jobs table keyed h.0 id,
      ap remaining (get-sync_jobs s.now s.pool s.jobs table keyed h.0 id),
      spent s.now s.pool (job_of id s.jobs) (get id table),
      reports_left id rest r.table (sync_jobs-DistinctKeys s.now s.pool s.jobs table keyed h.0) h.1,
    )

-- Over any scans of any pools, where a scan lists a job at most once, each job is reported as
-- finished at most once.
pub finished_once :
    (id : ℕ) (scans : List PoolScan) (table : JobTable)
    → DistinctKeys table
    → All (λ s. Distinct (λ j. j.job_id) s.jobs) scans
    → reports id (finished_over scans table) ≤ 1
finished_once id scans table keyed h =
    omega (arith, reports_left id scans table keyed h, remaining-le (get id table))
  where
    remaining-le : (o : Option JobRow) → remaining o ≤ 1
    remaining-le none = omega arith
    remaining-le (some row) = ground arith

job_of-In :
    (id : ℕ) (jobs : List JobInfo) (job : JobInfo)
    → job_of id jobs ≡ some job
    → In job jobs × (job.job_id ≡ id)
unfolding job_of
job_of-In id [] job e = cc
job_of-In id (j ∷ jobs) job e = elim (Bool-cases (j.job_id == id)) [
  | inl same ↦
      let here : j ≡ job = ground (arith, e, same) in
      (inl here, rw (← here) ((==_iff j.job_id id).0 same))
  | inr other ↦
      let found = job_of-In id jobs job (ground (arith, e, other)) in (inr found.0, found.1)
]

still_open :
    (now : ℕ) (pool : Text) (job : Option JobInfo) (old : Option JobRow) (row : JobRow)
    → closed now (to_close (is_some job) (known_row pool old)) (scanned_row now pool job old)
      ≡ some row
    → row.pool ≡ pool
    → row.ended ≡ none
    → (j : JobInfo) × (job ≡ some j) × (is_completed j ≡ false) × (row.status ≡ j.status)
unfolding upserted closed_row
still_open now pool none none row e p o = cc
still_open now pool none (some old) row e p o = absurd (ground (arith, text_eq_iff old.pool pool))
still_open now pool (some j) none row e p o = (j, refl, ground arith, ground arith)
still_open now pool (some j) (some old) row e p o = (j, refl, ground arith, ground arith)

-- After a scan of a pool, each of its jobs that the table has as not ended was listed by that scan,
-- as not completed, and with the status that the table has: a job whose run is no longer reported is
-- closed.
pub open_jobs_were_scanned :
    (now : ℕ) (pool : Text) (jobs : List JobInfo) (table : JobTable) (id : ℕ) (row : JobRow)
    → DistinctKeys table
    → Distinct (λ j. j.job_id) jobs
    → get id (sync_jobs now pool jobs table).table ≡ some row
    → row.pool ≡ pool
    → row.ended ≡ none
    → (job : JobInfo) × In job jobs
      × (job.job_id ≡ id)
      × (is_completed job ≡ false)
      × (row.status ≡ job.status)
open_jobs_were_scanned now pool jobs table id row keyed distinct e p o =
    let (job, found, running, same) =
      still_open now pool (job_of id jobs) (get id table) row
        (sym (get-sync_jobs now pool jobs table keyed distinct id) ∙ e) p o in
    let (listed, named) = job_of-In id jobs job found in (job, listed, named, running, same)
