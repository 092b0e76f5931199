-- ===== src/Store/Jobs/Rows.antt =====
-- One job's row and reports through `sync_jobs` of orchestrator/rorch/store.py.
use selfhosted_runner_swarm.Prelude.{
  ℕ, ◌+◌, ◌≡◌, ◌≢◌, inl, inr, refl, ◌∙◌, Bool, true, false, ◌&&◌, Option, none, some, List, [], ◌∷◌,
  ◌++◌, if◌then◌else◌, ◌==◌, ==_iff, count_if, All, Distinct, Bool-cases, arith,
}
use selfhosted_runner_swarm.Prelude.Text.{Text, text_eq}
use selfhosted_runner_swarm.Prelude.Dict.{Dict, get, get-put, member, number_key}
use selfhosted_runner_swarm.Scaler.Types.{JobInfo}
use selfhosted_runner_swarm.Store.{JobRow}
use selfhosted_runner_swarm.Store.Jobs.{
  JobTable, JobReport, Synced, known_jobs, is_completed, upserted, upsert_job, report_of, when,
  is_open, is_new, sync_scanned, job_ids,
}

abbrev pub DistinctKeys : {V : Type 0} → Dict ℕ V → Type 0
DistinctKeys d = Distinct (λ e. e.0) d

abbrev pub reports : ℕ → List JobReport → ℕ
reports id rs = count_if (λ r. r.job_id == id) rs

pub reports-append :
    (id : ℕ) (rs qs : List JobReport) → reports id (rs ++ qs) ≡ reports id rs + reports id qs
reports-append id [] qs = omega arith
reports-append id (r ∷ rs) qs = ground (arith, reports-append id rs qs)

-- The entry of a job in the scan.
unfoldable pub job_of : ℕ → List JobInfo → Option JobInfo
job_of id [] = none
job_of id (job ∷ rest) = if job.job_id == id then some job else job_of id rest

job_of_absent :
    (id : ℕ) (jobs : List JobInfo) → All (λ j. id ≢ j.job_id) jobs → job_of id jobs ≡ none
unfolding job_of
job_of_absent id [] h = refl
job_of_absent id (j ∷ jobs) h = ground (arith, job_of_absent id jobs, h.0, ==_iff j.job_id id)

abbrev pub is_some : {A : Type 0} → Option A → Bool
is_some none = false
is_some (some a) = true

pub member-job_ids :
    (id : ℕ) (jobs : List JobInfo) → member id (job_ids jobs) ≡ is_some (job_of id jobs)
unfolding job_of member
member-job_ids id [] = refl
member-job_ids id (j ∷ jobs) = ground (arith, member-job_ids id jobs)

-- The row after the first loop.
abbrev pub scanned_row : ℕ → Text → Option JobInfo → Option JobRow → Option JobRow
scanned_row now pool none row = row
scanned_row now pool (some job) row = some (upserted now pool job row)

abbrev pub completed : Option JobInfo → Bool
completed none = false
completed (some job) = is_completed job

abbrev pub one_if : Bool → ℕ
one_if true = 1
one_if false = 0

pub get-upsert_job :
    (id now : ℕ) (pool : Text) (job : JobInfo) (t : JobTable)
    → get id (upsert_job now pool job t)
      ≡ (if job.job_id == id then some (upserted now pool job (get id t)) else get id t)
unfolding upsert_job
get-upsert_job id now pool job t = ground (
  arith,
  get-put job.job_id id (upserted now pool job (get job.job_id t)) t,
  ==_iff job.job_id id,
)

reports-when :
    (id : ℕ) (b : Bool) (r : JobReport) → reports id (when b r) ≡ one_if (b && r.job_id == id)
reports-when id true r = ground arith
reports-when id false r = refl

module _ (now : ℕ) (pool : Text) (known : Dict ℕ (Option ℕ)) where
  pub get-sync_scanned :
      (id : ℕ) (jobs : List JobInfo) (s : Synced)
      → Distinct (λ j. j.job_id) jobs
      → get id (sync_scanned now pool known jobs s).table
        ≡ scanned_row now pool (job_of id jobs) (get id s.table)
  unfolding sync_scanned job_of
  get-sync_scanned id [] s d = refl
  get-sync_scanned id (job ∷ rest) s d = elim (Bool-cases (job.job_id == id)) [
    | inl e ↦
        let same : job.job_id ≡ id = (==_iff job.job_id id).0 e in
        get-sync_scanned id rest _ d.1
        ∙ rw (e, job_of_absent id rest (rw (← same) d.0))
            (get-upsert_job id now pool job s.table ∙ rw e refl)
    | inr e ↦
        get-sync_scanned id rest _ d.1 ∙ rw (e, get-upsert_job id now pool job s.table) (rw e refl)
  ]

  pub reports-sync_scanned :
      (id : ℕ) (jobs : List JobInfo) (s : Synced)
      → Distinct (λ j. j.job_id) jobs
      → reports id (sync_scanned now pool known jobs s).finished
        ≡ reports id s.finished + one_if (is_open (get id known) && completed (job_of id jobs))
  unfolding sync_scanned job_of
  reports-sync_scanned id [] s d = ground arith
  reports-sync_scanned id (job ∷ rest) s d =
      let told = is_open (get job.job_id known) && is_completed job in
      let s' : Synced = record {
        table = upsert_job now pool job s.table;
        started = s.started ++ when (is_new (get job.job_id known)) (report_of job);
        finished = s.finished ++ when told (report_of job);
      } in
      let ih = reports-sync_scanned id rest s' d.1 in
      let split = reports-append id s.finished (when told (report_of job)) in
      let here = reports-when id told (report_of job) in
      elim (Bool-cases (job.job_id == id)) [
        | inl e ↦
            let same : job.job_id ≡ id = (==_iff job.job_id id).0 e in
            let absent = job_of_absent id rest (rw (← same) d.0) in
            ground (arith, ih, split, here, absent, same)
        | inr e ↦ ground (arith, ih, split, here)
      ]

-- What is known of a job from its row.
abbrev pub known_row : Text → Option JobRow → Option (Option ℕ)
known_row pool none = none
known_row pool (some row) = if text_eq row.pool pool then some row.ended else none

pub absent_key : {V : Type 0} (id : ℕ) (d : Dict ℕ V) → All (λ e. id ≢ e.0) d → get id d ≡ none
unfolding get
absent_key id [] h = refl
absent_key id ((k, v) ∷ d) h = ground (arith, absent_key id d, h.0, ==_iff k id)

pub get-known_jobs :
    (id : ℕ) (pool : Text) (t : JobTable)
    → DistinctKeys t
    → get id (known_jobs pool t) ≡ known_row pool (get id t)
unfolding known_jobs get
get-known_jobs id pool [] d = refl
get-known_jobs id pool ((k, row) ∷ t) d = elim (Bool-cases (k == id)) [
  | inl e ↦
      let same : k ≡ id = (==_iff k id).0 e in
      let none_left : get id t ≡ none = absent_key id t (rw (← same) d.0) in
      elim (Bool-cases (text_eq row.pool pool)) [
        | inl f ↦ rw (e, f) (rw e refl)
        | inr f ↦ rw (e, f) (get-known_jobs id pool t d.1 ∙ rw none_left refl)
      ]
  | inr e ↦ elim (Bool-cases (text_eq row.pool pool)) [
    | inl f ↦ rw (e, f) (rw e (get-known_jobs id pool t d.1))
    | inr f ↦ rw (e, f) (get-known_jobs id pool t d.1)
  ]
]

pub known_jobs-DistinctKeys :
    (pool : Text) (t : JobTable) → DistinctKeys t → DistinctKeys (known_jobs pool t)
unfolding known_jobs
known_jobs-DistinctKeys pool [] d = tt
known_jobs-DistinctKeys pool ((k, row) ∷ t) d = elim (Bool-cases (text_eq row.pool pool)) [
  | inl f ↦ rw f (still_absent t d.0, known_jobs-DistinctKeys pool t d.1)
  | inr f ↦ rw f (known_jobs-DistinctKeys pool t d.1)
]
  where
    still_absent : (t : JobTable) → All (λ e. k ≢ e.0) t → All (λ e. k ≢ e.0) (known_jobs pool t)
    still_absent [] h = tt
    still_absent ((i, r) ∷ t) h = elim (Bool-cases (text_eq r.pool pool)) [
      | inl f ↦ rw f (h.0, still_absent t h.1)
      | inr f ↦ rw f (still_absent t h.1)
    ]
