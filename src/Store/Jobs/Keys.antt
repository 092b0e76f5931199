-- ===== src/Store/Jobs/Keys.antt =====
-- The keys of the job table through `sync_jobs` of orchestrator/rorch/store.py.
use selfhosted_runner_swarm.Prelude.{
  ℕ, ◌≢◌, inl, inr, Bool, true, false, not, ◌||◌, Option, none, some, List, [], ◌∷◌, ◌++◌,
  if◌then◌else◌, ◌==◌, ==_iff, All, Bool-cases, arith,
}
use selfhosted_runner_swarm.Prelude.Text.{Text}
use selfhosted_runner_swarm.Prelude.Dict.{Dict, get, put, member, number_key}
use selfhosted_runner_swarm.Scaler.Types.{JobInfo}
use selfhosted_runner_swarm.Store.{JobRow}
use selfhosted_runner_swarm.Store.Jobs.{
  Synced, upsert_job, is_open, sync_scanned, closed_row, close_job, close_if_missing, close_missing,
  report_row,
}
use selfhosted_runner_swarm.Store.Jobs.Rows.{DistinctKeys}

other_keys :
    {V : Type 0} (k a : ℕ) (v : V) (d : Dict ℕ V)
    → k ≢ a
    → All (λ e. k ≢ e.0) d
    → All (λ e. k ≢ e.0) (put a v d)
unfolding put
other_keys k a v [] ne h = (ne, tt)
other_keys k a v ((b, w) ∷ d) ne h = elim (Bool-cases (b == a)) [
  | inl e ↦ rw e h
  | inr e ↦ rw e (h.0, other_keys k a v d ne h.1)
]

put-DistinctKeys :
    {V : Type 0} (a : ℕ) (v : V) (d : Dict ℕ V) → DistinctKeys d → DistinctKeys (put a v d)
unfolding put
put-DistinctKeys a v [] h = (tt, tt)
put-DistinctKeys a v ((b, w) ∷ d) h = elim (Bool-cases (b == a)) [
  | inl e ↦ rw e h
  | inr e ↦ rw e (
    other_keys b a v d (λ same. ground (arith, e, same, ==_iff b a)) h.0,
    put-DistinctKeys a v d h.1,
  )
]

pub sync_scanned-DistinctKeys :
    (now : ℕ) (pool : Text) (known : Dict ℕ (Option ℕ)) (jobs : List JobInfo) (s : Synced)
    → DistinctKeys s.table
    → DistinctKeys (sync_scanned now pool known jobs s).table
unfolding sync_scanned upsert_job
sync_scanned-DistinctKeys now pool known [] s d = d
sync_scanned-DistinctKeys now pool known (job ∷ rest) s d =
    sync_scanned-DistinctKeys now pool known rest _ (put-DistinctKeys job.job_id _ s.table d)

close_job-DistinctKeys :
    (now id : ℕ) (s : Synced) → DistinctKeys s.table → DistinctKeys (close_job now id s).table
unfolding close_job
close_job-DistinctKeys now id s d = by_row (get id s.table)
  where
    by_row :
        (o : Option JobRow)
        → DistinctKeys (
            let t : Synced = elim o [
              | none ↦ s
              | some row ↦ record s {
                table = put id (closed_row now row) s.table;
                finished = s.finished ++ report_row id (closed_row now row) ∷ [];
              }
            ] in
            t.table)
    by_row none = d
    by_row (some row) = put-DistinctKeys id (closed_row now row) s.table d

pub close_missing-DistinctKeys :
    (now : ℕ) (seen : List ℕ) (ks : Dict ℕ (Option ℕ)) (s : Synced)
    → DistinctKeys s.table
    → DistinctKeys (close_missing now seen ks s).table
unfolding close_missing close_if_missing
close_missing-DistinctKeys now seen [] s d = d
close_missing-DistinctKeys now seen ((id, ended) ∷ ks) s d =
    close_missing-DistinctKeys now seen ks _
      (by_test (member id seen || not (is_open (some ended))))
  where
    by_test : (b : Bool) → DistinctKeys (if b then s else close_job now id s).table
    by_test true = d
    by_test false = close_job-DistinctKeys now id s d
