-- ===== src/Forge/Scan/Once.antt =====
-- What a walk over a repository adds up to, `_scan_repo` of orchestrator/rorch/github_client.py.
use mathlib.Core.List.{append_assoc, append-nil}
use selfhosted_runner_swarm.Prelude.{
  ℕ, ◌+◌, ◌≡◌, inl, inr, refl, sym, ap, ◌∙◌, Option, none, some, List, [], ◌∷◌, ◌++◌, count_if,
  concat_map, sum_by, sum_by-append, Bool-cases, arith,
}
use selfhosted_runner_swarm.Prelude.Text.{Text}
use selfhosted_runner_swarm.Prelude.Dict.{member, number_key}
use selfhosted_runner_swarm.Config.{PoolConfig}
use selfhosted_runner_swarm.Scaler.Types.{JobInfo, Age}
use selfhosted_runner_swarm.Scaler.State.{returned}
use selfhosted_runner_swarm.Forge.Payload.{Run, Job, Body, runs, jobs, workflow_runs, listed_jobs}
use selfhosted_runner_swarm.Forge.Action.{Action}
use selfhosted_runner_swarm.Forge.Scan.{
  QueueScan, failed_scan, add_scans, ages_of, infos_of, counts, scan_of, runs_path, jobs_path,
  active_run_statuses, Walk, start_walk, note_run, note_failure, with_jobs, scan_run, walk_runs,
  with_runs, walk_statuses, scan_repo,
}
use selfhosted_runner_swarm.Forge.Scan.Runs.{
  distinct, unseen, marked, unseen_nil, unseen-append, marked-append, concat_map-append,
}

-- The answers that a forge gives throughout a walk: the runs of each status and the jobs of each
-- run, `none` where a request fails.
module _ (pool : PoolConfig) (repo : Text) (now : ℕ) (listing : Text → Option (List Run))
    (jobs_for : Run → Option (List Job)) where
  abbrev pub or_empty : {A : Type 0} → Option (List A) → List A
  or_empty none = []
  or_empty (some xs) = xs

  abbrev pub missing : {A : Type 0} → Option A → ℕ
  missing none = 1
  missing (some a) = 0

  unfoldable pub listed : List Text → List Run
  listed [] = []
  listed (status ∷ rest) = or_empty (listing status) ++ listed rest

  unfoldable pub unlisted : List Text → ℕ
  unlisted [] = 0
  unlisted (status ∷ rest) = missing (listing status) + unlisted rest

  abbrev pub ages_in : Run → List Age
  ages_in run = ages_of pool now (or_empty (jobs_for run))

  abbrev pub infos_in : Run → List JobInfo
  infos_in run = infos_of run repo (or_empty (jobs_for run))

  abbrev pub queued_in : Run → ℕ
  queued_in run = count_if (counts pool) (ages_in run)

  -- What the walk `w` becomes when it visits the runs, and `k` requests for listings fail.
  record Adds (w v : Walk) (rs : List Run) (k : ℕ) : Type 0 where
    queued : v.scan.queued ≡ w.scan.queued + sum_by queued_in rs
    failed : v.scan.failed ≡ w.scan.failed + (k + sum_by (λ r. missing (jobs_for r)) rs)
    ages : v.scan.ages ≡ w.scan.ages ++ concat_map ages_in rs
    infos : v.jobs ≡ w.jobs ++ concat_map infos_in rs
    seen : v.seen ≡ marked rs w.seen

  Adds-none : (w : Walk) → Adds w w [] 0
  unfolding marked
  Adds-none w = record {
    queued = omega arith;
    failed = omega arith;
    ages = sym (append-nil w.scan.ages);
    infos = sym (append-nil w.jobs);
    seen = refl;
  }

  Adds-trans :
      (u v w : Walk) (rs qs : List Run) (j k : ℕ)
      → Adds u v rs j
      → Adds v w qs k
      → Adds u w (rs ++ qs) (j + k)
  Adds-trans u v w rs qs j k a b = record {
    queued = omega (arith, a.queued, b.queued, sum_by-append queued_in rs qs);
    failed = omega (arith, a.failed, b.failed, sum_by-append (λ r. missing (jobs_for r)) rs qs);
    ages = b.ages ∙ rw (a.ages, concat_map-append, append_assoc);
    infos = b.infos ∙ rw (a.infos, concat_map-append, append_assoc);
    seen = b.seen ∙ rw (a.seen, marked-append);
  }

  Adds-failure : (w : Walk) → Adds w (note_failure w) [] 1
  unfolding marked add_scans
  Adds-failure w = record {
    queued = omega arith;
    failed = omega arith;
    ages = refl;
    infos = sym (append-nil w.jobs);
    seen = refl;
  }

  found : Run → Option (List Job) → QueueScan × List JobInfo
  found run none = (failed_scan, [])
  found run (some js) = (scan_of pool (ages_of pool now js), infos_of run repo js)

  Adds-run :
      (w : Walk) (run : Run) → Adds w (note_run run.id (found run (jobs_for run)) w) (run ∷ []) 0
  unfolding marked add_scans found ages_of infos_of
  Adds-run w run = by_answer (jobs_for run) refl
    where
      by_answer :
          (o : Option (List Job))
          → jobs_for run ≡ o
          → Adds w (note_run run.id (found run o) w) (run ∷ []) 0
      by_answer none e = record {
        queued = rw e (omega arith);
        failed = rw e (omega arith);
        ages = rw e refl;
        infos = rw e refl;
        seen = refl;
      }
      by_answer (some js) e = record {
        queued = rw e (omega arith);
        failed = rw e (omega arith);
        ages = rw (e, append-nil) refl;
        infos = rw (e, append-nil) refl;
        seen = refl;
      }

  outcome :
      (statuses : List Text) (v : Walk)
      → Adds start_walk v (unseen [] (listed statuses)) (unlisted statuses)
      → ◌≡◌ {A = QueueScan × List JobInfo}
          (v.scan, v.jobs)
          (
            record {
              queued = sum_by queued_in (distinct (listed statuses));
              failed =
                  unlisted statuses
                  + sum_by (λ r. missing (jobs_for r)) (distinct (listed statuses));
              ages = concat_map ages_in (distinct (listed statuses));
            },
            concat_map infos_in (distinct (listed statuses)),
          )
  outcome statuses v adds =
      ground (arith, unseen_nil (listed statuses), adds.queued, adds.failed, adds.ages, adds.infos)

  abbrev runs_body : Option (List Run) → Option Body
  runs_body none = none
  runs_body (some rs) = some (runs rs)

  abbrev jobs_body : Option (List Job) → Option Body
  jobs_body none = none
  jobs_body (some js) = some (jobs js)

  module _ {S : Type 0} (get_shared : Text → Text → Action S (Option Body)) (clock : S → ℕ)
      (steady : (s : S) → clock s ≡ now)
      (lists : (status : Text) (s : S)
        → (s' : S) × (get_shared pool.pat (runs_path pool repo status) s
            ≡ (returned (runs_body (listing status)), s')))
      (gives : (run : Run) (s : S)
        → (s' : S) × (get_shared pool.pat (jobs_path pool repo run) s
            ≡ (returned (jobs_body (jobs_for run)), s'))) where
    with_jobs-found :
        (run : Run) (o : Option (List Job)) (s : S)
        → with_jobs get_shared clock pool repo run (jobs_body o) s ≡ (returned (found run o), s)
    unfolding with_jobs listed_jobs found
    with_jobs-found run none s = refl
    with_jobs-found run (some js) s = rw (steady s) refl

    scan_run-found :
        (run : Run) (s : S)
        → (s' : S) × (scan_run get_shared clock pool repo run s
            ≡ (returned (found run (jobs_for run)), s'))
    unfolding scan_run
    scan_run-found run s =
        let (s', e) = gives run s in (s', rw e (with_jobs-found run (jobs_for run) s'))

    Walked : (Action S Walk) → S → Walk → List Run → ℕ → Type 0
    Walked m s w rs k = (v : Walk) × (s' : S) × (m s ≡ (returned v, s')) × Adds w v rs k

    walk_runs-Walked :
        (rs : List Run) (w : Walk) (s : S)
        → Walked (walk_runs get_shared clock pool repo rs w) s w (unseen w.seen rs) 0
    unfolding Walked walk_runs unseen
    walk_runs-Walked [] w s = (w, s, refl, Adds-none w)
    walk_runs-Walked (run ∷ rest) w s = elim (Bool-cases (member run.id w.seen)) [
      | inl e ↦ rw e (walk_runs-Walked rest w s)
      | inr e ↦
          let (s', found_it) = scan_run-found run s in
          let next = note_run run.id (found run (jobs_for run)) w in
          let (v, s'', walked, adds) = walk_runs-Walked rest next s' in
          rw e (
            v,
            s'',
            rw found_it walked,
            Adds-trans w next v (run ∷ []) (unseen next.seen rest) 0 0 (Adds-run w run) adds,
          )
    ]

    with_runs-Walked :
        (o : Option (List Run)) (w : Walk) (s : S)
        → Walked
            (with_runs get_shared clock pool repo (runs_body o) w)
            s
            w
            (unseen w.seen (or_empty o))
            (missing o)
    unfolding Walked with_runs workflow_runs unseen
    with_runs-Walked none w s = (note_failure w, s, refl, Adds-failure w)
    with_runs-Walked (some rs) w s = walk_runs-Walked rs w s

    walk_statuses-Walked :
        (statuses : List Text) (w : Walk) (s : S)
        → Walked
            (walk_statuses get_shared clock pool repo statuses w)
            s
            w
            (unseen w.seen (listed statuses))
            (unlisted statuses)
    unfolding Walked walk_statuses unseen listed unlisted
    walk_statuses-Walked [] w s = (w, s, refl, Adds-none w)
    walk_statuses-Walked (status ∷ rest) w s =
        let (s', asked) = lists status s in
        let (v, s'', walked, adds) = with_runs-Walked (listing status) w s' in
        let (u, t, done, more) = walk_statuses-Walked rest v s'' in
        (
          u,
          t,
          rw (asked, walked, done) refl,
          rw (unseen-append w.seen (or_empty (listing status)) (listed rest), sym adds.seen)
              (Adds-trans w v u _ _ _ _ adds more),
        )

    -- While the forge's answers and the clock stay as they are, a walk over a repository ends, and
    -- its result counts each run of the three listings once: the queued jobs old enough that the
    -- pool serves, the requests that failed (for a listing, or for a run's jobs), the ages of all
    -- queued jobs that it serves, and what is known of all other jobs, in the order of the listings.
    pub scan_repo_lem :
        (s : S)
        → (s' : S) × (scan_repo get_shared clock pool repo s ≡ (
          returned (
            record {
              queued = sum_by queued_in (distinct (listed active_run_statuses));
              failed =
                  unlisted active_run_statuses
                  + sum_by (λ r. missing (jobs_for r)) (distinct (listed active_run_statuses));
              ages = concat_map ages_in (distinct (listed active_run_statuses));
            },
            concat_map infos_in (distinct (listed active_run_statuses)),
          ),
          s',
        ))
    unfolding scan_repo Walked
    scan_repo_lem s =
        let (v, s', walked, adds) = walk_statuses-Walked active_run_statuses start_walk s in
        (s', rw walked (ap (λ r. (returned r, s')) (outcome active_run_statuses v adds)))
