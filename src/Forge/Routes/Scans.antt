-- ===== src/Forge/Routes/Scans.antt =====
-- What the walks over a repository keep, `_scan_repo` of orchestrator/rorch/github_client.py.
use selfhosted_runner_swarm.Prelude.{ℕ, Option, none, some, List, [], ◌∷◌}
use selfhosted_runner_swarm.Prelude.Text.{Text}
use selfhosted_runner_swarm.Prelude.Dict.{member, number_key}
use selfhosted_runner_swarm.Config.{PoolConfig}
use selfhosted_runner_swarm.Forge.Action.{Action, expect}
use selfhosted_runner_swarm.Forge.Payload.{Body, Run, workflow_runs, listed_jobs}
use selfhosted_runner_swarm.Forge.Scan.{
  QueueScan, Walk, with_jobs, scan_run, walk_runs, with_runs, walk_statuses, scan_repo, scan_repos,
  note_run, add_scans, runs_path, jobs_path, active_run_statuses, start_walk,
}
use selfhosted_runner_swarm.Forge.Routes.Rules.{Keeps, Keeps-bind, Keeps-if, Keeps-expect}

module _ {S : Type 0} (P : S → Type 0) where
  module _ (get_shared : Text → Text → Action S (Option Body)) (clock : S → ℕ) (pool : PoolConfig)
      (shared : (path : Text) → Keeps P (get_shared pool.pat path)) (repo : Text) where
    Keeps-with_jobs :
        (run : Run) (o : Option Body) → Keeps P (with_jobs get_shared clock pool repo run o)
    unfolding with_jobs
    Keeps-with_jobs run none = (λ s p. p)
    Keeps-with_jobs run (some b) =
        Keeps-bind P (expect (listed_jobs b)) _ (Keeps-expect P (listed_jobs b)) (λ js s p. p)

    Keeps-scan_run : (run : Run) → Keeps P (scan_run get_shared clock pool repo run)
    unfolding scan_run
    Keeps-scan_run run =
        Keeps-bind P (get_shared pool.pat (jobs_path pool repo run))
          (with_jobs get_shared clock pool repo run) (shared (jobs_path pool repo run))
          (Keeps-with_jobs run)

    Keeps-walk_runs :
        (rs : List Run) (w : Walk) → Keeps P (walk_runs get_shared clock pool repo rs w)
    unfolding walk_runs
    Keeps-walk_runs [] w = (λ s p. p)
    Keeps-walk_runs (run ∷ rest) w =
        Keeps-if P (member run.id w.seen) (walk_runs get_shared clock pool repo rest w) _
          (Keeps-walk_runs rest w)
          (Keeps-bind P (scan_run get_shared clock pool repo run) _ (Keeps-scan_run run)
            (λ found. Keeps-walk_runs rest (note_run run.id found w)))

    Keeps-with_runs :
        (o : Option Body) (w : Walk) → Keeps P (with_runs get_shared clock pool repo o w)
    unfolding with_runs
    Keeps-with_runs none w = (λ s p. p)
    Keeps-with_runs (some b) w =
        Keeps-bind P (expect (workflow_runs b)) _ (Keeps-expect P (workflow_runs b))
          (λ rs. Keeps-walk_runs rs w)

    Keeps-walk_statuses :
        (statuses : List Text) (w : Walk)
        → Keeps P (walk_statuses get_shared clock pool repo statuses w)
    unfolding walk_statuses
    Keeps-walk_statuses [] w = (λ s p. p)
    Keeps-walk_statuses (status ∷ rest) w =
        Keeps-bind P (get_shared pool.pat (runs_path pool repo status)) _
          (shared (runs_path pool repo status))
          (λ o.
            Keeps-bind P (with_runs get_shared clock pool repo o w) _ (Keeps-with_runs o w)
              (λ v. Keeps-walk_statuses rest v))

    pub Keeps-scan_repo : Keeps P (scan_repo get_shared clock pool repo)
    unfolding scan_repo
    Keeps-scan_repo =
        Keeps-bind P (walk_statuses get_shared clock pool repo active_run_statuses start_walk) _
          (Keeps-walk_statuses active_run_statuses start_walk) (λ w s p. p)

  module _ (get_shared : Text → Text → Action S (Option Body)) (clock : S → ℕ) (pool : PoolConfig)
      (shared : (path : Text) → Keeps P (get_shared pool.pat path)) where
    pub Keeps-scan_repos :
        (repos : List Text) (total : QueueScan)
        → Keeps P (scan_repos get_shared clock pool repos total)
    unfolding scan_repos
    Keeps-scan_repos [] total = λ s p. p
    Keeps-scan_repos (repo ∷ rest) total =
        Keeps-bind P (scan_repo get_shared clock pool repo) _
          (Keeps-scan_repo get_shared clock pool shared repo)
          (λ found.
            Keeps-bind P (scan_repos get_shared clock pool rest (add_scans total found.0)) _
              (Keeps-scan_repos rest (add_scans total found.0)) (λ more s p. p))
