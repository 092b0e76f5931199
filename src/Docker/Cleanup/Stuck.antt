-- ===== src/Docker/Cleanup/Stuck.antt =====
-- What a sweep for stuck runners kills.
use selfhosted_runner_swarm.Prelude.{
  ℕ, ◌≡◌, true, false, Option, some, List, ◌∷◌, if◌then◌else◌, In,
}
use selfhosted_runner_swarm.Prelude.Int.{ℤ}
use selfhosted_runner_swarm.Prelude.Text.{Text}
use selfhosted_runner_swarm.Prelude.Dict.{member, text_key}
use selfhosted_runner_swarm.Docker.{Docker, Run, pure, ◌>>=◌}
use selfhosted_runner_swarm.Docker.Names.{running_seconds}
use selfhosted_runner_swarm.Docker.Cleanup.{
  two_fields, runs_long, is_false, has_running_job, stuck_names,
}

module _ (float : Text → Option ℕ) (spared : List Text) (minutes : ℤ) where
  -- A line of the listing that names the container, with a time of at least the bound.
  pub record Overdue (name line : Text) : Type 0 where
    pub running_for : Text
    pub listed : two_fields line ≡ some (name, running_for)
    pub long : runs_long minutes (running_seconds float running_for) ≡ true
    pub unspared : member name spared ≡ false

module _ {W : Type 0} (d : Docker W) (float : Text → Option ℕ) (online : List Text)
    (timeout : ℤ) where
  -- A container that the sweep may kill: not online, up for the time-out, and seen without a job.
  pub record Stuck (lines : List Text) (name : Text) : Type 0 where
    pub line : Text
    pub listed : In line lines
    pub overdue : Overdue float online timeout name line
    pub asked_at : W
    pub no_job : (has_running_job d name asked_at).0 ≡ some false

  asked : Text → List Text → Run W (List Text)
  unfolding ◌>>=◌
  asked name rest = do
    job ← has_running_job d name
    more ← stuck_names d float online timeout rest
    pure (if is_false job then name ∷ more else more)
