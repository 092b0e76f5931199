-- ===== src/Docker/Cleanup.antt =====
-- The reapers: `running_containers`, `stop_container`, `cleanup_exited`, `has_running_job`,
-- `cleanup_stuck`, `cleanup_aged` and `cleanup_ci_containers` of orchestrator/rorch/docker_client.py.
-- The removals of one sweep run here one after another, and each to its end.
pub mod Stuck
pub mod Leftovers
use selfhosted_runner_swarm.Prelude.{
  ℕ, zero, suc, ◌+◌, ◌*◌, ◌==◌, Bool, true, false, not, ◌&&◌, ◌||◌, Option, none, some, List, [],
  ◌∷◌, ◌++◌, map, if◌then◌else◌, keep, length, ltb, leb,
}
use selfhosted_runner_swarm.Prelude.Int.{ℤ, pos, negsuc, leb_ℤ, ltb_ℤ, ◌-ℤ◌, ◌+ℤ◌}
use selfhosted_runner_swarm.Prelude.Text.{
  Text, codes, truthy, starts_with, contains, split, join, show,
}
use selfhosted_runner_swarm.Prelude.Dict.{member, text_key}
use selfhosted_runner_swarm.Docker.{
  Docker, Run, Event, EventKind, event_exit, event_stuck_kill, event_aged_kill, event_manual_stop,
  pure, capture, note_event, ◌>>=◌, ◌>>◌,
}
use selfhosted_runner_swarm.Docker.Names.{pool_of, running_seconds, is_ci_container}

abbrev pub newline : ℕ
newline = 10

abbrev pub tab : ℕ
tab = 9

-- `f"name=^{prefix}-"`
abbrev pub named : Text → Text
named prefix = codes "name=^" ++ (prefix ++ codes "-")

abbrev drop_first : List Text → List Text
drop_first [] = []
drop_first (x ∷ xs) = xs

-- A line of exactly two fields.
unfoldable pub two_fields : Text → Option (Text × Text)
unfolding split
two_fields line = elim (split tab line) [
  | [] ↦ none
  | a ∷ [] ↦ none
  | a ∷ b ∷ [] ↦ some (a, b)
  | a ∷ b ∷ c ∷ rest ↦ none
]

-- `minutes is None or minutes < bound` in seconds, turned round
unfoldable pub runs_long : ℤ → Option ℕ → Bool
runs_long minutes none = false
runs_long (pos m) (some seconds) = leb (m * 60) seconds
runs_long (negsuc m) (some seconds) = true

unfoldable pub is_false : Option Bool → Bool
is_false none = false
is_false (some b) = not b

module _ (float : Text → Option ℕ) where
  -- The line's container, if it is not spared by name and has run for the time.
  unfoldable pub candidate : List Text → ℤ → Text → Option Text
  unfolding two_fields running_seconds runs_long member
  candidate spared minutes line = elim (two_fields line) [
    | none ↦ none
    | some (name, running_for) ↦
        if member name spared
        then none
        else if runs_long minutes (running_seconds float running_for)
        then some name
        else none
  ]

  unfoldable pub aged_names : List Text → ℤ → List Text → List Text
  unfolding candidate
  aged_names spared minutes [] = []
  aged_names spared minutes (line ∷ rest) = elim (candidate spared minutes line) [
    | none ↦ aged_names spared minutes rest
    | some name ↦ name ∷ aged_names spared minutes rest
  ]

module _ {W : Type 0} (d : Docker W) where
  unfoldable pub running_containers : Text → Run W (List Text)
  unfolding capture split ◌>>=◌
  running_containers prefix = do
    (out, code) ←
        capture d (
          codes "ps" ∷ codes "--filter" ∷ named prefix ∷ codes "--format" ∷ codes "{{.Names}}" ∷ [])
    pure (keep truthy (split newline out))

  -- `name.rsplit("-", 1)[0]`
  abbrev without_last : List Text → List Text
  without_last [] = []
  without_last (x ∷ []) = []
  without_last (x ∷ y ∷ rest) = x ∷ without_last (y ∷ rest)

  abbrev stem : Text → Text
  stem name = elim (split b'-' name) [
    | [] ↦ name
    | x ∷ [] ↦ name
    | x ∷ y ∷ rest ↦ join (codes "-") (without_last (x ∷ y ∷ rest))
  ]

  unfoldable pub stopped : Text → Run W Bool
  unfolding note_event pool_of ◌>>◌
  stopped name = do
    note_event d
        (record { kind = event_manual_stop; container = name; pool = pool_of name; reason = [] })
    pure true

  unfoldable pub is_gone : Text → Run W Bool
  unfolding running_containers split join member ◌>>=◌
  is_gone name = do left ← running_containers (stem name); pure (not (member name left))

  -- Already gone counts as success.
  unfoldable pub stop_container : Text → Run W Bool
  unfolding capture stopped is_gone ◌>>=◌
  stop_container name = do
    (out, code) ← capture d (codes "rm" ∷ codes "-f" ∷ codes "-v" ∷ name ∷ [])
    (if code == 0 then stopped name else is_gone name)

  -- Whether the processes that `docker top` lists are a job; nothing where Docker cannot say.
  unfoldable pub job_in : Text → ℕ → Option Bool
  unfolding contains split
  job_in out (suc code) = none
  job_in out zero =
      let processes = drop_first (split newline out) in
      let daemon = keep (λ line. contains line (codes "gitea-runner daemon")) processes in
      if contains out (codes "Runner.Worker")
      then some true
      else some (ltb 0 (length daemon) && ltb (length daemon) (length processes))

  unfoldable pub has_running_job : Text → Run W (Option Bool)
  unfolding capture job_in ◌>>=◌
  has_running_job name = do
    (out, code) ← capture d (codes "top" ∷ name ∷ [])
    pure (job_in out code)

  -- Each kill: remove, then record.
  unfoldable pub kill_all : EventKind → Text → List Text → Run W (Unit {0})
  unfolding capture note_event pool_of ◌>>=◌ ◌>>◌
  kill_all kind reason [] = pure tt
  kill_all kind reason (name ∷ rest) = do
    (out, code) ← capture d (codes "rm" ∷ codes "-f" ∷ codes "-v" ∷ name ∷ [])
    note_event d (record { kind = kind; container = name; pool = pool_of name; reason = reason })
    kill_all kind reason rest

  abbrev listing : Text → List Text
  listing prefix =
      codes "ps"
      ∷ codes "--filter"
      ∷ named prefix
      ∷ codes "--format"
      ∷ codes "{{.Names}}\t{{.RunningFor}}"
      ∷ []

  abbrev exited_row : List Text → Text × Text
  exited_row [] = ([], [])
  exited_row (name ∷ []) = (name, [])
  exited_row (name ∷ status ∷ rest) = (name, status)

  abbrev last_logs : Text → List Text
  last_logs name = codes "logs" ∷ codes "--tail" ∷ codes "5" ∷ name ∷ []

  -- The logs are read only where the exit was not clean.
  unfoldable pub read_logs : Text → Text → Run W (Unit {0})
  unfolding starts_with ◌>>=◌
  read_logs name status =
      if truthy status && not (starts_with status (codes "Exited (0)"))
      then (do lines ← d.logs (last_logs name); pure tt)
      else pure tt

  unfoldable pub remove_exited : List Text → Run W (Unit {0})
  unfolding split read_logs capture note_event pool_of ◌>>=◌ ◌>>◌
  remove_exited [] = pure tt
  remove_exited (line ∷ rest) =
      let (name, status) = exited_row (split tab line) in
      do
        read_logs name status
        (out, code) ← capture d (codes "rm" ∷ codes "-v" ∷ name ∷ [])
        note_event d
            (record { kind = event_exit; container = name; pool = pool_of name; reason = status })
        remove_exited rest

  unfoldable pub cleanup_exited : Text → Run W (Unit {0})
  unfolding capture split remove_exited ◌>>=◌
  cleanup_exited prefix = do
    (out, code) ← capture d (
        codes "ps"
        ∷ codes "-a"
        ∷ codes "--filter"
        ∷ named prefix
        ∷ codes "--filter"
        ∷ codes "status=exited"
        ∷ codes "--format"
        ∷ codes "{{.Names}}\t{{.Status}}"
        ∷ [])
    remove_exited (keep truthy (split newline out))

  module _ (float : Text → Option ℕ) where
    -- The names to kill, in the order of the listing; each is asked for its processes.
    unfoldable pub stuck_names : List Text → ℤ → List Text → Run W (List Text)
    unfolding candidate has_running_job is_false ◌>>=◌
    stuck_names online timeout [] = pure []
    stuck_names online timeout (line ∷ rest) = elim (candidate float online timeout line) [
      | none ↦ stuck_names online timeout rest
      | some name ↦ do
        job ← has_running_job name
        more ← stuck_names online timeout rest
        pure (if is_false job then name ∷ more else more)
    ]

    unfoldable pub cleanup_stuck : Text → List Text → ℤ → Run W (Unit {0})
    unfolding capture split stuck_names kill_all ◌>>=◌
    cleanup_stuck prefix online timeout = do
      (out, code) ← capture d (listing prefix)
      names ← stuck_names online timeout (split newline out)
      kill_all event_stuck_kill (codes "never came online") names

    unfoldable pub cleanup_aged : Text → ℤ → List Text → Run W (Unit {0})
    unfolding capture split aged_names kill_all ◌>>=◌
    cleanup_aged prefix max_minutes exclude = if leb_ℤ max_minutes (pos 0) then pure tt else (do
      (out, code) ← capture d (listing prefix)
      kill_all event_aged_kill (codes "exceeded the lifetime ceiling")
          (aged_names float exclude max_minutes (split newline out)))

abbrev pub four_fields : List Text → Option (Text × (Text × (Text × Text)))
four_fields [] = none
four_fields (a ∷ []) = none
four_fields (a ∷ b ∷ []) = none
four_fields (a ∷ b ∷ c ∷ []) = none
four_fields (a ∷ b ∷ c ∷ e ∷ []) = some (a, (b, (c, e)))
four_fields (a ∷ b ∷ c ∷ e ∷ f ∷ rest) = none

-- A line of the listing of all containers: name, time of creation, networks, labels.
unfoldable pub ci_row : Text → Option (Text × (Text × (Text × Text)))
unfolding split
ci_row line = four_fields (split tab line)

-- `strptime`, applied to the time of creation, and `fnmatch` are parameters; times are in seconds.
module _ (created : Text → Option ℤ) (fnmatch : Text → Text → Bool) where
  abbrev pub old : ℤ → ℤ → Option ℤ → Bool
  old max_minutes now none = false
  old (pos m) now (some at) = leb_ℤ (pos (m * 60)) (now -ℤ at)
  old (negsuc m) now (some at) = true

  unfoldable pub leftover : ℤ → List Text → ℤ → Text → Option Text
  unfolding ci_row is_ci_container ◌-ℤ◌
  leftover max_minutes patterns now line = elim (ci_row line) [
    | none ↦ none
    | some (name, (at, (networks, labels))) ↦
        if is_ci_container fnmatch patterns name networks labels && old max_minutes now (created at)
        then some name
        else none
  ]

  unfoldable pub leftovers : ℤ → List Text → ℤ → List Text → List Text
  unfolding leftover
  leftovers max_minutes patterns now [] = []
  leftovers max_minutes patterns now (line ∷ rest) = elim (leftover max_minutes patterns now line) [
    | none ↦ leftovers max_minutes patterns now rest
    | some name ↦ name ∷ leftovers max_minutes patterns now rest
  ]

  module _ {W : Type 0} (d : Docker W) where
    unfoldable pub remove_all : List Text → Run W (Unit {0})
    unfolding capture ◌>>=◌
    remove_all [] = pure tt
    remove_all (name ∷ rest) = do
      (out, code) ← capture d (codes "rm" ∷ codes "-f" ∷ codes "-v" ∷ name ∷ [])
      remove_all rest

    unfoldable pub cleanup_ci_containers : ℤ → List Text → ℤ → Run W (Unit {0})
    unfolding capture split leftovers remove_all ◌>>=◌
    cleanup_ci_containers max_minutes patterns now =
        if leb_ℤ max_minutes (pos 0) then pure tt else (do
          (out, code) ← capture d (
              codes "ps"
              ∷ codes "-a"
              ∷ codes "--format"
              ∷ codes "{{.Names}}\t{{.CreatedAt}}\t{{.Networks}}\t{{.Labels}}"
              ∷ [])
          remove_all (leftovers max_minutes patterns now (split newline out)))
