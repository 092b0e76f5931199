-- ===== src/Scaler/Inspect.antt =====
-- `_inspect_pool` and `_federated_queue` of orchestrator/rorch/scaler.py.
use selfhosted_runner_swarm.Prelude.{
  ℕ, Bool, true, false, not, ◌&&◌, ◌||◌, Option, none, some, List, [], ◌∷◌, ◌++◌, map,
  if◌then◌else◌, keep, length, count_if,
}
use selfhosted_runner_swarm.Prelude.Int.{ℤ}
use selfhosted_runner_swarm.Prelude.Text.{Text, codes, is, starts_with}
use selfhosted_runner_swarm.Prelude.Dict.{member, text_key}
use selfhosted_runner_swarm.Config.{PoolConfig, container_prefix}
use selfhosted_runner_swarm.Config.Validation.{is_zero}
use selfhosted_runner_swarm.Scaler.Types.{RunnerInfo, PoolInspection, JobInfo, Age, at_least}
use selfhosted_runner_swarm.Scaler.State.{
  Services, Call, Method, returned, raised, failed, pure, raise, call, note, ◌>>=◌, ◌>>◌,
}

-- `set(names)`, as a list in which a name stands once.
unfoldable pub to_set : List Text → List Text
unfolding member
to_set [] = []
to_set (x ∷ xs) = if member x (to_set xs) then to_set xs else x ∷ to_set xs

-- This pool's registrations: the name begins with the pool's prefix and a dash.
unfoldable pub own_runners : Text → List RunnerInfo → List RunnerInfo
unfolding starts_with
own_runners prefix = keep (λ r. starts_with r.name (prefix ++ codes "-"))

unfoldable pub is_online : RunnerInfo → Bool
is_online r = is r.status "online"

unfoldable pub idle_count : Text → List RunnerInfo → ℕ
unfolding own_runners is_online
idle_count prefix runners = count_if (λ r. not r.busy) (keep is_online (own_runners prefix runners))

unfoldable pub busy_count : Text → List RunnerInfo → ℕ
unfolding own_runners is_online
busy_count prefix runners = count_if (λ r. r.busy) (keep is_online (own_runners prefix runners))

-- Registrations that GitHub lists offline and that no container stands behind.
unfoldable pub offline_runners : Text → List Text → List RunnerInfo → List RunnerInfo
unfolding own_runners member
offline_runners prefix running_names runners =
    keep (λ r. is r.status "offline" && not (member r.name running_names))
      (own_runners prefix runners)

-- `online_names | {runner.name for runner in runner_list if runner.busy}`
unfoldable pub alive_names : Text → List RunnerInfo → List Text
unfolding own_runners is_online
alive_names prefix runners =
    map (λ r. r.name) (keep is_online (own_runners prefix runners))
    ++ map (λ r. r.name) (keep (λ r. r.busy) runners)

-- `running_names & alive_names`
unfoldable pub spared_names : Text → List Text → List RunnerInfo → List Text
unfolding alive_names member
spared_names prefix running_names runners =
    keep (λ name. member name (alive_names prefix runners)) running_names

-- The registrations that `_record_runner_status` stores for the pool; the test has no dash.
unfoldable pub reported_runners : Text → List RunnerInfo → List RunnerInfo
unfolding starts_with
reported_runners prefix = keep (λ r. starts_with r.name prefix)

-- `not queued_min_age or age >= queued_min_age`
abbrev pub old_enough : ℤ → Age → Bool
old_enough min_age age = is_zero min_age || at_least min_age age

module _ {W : Type 0} (s : Services W) where
  -- A failed split counts as the solo path would, from the scan that is already there.
  unfoldable pub split_or_alone : PoolConfig → List Age → Call W ℕ
  split_or_alone pool ages world =
      let (outcome, after) = s.queue_input pool.name ages world in
      elim outcome [
        | returned n ↦ (returned n, after)
        | raised e ↦ (returned (count_if (old_enough pool.queued_min_age) ages), after)
      ]

  -- The queue's length and the jobs seen on the way.
  unfoldable pub federated_queue : PoolConfig → Method W (ℕ × List JobInfo)
  unfolding split_or_alone call ◌>>=◌
  federated_queue pool = do
    (ages, jobs) ← call (s.get_queued_ages pool)
    queued ← call (split_or_alone pool ages)
    pure (queued, jobs)

  unfoldable pub count_queue : PoolConfig → Bool → Method W (ℕ × List JobInfo)
  unfolding federated_queue call
  count_queue pool true = federated_queue pool
  count_queue pool false = call (s.get_queued_count pool)

  abbrev pub or_fail : Option (List RunnerInfo) → Method W (List RunnerInfo)
  or_fail none = raise failed
  or_fail (some runners) = pure runners

  unfoldable pub inspect_pool : PoolConfig → Bool → Method W PoolInspection
  unfolding count_queue call note ◌>>=◌ ◌>>◌ to_set idle_count busy_count offline_runners
      spared_names
  inspect_pool pool federated =
      let prefix = container_prefix pool in
      do
        call (s.cleanup_exited prefix)
        names ← call (s.running_containers prefix)
        let running_names = to_set names
        listed ← call (s.list_runners pool)
        runners ← or_fail listed
        note (s.record_runner_status pool.name (reported_runners prefix runners))
        call (s.cleanup_stuck prefix (spared_names prefix running_names runners) pool.stuck_timeout)
        (queued, jobs) ←
            (if federated then federated_queue pool else call (s.get_queued_count pool))
        note (s.record_jobs pool.name jobs)
        pure (record {
          pool = pool;
          running = length running_names;
          queued = queued;
          idle = idle_count prefix runners;
          busy = busy_count prefix runners;
          offline_runners = offline_runners prefix running_names runners;
        })
