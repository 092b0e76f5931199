-- ===== src/Lanes.antt =====
-- A bounded worker pool with one job for each lane: `TickLanes` of orchestrator/rorch/lanes.py. A
-- future is a number; the futures that are not done are kept with the lane of their job. Times are
-- whole seconds.
pub mod Single
use selfhosted_runner_swarm.Prelude.{
  ℕ, suc, ◌+◌, ◌≡◌, ◌==◌, Bool, true, false, not, ◌||◌, Option, none, some, List, [], ◌∷◌, map,
  if◌then◌else◌, keep, any,
}
use selfhosted_runner_swarm.Prelude.Text.{Text}
use selfhosted_runner_swarm.Prelude.Dict.{Dict, get, put, member, text_key}
use selfhosted_runner_swarm.Prelude.Sort.{sorted, text_leb}

-- A future and the time at which its job was submitted.
abbrev pub Started : Type 0
Started = ℕ × ℕ

pub record Lanes : Type 0 where
  -- `_running`
  pub running : Dict Text Started
  -- the futures that are not done, with their lanes
  pub unfinished : List (Text × ℕ)
  -- the number of the next future
  pub next_future : ℕ

unfoldable pub is_done : ℕ → Lanes → Bool
is_done future l = not (any (λ job. job.1 == future) l.unfinished)

-- `current is not None and not current[0].done()`
unfoldable pub is_busy : Text → Lanes → Bool
unfolding is_done get
is_busy lane l = elim (get lane l.running) [
  | none ↦ false
  | some (future, at) ↦ not (is_done future l)
]

-- Whether the job was started; `now` is the clock.
unfoldable pub submit : Text → ℕ → Lanes → Bool × Lanes
unfolding is_busy put
submit lane now l = if is_busy lane l then (false, l) else (
  true,
  record {
    running = put lane (l.next_future, now) l.running;
    unfinished = (lane, l.next_future) ∷ l.unfinished;
    next_future = suc l.next_future;
  },
)

-- The job returns or raises: its future is done.
unfoldable pub complete : ℕ → Lanes → Lanes
complete future l = record l { unfinished = keep (λ job. not (job.1 == future)) l.unfinished }

unfoldable pub busy_lanes : Lanes → List Text
unfolding is_done sorted text_leb
busy_lanes l =
    sorted text_leb (map (λ entry. entry.0) (keep (λ entry. not (is_done entry.1.0 l)) l.running))

-- Finished bookkeeping of lanes that no longer exist is dropped.
unfoldable pub forget_except : List Text → Lanes → Lanes
unfolding is_done member
forget_except lanes l = record l {
  running = keep (λ entry. member entry.0 lanes || not (is_done entry.1.0 l)) l.running;
}

pub data Step : Lanes → Lanes → Type 0 where
  submitted : (l : Lanes) (lane : Text) (now : ℕ) → Step l (submit lane now l).1
  completed : (l : Lanes) (future : ℕ) → Step l (complete future l)
  forgotten : (l : Lanes) (lanes : List Text) → Step l (forget_except lanes l)

pub data Reach : Lanes → Type 0 where
  opened : Reach (record { running = []; unfinished = []; next_future = 0 })
  stepped : {l m : Lanes} → Reach l → Step l m → Reach m
