-- ===== src/Scaler/Share.antt =====
-- How a personal account's capacity is shared out among its repositories: the middle of
-- `_tick_personal` of orchestrator/rorch/scaler.py.
pub mod Round
pub mod Fair
use selfhosted_runner_swarm.Prelude.{
  ℕ, zero, suc, ◌+◌, ◌-◌, Bool, true, false, ◌&&◌, ◌||◌, Option, none, some, List, [], ◌∷◌, map,
  leb, ltb, ◌==◌, if◌then◌else◌,
}
use selfhosted_runner_swarm.Prelude.Text.{Text}
use selfhosted_runner_swarm.Prelude.Dict.{Dict, get, put, text_key}
use selfhosted_runner_swarm.Prelude.Sort.{text_leb, sorted}
use selfhosted_runner_swarm.Scaler.Types.{PoolInspection}

-- `max(0, busy + queued - running)`
abbrev pub needed : PoolInspection → ℕ
needed i = i.busy + i.queued - i.running

abbrev pub repo_of : PoolInspection → Text
repo_of i = i.pool.repo

-- `allocations[repo]`; the dictionary holds every repository from the start.
unfoldable pub allotted : Dict Text ℕ → Text → ℕ
unfolding get
allotted d repo = elim (get repo d) [ none ↦ 0 | some n ↦ n ]

-- The key `(-queued, repo)`
unfoldable pub busier : PoolInspection → PoolInspection → Bool
unfolding text_leb
busier i j = ltb j.queued i.queued || (i.queued == j.queued && text_leb (repo_of i) (repo_of j))

pub record Shares : Type 0 where
  pub capacity : ℕ
  pub allocations : Dict Text ℕ
  pub allocated_in_round : Bool

-- One runner for the repository.
unfoldable pub allot : PoolInspection → Shares → Shares
unfolding allotted put
allot i s = record {
  capacity = s.capacity - 1;
  allocations = put (repo_of i) (allotted s.allocations (repo_of i) + 1) s.allocations;
  allocated_in_round = true;
}

-- The `for` loop, which breaks off when the capacity is used up.
unfoldable pub round : List PoolInspection → Shares → Shares
unfolding allot
round [] s = s
round (i ∷ rest) s =
    let skipped = round rest s in
    let given = round rest (allot i s) in
    if leb (needed i) (allotted s.allocations (repo_of i))
    then skipped
    else if s.capacity - 1 == 0
    then allot i s
    else given

-- The `while` loop; each round but the last uses up capacity, so that much fuel and one suffice.
unfoldable pub rounds : ℕ → List PoolInspection → Shares → Shares
unfolding round
rounds zero ordered s = s
rounds (suc fuel) ordered s =
    let t = round ordered (record s { allocated_in_round = false }) in
    let again = rounds fuel ordered t in
    if s.capacity == 0 then s else if t.allocated_in_round then again else t

unfoldable pub allocate : ℕ → List PoolInspection → Dict Text ℕ
unfolding rounds sorted busier
allocate capacity inspections =
    let start : Shares = record {
      capacity = capacity;
      allocations = map (λ i. (repo_of i, zero)) inspections;
      allocated_in_round = false;
    } in
    (rounds (suc capacity) (sorted busier inspections) start).allocations
