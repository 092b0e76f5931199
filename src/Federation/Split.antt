-- ===== src/Federation/Split.antt =====
-- The split of a queue over hosts: `Slot` and `split` of orchestrator/rorch/federation.py. The
-- quotients that Python compares are ratios of numbers below 2 ^ 20, whose order a double keeps, so
-- they are compared here by products.
pub mod Step
pub mod Total
pub mod Order
use selfhosted_runner_swarm.Prelude.{
  ℕ, zero, suc, ◌+◌, ◌*◌, Bool, true, false, Option, none, some, List, [], ◌∷◌, map, keep, ltb,
  if◌then◌else◌,
}
use selfhosted_runner_swarm.Prelude.Text.{Text}
use selfhosted_runner_swarm.Prelude.Dict.{Dict, get, put, text_key}
use selfhosted_runner_swarm.Prelude.Sort.{sorted, text_leb}

-- One host's standing for one pool.
pub record Slot : Type 0 where
  pub name : Text
  pub free_cores : ℕ
  pub capacity : ℕ

unfoldable pub by_name : Slot → Slot → Bool
unfolding text_leb
by_name a b = text_leb a.name b.name

unfoldable pub share_in : Dict Text ℕ → Text → ℕ
unfolding get
share_in shares name = elim (get name shares) [ none ↦ 0 | some n ↦ n ]

unfoldable pub open_slots : (Text → ℕ) → List Slot → List Slot
open_slots share = keep (λ s. ltb (share s.name) s.capacity)

-- `(a.free_cores + 1) / (share(a) + 1) < (b.free_cores + 1) / (share(b) + 1)`
unfoldable pub freer : (Text → ℕ) → Slot → Slot → Bool
freer share a b =
    ltb ((a.free_cores + 1) * (share b.name + 1)) ((b.free_cores + 1) * (share a.name + 1))

-- `max(…)`, which keeps the first of equals.
unfoldable pub best_of : (Text → ℕ) → Slot → List Slot → Slot
unfolding freer
best_of share best [] = best
best_of share best (s ∷ rest) =
    if freer share best s then best_of share s rest else best_of share best rest

-- The `for` loop: one job in each pass, until no slot is open.
unfoldable pub deal : ℕ → List Slot → Dict Text ℕ → Dict Text ℕ
unfolding open_slots best_of share_in put
deal zero slots shares = shares
deal (suc queued) slots shares = elim (open_slots (share_in shares) slots) [
  | [] ↦ shares
  | s ∷ rest ↦
      let best = best_of (share_in shares) s rest in
      deal queued (s ∷ rest) (put best.name (share_in shares best.name + 1) shares)
]

-- `split(queued, slots)`: each host's share.
unfoldable pub split : ℕ → List Slot → Dict Text ℕ
unfolding deal sorted by_name
split queued slots = deal queued (sorted by_name slots) (map (λ s. (s.name, zero)) slots)
