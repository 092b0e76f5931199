-- ===== src/Scaler/Share/Fair.antt =====
-- The outcome of the sharing: how much of the capacity is used, and how evenly.
use mathlib.Core.Bool.{true≢false}
use selfhosted_runner_swarm.Prelude.{
  subst, ℕ, zero, suc, ◌+◌, ◌≤◌, ◌<◌, ◌≡◌, ◌⊎◌, inl, inr, refl, sym, ◌∙◌, min, true, false, List,
  [], ◌∷◌, map, ◌==◌, arith, All, In, All-In, Distinct, sum_by, sum_by-eq, sum_by-le, All-mono,
  Bool-cases,
}
use selfhosted_runner_swarm.Prelude.Text.{Text}
use selfhosted_runner_swarm.Prelude.Dict.{text_key}
use selfhosted_runner_swarm.Prelude.Sort.{sorted, sum_by-sorted, In-sorted, Distinct-sorted}
use selfhosted_runner_swarm.Scaler.Types.{PoolInspection}
use selfhosted_runner_swarm.Scaler.Share.{
  needed, repo_of, allotted, busier, Shares, round, rounds, allocate,
}
use selfhosted_runner_swarm.Scaler.Share.Round.{share, Level, Between, Rounded, round-Rounded}

-- The loop has ended: of `total`, what is not left over is shared out evenly, and something is
-- left over only if nobody needs more.
record Shared (total : ℕ) (xs : List PoolInspection) (t : Shares) : Type 0 where
  even : (k : ℕ) × Between k xs t
  spent : t.capacity + sum_by (share t) xs ≡ total
  done : (t.capacity ≡ 0) ⊎ All (λ i. share t i ≡ needed i) xs

went_on :
    {k : ℕ} (xs : List PoolInspection) (s t : Shares)
    → Rounded k xs s t
    → s.allocated_in_round ≡ false
    → t.allocated_in_round ≡ true
    → t.capacity < s.capacity
went_on xs s t r e f = elim r.moved [
  | inl (p, _, _) ↦ absurd (true≢false (sym f ∙ (p ∙ e)))
  | inr (_, c) ↦ c
]

came_to_rest :
    {k : ℕ} (xs : List PoolInspection) (s t : Shares)
    → Rounded k xs s t
    → t.allocated_in_round ≡ false
    → All (λ i. share t i ≡ needed i) xs
came_to_rest xs s t r f = elim r.moved [
  | inl (_, _, all) ↦ all
  | inr (p, _) ↦ absurd (true≢false (sym p ∙ f))
]

rounds-Shared :
    (fuel j k : ℕ) (xs : List PoolInspection) (s : Shares)
    → s.capacity < fuel
    → Distinct repo_of xs
    → Between j xs s
    → (0 < s.capacity → Level k xs s)
    → Shared (s.capacity + sum_by (share s) xs) xs (rounds fuel xs s)
unfolding rounds
rounds-Shared zero j k xs s enough d between level = absurd (omega arith)
rounds-Shared (suc fuel) j k xs s enough d between level = elim (Bool-cases (s.capacity == 0)) [
  | inl empty ↦ rw empty (record { even = (j, between); spent = refl; done = inl (ground arith) })
  | inr left ↦
      let fresh : Shares = record s { allocated_in_round = false } in
      let t = round xs fresh in
      let r = round-Rounded k xs fresh (ground arith) d (level (ground arith)) in
      elim (Bool-cases t.allocated_in_round) [
        | inl again ↦
            rw (left, again)
              (subst (λ n. Shared n xs (rounds fuel xs t)) r.total
                (rounds-Shared fuel k (suc k) xs t (omega (arith, went_on xs fresh t r refl again))
                  d r.between r.full))
        | inr stopped ↦
            rw (left, stopped)
              (record {
                even = (k, r.between);
                spent = r.total;
                done = inr (came_to_rest xs fresh t r stopped);
              })
      ]
]

pub none_yet :
    (xs : List PoolInspection) (repo : Text) → allotted (map (λ i. (repo_of i, zero)) xs) repo ≡ 0
unfolding allotted
none_yet [] repo = refl
none_yet (i ∷ xs) repo = ground (arith, none_yet xs repo)

sum_by-zero :
    (f : PoolInspection → ℕ) (xs : List PoolInspection)
    → ((i : PoolInspection) → f i ≡ 0)
    → sum_by f xs ≡ 0
sum_by-zero f [] h = refl
sum_by-zero f (i ∷ xs) h = omega (arith, h i, sum_by-zero f xs h)

All-of {ℓ} : {A : Type 0} (P : A → Type ℓ) (xs : List A) → ((a : A) → P a) → All P xs
All-of P [] h = tt
All-of P (x ∷ xs) h = (h x, All-of P xs h)

module _ (capacity : ℕ) (inspections : List PoolInspection)
    (distinct : Distinct repo_of inspections) where
  abbrev start : Shares
  start = record {
    capacity = capacity;
    allocations = map (λ i. (repo_of i, zero)) inspections;
    allocated_in_round = false;
  }

  abbrev ordered : List PoolInspection
  ordered = sorted busier inspections

  outcome :
      Shared (capacity + sum_by (share start) ordered) ordered (rounds (suc capacity) ordered start)
  outcome =
      let level : Level 0 ordered start =
        All-of (λ i. share start i ≡ min 0 (needed i)) ordered
          (λ i. omega (arith, none_yet inspections (repo_of i))) in
      rounds-Shared (suc capacity) 0 0 ordered start (omega arith)
        (Distinct-sorted busier repo_of inspections distinct)
        (All-mono (λ i. share start i ≡ min 0 (needed i))
          (λ i. (share start i ≡ min 0 (needed i)) ⊎ (share start i ≡ min 1 (needed i)))
          (λ i e. inl e) ordered level)
        (λ _. level)

  abbrev gets : PoolInspection → ℕ
  gets i = allotted (allocate capacity inspections) (repo_of i)

  within_need : All (λ i. gets i ≤ needed i) ordered
  unfolding allocate
  within_need =
      let (k, between) = outcome.even in
      All-mono (λ i. (gets i ≡ min k (needed i)) ⊎ (gets i ≡ min (suc k) (needed i)))
        (λ i. gets i ≤ needed i) (λ i e. omega arith) ordered between

  nothing_at_first : sum_by (share start) ordered ≡ 0
  nothing_at_first = sum_by-zero (share start) ordered (λ i. none_yet inspections (repo_of i))

  sum_gets-ordered : sum_by gets ordered ≡ min capacity (sum_by needed ordered)
  unfolding allocate
  sum_gets-ordered =
      let below = sum_by-le gets needed ordered within_need in
      elim outcome.done [
        | inl used ↦ omega (arith, outcome.spent, used, below, nothing_at_first)
        | inr met ↦
            omega (arith, outcome.spent, sum_by-eq gets needed ordered met, nothing_at_first)
      ]

  -- For repositories with different names, the shares add up to the capacity, or to the whole need
  -- if that is less.
  pub sum_by-allocate : sum_by gets inspections ≡ min capacity (sum_by needed inspections)
  sum_by-allocate = omega (
    arith,
    sum_gets-ordered,
    sum_by-sorted busier gets inspections,
    sum_by-sorted busier needed inspections,
  )

  -- For repositories with different names, none gets more than it needs, and none gets two runners
  -- more than another that still needs one.
  pub allocate_even :
      (i j : PoolInspection)
      → In i inspections
      → In j inspections
      → (gets i ≤ needed i) × (gets j < needed j → gets i ≤ gets j + 1)
  unfolding allocate
  allocate_even i j m n =
      let (k, between) = outcome.even in
      let at = λ (a : PoolInspection) (q : In a inspections).
        All-In (λ a. (gets a ≡ min k (needed a)) ⊎ (gets a ≡ min (suc k) (needed a))) a ordered
          between (In-sorted busier a inspections q) in
      let mine = at i m in let other = at j n in (omega arith, λ wants. omega arith)
