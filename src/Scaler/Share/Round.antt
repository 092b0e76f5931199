-- ===== src/Scaler/Share/Round.antt =====
-- One round of the sharing: every repository goes from level k to level k + 1, as far as the
-- capacity lasts.
use selfhosted_runner_swarm.Prelude.{
  ℕ, suc, ◌+◌, ◌-◌, ◌≤◌, ◌<◌, ◌≡◌, ◌≢◌, ◌⊎◌, inl, inr, refl, sym, ◌∙◌, min, true, List, [], ◌∷◌,
  leb, ◌==◌, arith, All, Distinct, sum_by, sum_by-eq, All-mono, All-both, Bool-cases, leb→le,
}
use selfhosted_runner_swarm.Prelude.Text.{Text, text_eq_iff}
use selfhosted_runner_swarm.Prelude.Dict.{get-put, text_key}
use selfhosted_runner_swarm.Scaler.Types.{PoolInspection}
use selfhosted_runner_swarm.Scaler.Share.{needed, repo_of, allotted, Shares, allot, round}

abbrev pub share : Shares → PoolInspection → ℕ
share s i = allotted s.allocations (repo_of i)

-- Everybody has k runners, or what it needs if that is less.
abbrev pub Level : ℕ → List PoolInspection → Shares → Type 0
Level k xs s = All (λ i. share s i ≡ min k (needed i)) xs

abbrev pub Between : ℕ → List PoolInspection → Shares → Type 0
Between k xs s = All (λ i. (share s i ≡ min k (needed i)) ⊎ (share s i ≡ min (suc k) (needed i))) xs

-- What a round from level k does.
pub record Rounded (k : ℕ) (xs : List PoolInspection) (s t : Shares) : Type 0 where
  pub total : t.capacity + sum_by (share t) xs ≡ s.capacity + sum_by (share s) xs
  pub others :
      (repo : Text)
      → All (λ i. repo ≢ repo_of i) xs
      → allotted t.allocations repo ≡ allotted s.allocations repo
  pub between : Between k xs t
  pub full : 0 < t.capacity → Level (suc k) xs t
  pub moved :
      ((t.allocated_in_round ≡ s.allocated_in_round)
        × (t.capacity ≡ s.capacity)
        × All (λ i. share t i ≡ needed i) xs)
      ⊎ ((t.allocated_in_round ≡ true) × (t.capacity < s.capacity))

allotted-allot_self :
    (i : PoolInspection) (s : Shares) → allotted (allot i s).allocations (repo_of i) ≡ share s i + 1
unfolding allot allotted
allotted-allot_self i s = ground (
  arith,
  get-put (repo_of i) (repo_of i) (share s i + 1) s.allocations,
  text_eq_iff (repo_of i) (repo_of i),
)

allotted-allot_ne :
    (i : PoolInspection) (s : Shares) (repo : Text)
    → repo ≢ repo_of i
    → allotted (allot i s).allocations repo ≡ allotted s.allocations repo
unfolding allot allotted
allotted-allot_ne i s repo h =
    ground
      (arith, get-put (repo_of i) repo (share s i + 1) s.allocations, text_eq_iff (repo_of i) repo)

capacity-allot : (i : PoolInspection) (s : Shares) → (allot i s).capacity ≡ s.capacity - 1
unfolding allot
capacity-allot i s = refl

allotted_in_round-allot : (i : PoolInspection) (s : Shares) → (allot i s).allocated_in_round ≡ true
unfolding allot
allotted_in_round-allot i s = refl

-- What another repository gets leaves these shares alone.
share-allot :
    (i : PoolInspection) (s : Shares) (xs : List PoolInspection)
    → All (λ j. repo_of i ≢ repo_of j) xs
    → All (λ j. share (allot i s) j ≡ share s j) xs
share-allot i s xs h =
    All-mono (λ j. repo_of i ≢ repo_of j) (λ j. share (allot i s) j ≡ share s j)
      (λ j ne. allotted-allot_ne i s (repo_of j) (λ e. ne (sym e))) xs h

keep-Level :
    (k : ℕ) (i : PoolInspection) (rest : List PoolInspection) (s : Shares)
    → All (λ j. repo_of i ≢ repo_of j) rest
    → Level k rest s
    → Level k rest (allot i s)
keep-Level k i rest s apart level =
    All-mono (λ j. (share (allot i s) j ≡ share s j) × (share s j ≡ min k (needed j)))
      (λ j. share (allot i s) j ≡ min k (needed j)) (λ j e. e.0 ∙ e.1) rest
      (All-both (λ j. share (allot i s) j ≡ share s j) (λ j. share s j ≡ min k (needed j)) rest
        (share-allot i s rest apart) level)

-- A repository that has what it needs is passed over.
skip-Rounded :
    (k : ℕ) (i : PoolInspection) (rest : List PoolInspection) (s t : Shares)
    → share s i ≡ min k (needed i)
    → needed i ≤ share s i
    → All (λ j. repo_of i ≢ repo_of j) rest
    → Rounded k rest s t
    → Rounded k (i ∷ rest) s t
skip-Rounded k i rest s t level enough apart r =
    let same = r.others (repo_of i) apart in
    record {
      total = omega (arith, r.total, same);
      others = λ repo h. r.others repo h.1;
      between = (inl (omega (arith, same, level)), r.between);
      full = λ h. (omega (arith, same, level, enough), r.full h);
      moved = elim r.moved [
        | inl (p, c, all) ↦ inl (p, c, (omega (arith, same, level, enough), all))
        | inr m ↦ inr m
      ];
    }

-- The last of the capacity goes to this repository, and the loop breaks off.
stop-Rounded :
    (k : ℕ) (i : PoolInspection) (rest : List PoolInspection) (s : Shares)
    → 0 < s.capacity
    → s.capacity - 1 ≡ 0
    → share s i ≡ min k (needed i)
    → share s i < needed i
    → Level k rest s
    → All (λ j. repo_of i ≢ repo_of j) rest
    → Rounded k (i ∷ rest) s (allot i s)
stop-Rounded k i rest s room last level wants below apart =
    let kept = share-allot i s rest apart in
    let sums = sum_by-eq (share (allot i s)) (share s) rest kept in
    record {
      total = omega (arith, allotted-allot_self i s, capacity-allot i s, sums);
      others = λ repo h. allotted-allot_ne i s repo h.0;
      between = (
        inr (omega (arith, allotted-allot_self i s, level)),
        All-mono (λ j. share (allot i s) j ≡ min k (needed j))
            (λ j.
              (share (allot i s) j ≡ min k (needed j))
              ⊎ (share (allot i s) j ≡ min (suc k) (needed j)))
            (λ j e. inl e) rest (keep-Level k i rest s apart below),
      );
      full = λ h. absurd (omega (arith, capacity-allot i s));
      moved = inr (allotted_in_round-allot i s, omega (arith, capacity-allot i s));
    }

-- This repository gets one, and the loop goes on.
give-Rounded :
    (k : ℕ) (i : PoolInspection) (rest : List PoolInspection) (s t : Shares)
    → 0 < s.capacity
    → share s i ≡ min k (needed i)
    → share s i < needed i
    → All (λ j. repo_of i ≢ repo_of j) rest
    → Rounded k rest (allot i s) t
    → Rounded k (i ∷ rest) s t
give-Rounded k i rest s t room level wants apart r =
    let same = r.others (repo_of i) apart in
    let sums = sum_by-eq (share (allot i s)) (share s) rest (share-allot i s rest apart) in
    let mine = allotted-allot_self i s in
    let cap = capacity-allot i s in
    record {
      total = omega (arith, r.total, same, sums, mine, cap);
      others = λ repo h. r.others repo h.1 ∙ allotted-allot_ne i s repo h.0;
      between = (inr (omega (arith, same, mine, level)), r.between);
      full = λ h. (omega (arith, same, mine, level), r.full h);
      moved = inr (elim r.moved [
        | inl (p, c, _) ↦ (p ∙ allotted_in_round-allot i s, omega (arith, c, cap))
        | inr (p, c) ↦ (p, omega (arith, c, cap))
      ]);
    }

pub round-Rounded :
    (k : ℕ) (xs : List PoolInspection) (s : Shares)
    → 0 < s.capacity
    → Distinct repo_of xs
    → Level k xs s
    → Rounded k xs s (round xs s)
unfolding round
round-Rounded k [] s room d level = record {
  total = refl;
  others = λ repo h. refl;
  between = tt;
  full = λ h. tt;
  moved = inl (refl, refl, tt);
}
round-Rounded k (i ∷ rest) s room d level = elim (Bool-cases (leb (needed i) (share s i))) [
  | inl enough ↦ rw enough (
      skip-Rounded k i rest s (round rest s) level.0 (leb→le (needed i) (share s i) enough) d.0
        (round-Rounded k rest s room d.1 level.1))
  | inr wants ↦ elim (Bool-cases (s.capacity - 1 == 0)) [
    | inl last ↦
        rw (wants, last)
          (stop-Rounded k i rest s room (ground arith) level.0 (ground arith) level.1 d.0)
    | inr more ↦
        rw (wants, more)
          (give-Rounded k i rest s (round rest (allot i s)) room level.0 (ground arith) d.0 (
            round-Rounded k rest (allot i s) (ground (arith, capacity-allot i s)) d.1
              (keep-Level k i rest s d.0 level.1)))
  ]
]
