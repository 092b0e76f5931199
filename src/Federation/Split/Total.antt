-- ===== src/Federation/Split/Total.antt =====
-- What the split hands out, in all and to each host.
use selfhosted_runner_swarm.Prelude.{
  ℕ, zero, suc, ◌+◌, ◌≤◌, ◌≡◌, refl, sym, ap, subst, ◌∙◌, min, List, [], ◌∷◌, map, In, All,
  Distinct, sum_by, sum_by-eq, sum_by-le, arith, All-In,
}
use selfhosted_runner_swarm.Prelude.Text.{Text, text_eq_iff}
use selfhosted_runner_swarm.Prelude.Dict.{Dict, get, put, text_key}
use selfhosted_runner_swarm.Prelude.Sort.{sorted, sum_by-sorted, Distinct-sorted, In-sorted}
use selfhosted_runner_swarm.Federation.Split.{
  Slot, by_name, share_in, open_slots, best_of, deal, split,
}
use selfhosted_runner_swarm.Federation.Split.Step.{
  share_in-put, one_more, best_of-In, open_slots-In, All-full, sum_by-one_more, All-within,
}

-- The loop on the whole list: it looks for open slots in all of them each time.
unfoldable deal_all : ℕ → List Slot → Dict Text ℕ → Dict Text ℕ
unfolding open_slots best_of share_in put
deal_all zero slots shares = shares
deal_all (suc queued) slots shares = elim (open_slots (share_in shares) slots) [
  | [] ↦ shares
  | s ∷ rest ↦
      let best = best_of (share_in shares) s rest in
      deal_all queued slots (put best.name (share_in shares best.name + 1) shares)
]

open_slots-twice :
    (share more : Text → ℕ) (xs : List Slot)
    → ((n : Text) → share n ≤ more n)
    → open_slots more (open_slots share xs) ≡ open_slots more xs
unfolding open_slots
open_slots-twice share more [] le = refl
open_slots-twice share more (x ∷ xs) le =
    ground (arith, le x.name, open_slots-twice share more xs le)

share_in-grows :
    (name : Text) (shares : Dict Text ℕ) (n : Text)
    → share_in shares n ≤ share_in (put name (share_in shares name + 1) shares) n
share_in-grows name shares n =
    ground (arith, share_in-put name n (share_in shares name + 1) shares, text_eq_iff name n)

-- The host that gets the next job, and the shares after it.
abbrev pub next : Dict Text ℕ → Slot → List Slot → Slot
next shares s rest = best_of (share_in shares) s rest

abbrev pub given : Dict Text ℕ → Slot → List Slot → Dict Text ℕ
given shares s rest =
    put (next shares s rest).name (share_in shares (next shares s rest).name + 1) shares

module _ (queued : ℕ) (slots : List Slot) (shares : Dict Text ℕ) where
  pub deal-none : open_slots (share_in shares) slots ≡ [] → deal (suc queued) slots shares ≡ shares
  unfolding deal
  deal-none e = rw (deal, e) refl

  pub deal-some :
      (s : Slot) (rest : List Slot)
      → open_slots (share_in shares) slots ≡ s ∷ rest
      → deal (suc queued) slots shares ≡ deal queued (s ∷ rest) (given shares s rest)
  unfolding deal
  deal-some s rest e = rw (deal, e) refl

  deal_all-none :
      open_slots (share_in shares) slots ≡ [] → deal_all (suc queued) slots shares ≡ shares
  unfolding deal_all
  deal_all-none e = rw (deal_all, e) refl

  deal_all-some :
      (s : Slot) (rest : List Slot)
      → open_slots (share_in shares) slots ≡ s ∷ rest
      → deal_all (suc queued) slots shares ≡ deal_all queued slots (given shares s rest)
  unfolding deal_all
  deal_all-some s rest e = rw (deal_all, e) refl

-- Dropping a full slot for good is the same as looking again each time.
deal≡deal_all :
    (queued : ℕ) (slots all_slots : List Slot) (shares : Dict Text ℕ)
    → ((more : Text → ℕ)
        → ((n : Text) → share_in shares n ≤ more n)
        → open_slots more slots ≡ open_slots more all_slots)
    → deal queued slots shares ≡ deal_all queued all_slots shares
unfolding deal deal_all
deal≡deal_all zero slots all_slots shares same = refl
deal≡deal_all (suc queued) slots all_slots shares same =
    by_open (λ l d. deal≡deal_all queued l all_slots d) (open_slots (share_in shares) all_slots)
      refl
  where
    now_same : open_slots (share_in shares) slots ≡ open_slots (share_in shares) all_slots
    now_same = same (share_in shares) (λ n. omega arith)

    by_open :
        ((l : List Slot) (d : Dict Text ℕ)
          → ((more : Text → ℕ)
              → ((n : Text) → share_in d n ≤ more n)
              → open_slots more l ≡ open_slots more all_slots)
          → deal queued l d ≡ deal_all queued all_slots d)
        → (o : List Slot) → open_slots (share_in shares) all_slots ≡ o
        → deal (suc queued) slots shares ≡ deal_all (suc queued) all_slots shares
    by_open ih [] e =
        deal-none queued slots shares (now_same ∙ e) ∙ sym (deal_all-none queued all_slots shares e)
    by_open ih (s ∷ rest) e =
        deal-some queued slots shares s rest (now_same ∙ e)
        ∙ (ih (s ∷ rest) (given shares s rest) (λ more le.
              ap (open_slots more) (sym e)
              ∙ open_slots-twice (share_in shares) more all_slots
                  (λ n. omega (arith, le n, share_in-grows (next shares s rest).name shares n)))
            ∙ sym (deal_all-some queued all_slots shares s rest e))

pub share_in-given :
    (b : Slot) (shares : Dict Text ℕ)
    → share_in (put b.name (share_in shares b.name + 1) shares) ≡ one_more b.name (share_in shares)
share_in-given b shares i n = share_in-put b.name n (share_in shares b.name + 1) shares i

record Dealt (queued : ℕ) (slots : List Slot) (before after : Dict Text ℕ) : Type 0 where
  within : All (λ s. share_in after s.name ≤ s.capacity) slots
  total :
      sum_by (λ s. share_in after s.name) slots
      ≡ min (queued + sum_by (λ s. share_in before s.name) slots) (sum_by (λ s. s.capacity) slots)

module _ (slots : List Slot) (distinct : Distinct (λ s. s.name) slots) where
  handed_on :
      (queued : ℕ) (shares : Dict Text ℕ) (b : Slot)
      → In b slots
      → (r : Dict Text ℕ) → Dealt queued slots (put b.name (share_in shares b.name + 1) shares) r
      → Dealt (suc queued) slots shares r
  handed_on queued shares b m r d =
      let after = put b.name (share_in shares b.name + 1) shares in
      record {
        within = d.within;
        total = omega (
          arith,
          d.total,
          sum_by-one_more b (share_in shares) slots m distinct,
          ap (λ (f : Text → ℕ). sum_by (λ s. f s.name) slots) (share_in-given b shares),
        );
      }

  deal_all-Dealt :
      (queued : ℕ) (shares : Dict Text ℕ)
      → All (λ s. share_in shares s.name ≤ s.capacity) slots
      → Dealt queued slots shares (deal_all queued slots shares)
  unfolding deal_all
  deal_all-Dealt zero shares h = record {
    within = h;
    total = omega (arith, sum_by-le (λ s. share_in shares s.name) (λ s. s.capacity) slots h);
  }
  deal_all-Dealt (suc queued) shares h =
      by_open (deal_all-Dealt queued) (open_slots (share_in shares) slots) refl
    where
      by_open :
          ((d : Dict Text ℕ)
            → All (λ s. share_in d s.name ≤ s.capacity) slots
            → Dealt queued slots d (deal_all queued slots d))
          → (o : List Slot) → open_slots (share_in shares) slots ≡ o
          → Dealt (suc queued) slots shares (deal_all (suc queued) slots shares)
      by_open ih [] e =
          subst (Dealt (suc queued) slots shares) (sym (deal_all-none queued slots shares e))
            (record {
              within = h;
              total = omega (
                arith,
                sum_by-eq (λ s. share_in shares s.name) (λ s. s.capacity) slots
                    (All-full (share_in shares) slots e h),
              );
            })
      by_open ih (s ∷ rest) e =
          let b = next shares s rest in
          let open_one : In b (open_slots (share_in shares) slots) =
            subst (In b) (sym e) (best_of-In (share_in shares) s rest) in
          let (m, room) = open_slots-In (share_in shares) b slots open_one in
          subst (Dealt (suc queued) slots shares) (sym (deal_all-some queued slots shares s rest e))
            (handed_on queued shares b m (deal_all queued slots (given shares s rest)) (
              ih (given shares s rest) (
                subst (λ f. All (λ s. f s.name ≤ s.capacity) slots) (sym (share_in-given b shares))
                  (All-within b (share_in shares) slots room h m distinct))))

pub share_in-zeros : (xs : List Slot) (n : Text) → share_in (map (λ s. (s.name, zero)) xs) n ≡ 0
unfolding share_in get
share_in-zeros [] n = refl
share_in-zeros (x ∷ xs) n = ground (arith, share_in-zeros xs n)

All-within_zeros :
    (xs ys : List Slot)
    → All (λ s. share_in (map (λ s'. (s'.name, zero)) xs) s.name ≤ s.capacity) ys
All-within_zeros xs [] = tt
All-within_zeros xs (y ∷ ys) = (omega (arith, share_in-zeros xs y.name), All-within_zeros xs ys)

sum_by-zeros :
    (xs ys : List Slot) → sum_by (λ s. share_in (map (λ s'. (s'.name, zero)) xs) s.name) ys ≡ 0
sum_by-zeros xs [] = refl
sum_by-zeros xs (y ∷ ys) = omega (arith, share_in-zeros xs y.name, sum_by-zeros xs ys)

module _ (queued : ℕ) (slots : List Slot) (distinct : Distinct (λ s. s.name) slots) where
  split-Dealt :
      Dealt queued (sorted by_name slots) (map (λ s. (s.name, zero)) slots) (split queued slots)
  unfolding split
  split-Dealt =
      let start = map (λ (s : Slot). (s.name, zero)) slots in
      subst (Dealt queued (sorted by_name slots) start)
        (sym (
          deal≡deal_all queued (sorted by_name slots) (sorted by_name slots) start
            (λ more le. refl)))
        (deal_all-Dealt (sorted by_name slots)
          (Distinct-sorted by_name (λ s. s.name) slots distinct) queued start
          (All-within_zeros slots (sorted by_name slots)))

  -- For hosts with different names, the shares add up to the number of queued jobs, or to what all
  -- hosts can take if that is less, and no host in the list gets more than it can take.
  pub split_total :
      (sum_by (λ s. share_in (split queued slots) s.name) slots
        ≡ min queued (sum_by (λ s. s.capacity) slots))
      × ((s : Slot) → In s slots → share_in (split queued slots) s.name ≤ s.capacity)
  split_total = (
    omega (
      arith,
      split-Dealt.total,
      sum_by-zeros slots (sorted by_name slots),
      sum_by-sorted by_name (λ s. share_in (split queued slots) s.name) slots,
      sum_by-sorted by_name (λ s. s.capacity) slots,
    ),
    λ s m.
        All-In (λ s'. share_in (split queued slots) s'.name ≤ s'.capacity) s (sorted by_name slots)
          split-Dealt.within (In-sorted by_name s slots m),
  )
