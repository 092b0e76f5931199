-- ===== src/Federation/Split/Step.antt =====
-- One pass of the split: where the job goes, and what it does to the sums.
use selfhosted_runner_swarm.Prelude.{
  ℕ, suc, ◌+◌, ◌≤◌, ◌<◌, ◌≡◌, ◌≢◌, ◌⊎◌, inl, inr, refl, sym, ap, subst, List, [], ◌∷◌, ltb,
  if◌then◌else◌, In, All, Distinct, sum_by, arith, Bool-cases, ltb→lt, All-In,
}
use selfhosted_runner_swarm.Prelude.Text.{Text, text_eq, text_eq_iff}
use selfhosted_runner_swarm.Prelude.Dict.{Dict, put, get-put, text_key}
use selfhosted_runner_swarm.Federation.Split.{Slot, share_in, open_slots, freer, best_of}

pub share_in-put :
    (n m : Text) (v : ℕ) (d : Dict Text ℕ)
    → share_in (put n v d) m ≡ (if text_eq n m then v else share_in d m)
unfolding share_in
share_in-put n m v d = ground (arith, get-put n m v d)

-- The shares of all hosts after one more job for the host.
abbrev pub one_more : Text → (Text → ℕ) → Text → ℕ
one_more name share other = if text_eq name other then share name + 1 else share other

pub best_of-In : (share : Text → ℕ) (b : Slot) (xs : List Slot) → In (best_of share b xs) (b ∷ xs)
unfolding best_of
best_of-In share b [] = inl refl
best_of-In share b (x ∷ xs) = elim (Bool-cases (freer share b x)) [
  | inl e ↦
      let here : best_of share b (x ∷ xs) ≡ best_of share x xs = rw e refl in
      subst (λ y. In y (b ∷ x ∷ xs)) (sym here) (inr (best_of-In share x xs))
  | inr e ↦
      let here : best_of share b (x ∷ xs) ≡ best_of share b xs = rw e refl in
      subst (λ y. In y (b ∷ x ∷ xs)) (sym here)
        (elim (best_of-In share b xs) [ inl first ↦ inl first | inr later ↦ inr (inr later) ])
]

-- An open slot stands in the list, and has room.
pub open_slots-In :
    (share : Text → ℕ) (s : Slot) (xs : List Slot)
    → In s (open_slots share xs)
    → In s xs × (share s.name < s.capacity)
unfolding open_slots
open_slots-In share s [] m = elim m [ ]
open_slots-In share s (x ∷ xs) m = elim (Bool-cases (ltb (share x.name) x.capacity)) [
  | inl e ↦
      let n : (x ≡ s) ⊎ In s (open_slots share xs) =
        subst (λ b. In s (if b then x ∷ open_slots share xs else open_slots share xs)) e m in
      elim n [
        | inl here ↦ (
          inl here,
          subst (λ y. share y.name < y.capacity) here (ltb→lt (share x.name) x.capacity e),
        )
        | inr later ↦ (inr (open_slots-In share s xs later).0, (open_slots-In share s xs later).1)
      ]
  | inr e ↦
      let n : In s (open_slots share xs) =
        subst (λ b. In s (if b then x ∷ open_slots share xs else open_slots share xs)) e m in
      (inr (open_slots-In share s xs n).0, (open_slots-In share s xs n).1)
]

-- Where no slot is open, every host has what it can take.
pub All-full :
    (share : Text → ℕ) (xs : List Slot)
    → open_slots share xs ≡ []
    → All (λ s. share s.name ≤ s.capacity) xs
    → All (λ s. share s.name ≡ s.capacity) xs
unfolding open_slots
All-full share [] e h = tt
All-full share (x ∷ xs) e h = ground (arith, All-full share xs)

sum_by-others :
    (name : Text) (share : Text → ℕ) (xs : List Slot)
    → All (λ s. name ≢ s.name) xs
    → sum_by (λ s. one_more name share s.name) xs ≡ sum_by (λ s. share s.name) xs
sum_by-others name share [] h = refl
sum_by-others name share (x ∷ xs) h =
    ground (arith, text_eq_iff name x.name, sum_by-others name share xs)

-- One more job for one of the hosts is one more job in all.
pub sum_by-one_more :
    (b : Slot) (share : Text → ℕ) (xs : List Slot)
    → In b xs
    → Distinct (λ s. s.name) xs
    → sum_by (λ s. one_more b.name share s.name) xs ≡ suc (sum_by (λ s. share s.name) xs)
sum_by-one_more b share [] m d = elim m [ ]
sum_by-one_more b share (x ∷ xs) (inl e) d =
    let d' = subst (λ y. All (λ s. y.name ≢ s.name) xs) e d.0 in
    ground (arith, text_eq_iff b.name x.name, sum_by-others b.name share xs d', ap (λ y. y.name) e)
sum_by-one_more b share (x ∷ xs) (inr m) d =
    let differs : x.name ≢ b.name = All-In (λ s. x.name ≢ s.name) b xs d.0 m in
    ground (arith, text_eq_iff b.name x.name, sum_by-one_more b share xs m d.1, differs)

within_others :
    (name : Text) (share : Text → ℕ) (xs : List Slot)
    → All (λ s. name ≢ s.name) xs
    → All (λ s. share s.name ≤ s.capacity) xs
    → All (λ s. one_more name share s.name ≤ s.capacity) xs
within_others name share [] d h = tt
within_others name share (x ∷ xs) d h =
    (ground (arith, text_eq_iff name x.name, d.0, h.0), within_others name share xs d.1 h.1)

-- One more job for a host with room leaves every host within its capacity.
pub All-within :
    (b : Slot) (share : Text → ℕ) (xs : List Slot)
    → share b.name < b.capacity
    → All (λ s. share s.name ≤ s.capacity) xs
    → In b xs
    → Distinct (λ s. s.name) xs
    → All (λ s. one_more b.name share s.name ≤ s.capacity) xs
All-within b share [] room h m d = tt
All-within b share (x ∷ xs) room h (inl e) d = (
  subst (λ y. one_more b.name share y.name ≤ y.capacity) (sym e)
      (ground (arith, text_eq_iff b.name b.name)),
  within_others b.name share xs (subst (λ y. All (λ s. y.name ≢ s.name) xs) e d.0) h.1,
)
All-within b share (x ∷ xs) room h (inr m) d =
    let differs : x.name ≢ b.name = All-In (λ s. x.name ≢ s.name) b xs d.0 m in
    (ground (arith, text_eq_iff b.name x.name, differs, h.0), All-within b share xs room h.1 m d.1)
