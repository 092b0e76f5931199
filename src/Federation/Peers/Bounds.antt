-- ===== src/Federation/Peers/Bounds.antt =====
-- The bounds of the stored peer snapshots and of the jobs that a host counts.
use selfhosted_runner_swarm.Prelude.{
  ℕ, zero, suc, ◌+◌, ◌≤◌, ◌≡◌, refl, max, Bool, true, false, Option, none, some, List, [], ◌∷◌, map,
  if◌then◌else◌, length, count_if, arith, Bool-cases, inl, inr, All,
}
use selfhosted_runner_swarm.Prelude.Int.{ℤ}
use selfhosted_runner_swarm.Prelude.Text.{Text, text_eq, text_eq_iff}
use selfhosted_runner_swarm.Prelude.Dict.{Dict, get, put, text_key}
use selfhosted_runner_swarm.Prelude.Sort.{sorted}
use selfhosted_runner_swarm.Scaler.Types.{Age, at_least}
use selfhosted_runner_swarm.Federation.Settings.{PeerConfig}
use selfhosted_runner_swarm.Federation.Snapshot.{Json, Snapshot, validate_snapshot}
use selfhosted_runner_swarm.Federation.Snapshot.Bounds.{
  BoundedSnapshot, IfAccepted, validate_snapshot-Bounded,
}
use selfhosted_runner_swarm.Federation.Split.{Slot, by_name, share_in, open_slots, deal, split}
use selfhosted_runner_swarm.Federation.Split.Step.{share_in-put}
use selfhosted_runner_swarm.Federation.Split.Total.{
  deal-none, deal-some, next, given, share_in-zeros,
}
use selfhosted_runner_swarm.Federation.Peers.{
  PeerView, Federation, view_after, refresh_peers, refresh, slots_for, known, own_name, fresh_peers,
  is_hot, shares_of, rescued, queue_input,
}

abbrev pub BoundedView : PeerView → Type 0
BoundedView view = IfAccepted BoundedSnapshot view.snapshot

abbrev pub BoundedPeers : Dict Text PeerView → Type 0
BoundedPeers = All (λ entry. BoundedView entry.1)

abbrev IfPresent : Option PeerView → Type 0
IfPresent none = Unit
IfPresent (some view) = BoundedView view

get-Bounded : (name : Text) (d : Dict Text PeerView) → BoundedPeers d → IfPresent (get name d)
unfolding get
get-Bounded name [] h = tt
get-Bounded name ((k, v) ∷ d) h = elim (Bool-cases (text_eq k name)) [
  | inl e ↦ rw e h.0
  | inr e ↦ rw e (get-Bounded name d h.1)
]

put-BoundedPeers :
    (name : Text) (view : PeerView) (d : Dict Text PeerView)
    → BoundedView view
    → BoundedPeers d
    → BoundedPeers (put name view d)
unfolding put
put-BoundedPeers name view [] b h = (b, tt)
put-BoundedPeers name view ((k, v) ∷ d) b h = elim (Bool-cases (text_eq k name)) [
  | inl e ↦ rw e (b, h.1)
  | inr e ↦ rw e (h.0, put-BoundedPeers name view d b h.1)
]

module _ (str : Json → Text) where
  view_after-Bounded :
      (old : Option PeerView) (answer : Option Json) (now : ℕ)
      → IfPresent old
      → BoundedView (view_after str old answer now)
  unfolding view_after
  view_after-Bounded none none now h = tt
  view_after-Bounded (some view) none now h = h
  view_after-Bounded old (some answer) now h =
      by_outcome old h (validate_snapshot str answer) refl (validate_snapshot-Bounded str answer)
    where
      by_outcome :
          (old' : Option PeerView)
          → IfPresent old'
          → (o : Option Snapshot) → validate_snapshot str answer ≡ o
          → IfAccepted BoundedSnapshot o
          → BoundedView (view_after str old' (some answer) now)
      by_outcome none h' none e b = rw (view_after, e) tt
      by_outcome (some view) h' none e b = rw (view_after, e) h'
      by_outcome none h' (some s) e b = rw (view_after, e) b
      by_outcome (some view) h' (some s) e b = rw (view_after, e) b

  refresh_peers-Bounded :
      (fetch : PeerConfig → Option Json) (clock : PeerConfig → ℕ) (ps : List PeerConfig)
      (views : Dict Text PeerView)
      → BoundedPeers views
      → BoundedPeers (refresh_peers str fetch clock ps views)
  unfolding refresh_peers
  refresh_peers-Bounded fetch clock [] views h = h
  refresh_peers-Bounded fetch clock (p ∷ ps) views h =
      refresh_peers-Bounded fetch clock ps
        (put p.name (view_after str (get p.name views) (fetch p) (clock p)) views)
        (put-BoundedPeers p.name (view_after str (get p.name views) (fetch p) (clock p)) views
          (view_after-Bounded (get p.name views) (fetch p) (clock p) (get-Bounded p.name views h))
          h)

  -- If every snapshot that a host holds of its peers is within the bounds, then so is every one after
  -- a refresh, whatever the peers answer and whichever of them cannot be reached.
  pub refresh_keeps_bounded :
      (own : Snapshot) (fetch : PeerConfig → Option Json) (clock : PeerConfig → ℕ) (f : Federation)
      → BoundedPeers f.peers
      → BoundedPeers (refresh str own fetch clock f).peers
  unfolding refresh
  refresh_keeps_bounded own fetch clock f h =
      refresh_peers-Bounded fetch clock f.config.peers f.peers h

deal_le :
    (queued : ℕ) (slots : List Slot) (shares : Dict Text ℕ) (name : Text)
    → share_in (deal queued slots shares) name ≤ share_in shares name + queued
unfolding deal
deal_le zero slots shares name = omega arith
deal_le (suc queued) slots shares name =
    by_open (λ l d. deal_le queued l d name) (open_slots (share_in shares) slots) refl
  where
    by_open :
        ((l : List Slot) (d : Dict Text ℕ)
          → share_in (deal queued l d) name ≤ share_in d name + queued)
        → (o : List Slot) → open_slots (share_in shares) slots ≡ o
        → share_in (deal (suc queued) slots shares) name ≤ share_in shares name + suc queued
    by_open ih [] e = rw (deal-none queued slots shares e) (omega arith)
    by_open ih (s ∷ rest) e =
        let best = next shares s rest in
        rw (deal-some queued slots shares s rest e) (
          ground (
            arith,
            ih (s ∷ rest) (given shares s rest),
            share_in-put best.name name (share_in shares best.name + 1) shares,
            text_eq_iff best.name name,
          ))

split_le :
    (queued : ℕ) (slots : List Slot) (name : Text) → share_in (split queued slots) name ≤ queued
unfolding split
split_le queued slots name = omega (
  arith,
  deal_le queued (sorted by_name slots) (map (λ s. (s.name, zero)) slots) name,
  share_in-zeros slots name,
)

count_if_le : {A : Type 0} (p : A → Bool) (xs : List A) → count_if p xs ≤ length xs
count_if_le p [] = omega arith
count_if_le p (x ∷ xs) = ground (arith, count_if_le p xs)

shares_of_le :
    (now : ℕ) (f : Federation) (pool : Text) (ages : List Age) (name : Text)
    → share_in (shares_of now f pool ages) name ≤ length ages
unfolding shares_of
shares_of_le now f pool ages name =
    split_le (length ages) (slots_for pool f.config.max_temp_c (known f.own (fresh_peers now f)))
      name

rescued_le : (rescue_after : ℤ) (ages : List Age) → rescued rescue_after ages ≤ length ages
unfolding rescued
rescued_le rescue_after ages = count_if_le (at_least rescue_after) ages

between :
    (hot : Bool) (mine rescue total : ℕ)
    → mine ≤ total
    → rescue ≤ total
    → ((if hot then 0 else max mine rescue) ≤ total)
      × ((hot ≡ true → (if hot then 0 else max mine rescue) ≡ 0)
          × (hot ≡ false → rescue ≤ (if hot then 0 else max mine rescue)))
between hot mine rescue total m r = ground arith

-- A host counts at most the jobs that are queued; while it is too hot it counts none, and otherwise
-- at least those that have waited for the rescue time.
pub queue_input_between :
    (now : ℕ) (f : Federation) (pool : Text) (ages : List Age)
    → ((queue_input now f pool ages).0 ≤ length ages)
      × ((is_hot f ≡ true → (queue_input now f pool ages).0 ≡ 0)
          × (is_hot f ≡ false
              → rescued f.config.rescue_after_seconds ages ≤ (queue_input now f pool ages).0))
unfolding queue_input
queue_input_between now f pool ages =
    between (is_hot f) (share_in (shares_of now f pool ages) (own_name f.own))
      (rescued f.config.rescue_after_seconds ages) (length ages)
      (shares_of_le now f pool ages (own_name f.own))
      (rescued_le f.config.rescue_after_seconds ages)
