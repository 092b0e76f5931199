-- ===== src/Federation/Peers.antt =====
-- A host's standing and what it takes from the queue: `slot_for` and the class `Federation` of
-- orchestrator/rorch/federation.py. What a peer answers and the clock are arguments; the text of a
-- peer's error is left out, only whether there is one is kept.
pub mod Bounds
use selfhosted_runner_swarm.Prelude.{
  ℕ, zero, suc, ◌+◌, ◌-◌, max, Bool, true, false, not, ◌&&◌, Option, none, some, List, [], ◌∷◌, map,
  keep, any, count_if, if◌then◌else◌, length, leb,
}
use selfhosted_runner_swarm.Prelude.Int.{ℤ, pos, pos_part, leb_ℤ, min_ℤ, ◌-ℤ◌}
use selfhosted_runner_swarm.Prelude.Text.{Text, text_eq}
use selfhosted_runner_swarm.Prelude.Dict.{Dict, get, put, has, text_key}
use selfhosted_runner_swarm.Scaler.Types.{Age, at_least}
use selfhosted_runner_swarm.Federation.Settings.{PeerConfig, FederationConfig}
use selfhosted_runner_swarm.Federation.Snapshot.{
  Json, Snapshot, PoolLoad, HostMetrics, validate_snapshot,
}
use selfhosted_runner_swarm.Federation.Split.{Slot, share_in, split}

-- `temp is not None and float(temp) >= max_temp_c`
unfoldable pub too_hot : ℤ → Option ℤ → Bool
too_hot max_temp none = false
too_hot max_temp (some temp) = leb_ℤ max_temp temp

abbrev within_free : Option ℕ → PoolLoad → ℤ → ℤ
within_free none load capacity = capacity
within_free (some free) load capacity = min_ℤ capacity (pos (free + load.running) -ℤ pos load.busy)

unfoldable pub slot_of : Snapshot → ℤ → PoolLoad → Slot
unfolding too_hot ◌-ℤ◌
slot_of s max_temp load = record {
  name = s.instance_name;
  free_cores = s.host.free_cores;
  capacity =
      if too_hot max_temp s.host.temp_c
      then 0
      else pos_part (within_free s.global_free load (pos load.max_runners -ℤ pos load.busy));
}

unfoldable pub slot_for : Snapshot → Text → ℤ → Option Slot
unfolding get slot_of
slot_for s pool max_temp = elim (get pool s.pools) [
  | none ↦ none
  | some load ↦ some (slot_of s max_temp load)
]

pub record PeerView : Type 0 where
  pub snapshot : Option Snapshot
  pub ok_at : ℕ
  pub has_error : Bool

pub record Federation : Type 0 where
  pub config : FederationConfig
  pub own : Option Snapshot
  pub peers : Dict Text PeerView

-- `PeerView()`
abbrev pub unseen : PeerView
unseen = record { snapshot = none; ok_at = 0; has_error = false }

module _ (str : Json → Text) where
  -- A failed fetch and an answer that does not pass keep the last good snapshot.
  unfoldable pub view_after : Option PeerView → Option Json → ℕ → PeerView
  unfolding validate_snapshot
  view_after old none now = record (elim old [ none ↦ unseen | some view ↦ view ]) {
    has_error = true;
  }
  view_after old (some answer) now = elim (validate_snapshot str answer) [
    | none ↦ record (elim old [ none ↦ unseen | some view ↦ view ]) { has_error = true }
    | some snapshot ↦ record { snapshot = some snapshot; ok_at = now; has_error = false }
  ]

  -- The peers, one after another: the answer to each, and the clock when it has come.
  unfoldable pub refresh_peers :
      (PeerConfig → Option Json)
      → (PeerConfig → ℕ)
      → List PeerConfig
      → Dict Text PeerView
      → Dict Text PeerView
  unfolding view_after get put
  refresh_peers fetch clock [] views = views
  refresh_peers fetch clock (p ∷ ps) views =
      refresh_peers fetch clock ps
        (put p.name (view_after (get p.name views) (fetch p) (clock p)) views)

  unfoldable pub refresh :
      Snapshot → (PeerConfig → Option Json) → (PeerConfig → ℕ) → Federation → Federation
  unfolding refresh_peers
  refresh own fetch clock f = record f {
    own = some own;
    peers = refresh_peers fetch clock f.config.peers f.peers;
  }

-- `snapshot.get("instance") != me`, where `me` is `None` before the first refresh
abbrev is_other : Option Snapshot → Snapshot → Bool
is_other none s = true
is_other (some own) s = not (text_eq s.instance_name own.instance_name)

unfoldable pub fresh_from : Option Snapshot → ℤ → ℕ → Dict Text PeerView → List Snapshot
unfolding ◌-ℤ◌
fresh_from own stale_after now [] = []
fresh_from own stale_after now ((name, view) ∷ rest) =
    let others = fresh_from own stale_after now rest in
    elim view.snapshot [
      | none ↦ others
      | some s ↦
          if leb_ℤ (pos now -ℤ pos view.ok_at) stale_after && is_other own s
          then s ∷ others
          else others
    ]

unfoldable pub fresh_peers : ℕ → Federation → List Snapshot
unfolding fresh_from
fresh_peers now f = fresh_from f.own f.config.stale_after_seconds now f.peers

unfoldable pub is_hot : Federation → Bool
unfolding too_hot
is_hot f = elim f.own [
  | none ↦ false
  | some own ↦ f.config.enabled && too_hot f.config.max_temp_c own.host.temp_c
]

unfoldable pub covers : ℕ → Federation → Text → Bool
unfolding has fresh_peers
covers now f pool = elim f.own [
  | none ↦ false
  | some own ↦
      if f.config.enabled && has pool own.pools
      then any (λ p. has pool p.pools) (fresh_peers now f)
      else false
]

-- `[s for s in (slot_for(…) for … in …) if s is not None]`
unfoldable pub slots_for : Text → ℤ → List Snapshot → List Slot
unfolding slot_for
slots_for pool max_temp [] = []
slots_for pool max_temp (s ∷ rest) = elim (slot_for s pool max_temp) [
  | none ↦ slots_for pool max_temp rest
  | some slot ↦ slot ∷ slots_for pool max_temp rest
]

-- `[own, *fresh]`; without an own snapshot `{}` stands first and has no slot.
abbrev pub known : Option Snapshot → List Snapshot → List Snapshot
known none fresh = fresh
known (some own) fresh = own ∷ fresh

abbrev pub own_name : Option Snapshot → Text
own_name none = []
own_name (some own) = own.instance_name

unfoldable pub shares_of : ℕ → Federation → Text → List Age → Dict Text ℕ
unfolding fresh_peers slots_for split
shares_of now f pool ages =
    split (length ages) (slots_for pool f.config.max_temp_c (known f.own (fresh_peers now f)))

unfoldable pub rescued : ℤ → List Age → ℕ
rescued rescue_after = count_if (at_least rescue_after)

-- What this host counts as queued, and the full split.
unfoldable pub queue_input : ℕ → Federation → Text → List Age → ℕ × Dict Text ℕ
unfolding shares_of rescued is_hot share_in
queue_input now f pool ages =
    let shares = shares_of now f pool ages in
    let mine = share_in shares (own_name f.own) in
    (if is_hot f then 0 else max mine (rescued f.config.rescue_after_seconds ages), shares)

-- One peer's line of `status`.
pub record PeerStatus : Type 0 where
  pub name : Text
  pub url : Text
  pub ok : Bool
  pub age_seconds : Option ℤ
  pub has_error : Bool
  pub snapshot : Option Snapshot

abbrev seen_at : ℕ → PeerView → Option ℤ
seen_at now view = elim view.snapshot [ none ↦ none | some s ↦ some (pos now -ℤ pos view.ok_at) ]

abbrev has_snapshot : PeerView → Bool
has_snapshot view = elim view.snapshot [ none ↦ false | some s ↦ true ]

unfoldable pub status_line : ℕ → Dict Text PeerView → PeerConfig → PeerStatus
unfolding get ◌-ℤ◌
status_line now views p =
    let view : PeerView = elim (get p.name views) [ none ↦ unseen | some v ↦ v ] in
    record {
      name = p.name;
      url = p.url;
      ok = has_snapshot view && not view.has_error;
      age_seconds = seen_at now view;
      has_error = view.has_error;
      snapshot = view.snapshot;
    }

unfoldable pub status : ℕ → Federation → List PeerStatus
unfolding status_line
status now f = map (status_line now f.peers) f.config.peers
