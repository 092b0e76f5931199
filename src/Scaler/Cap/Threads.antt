-- ===== src/Scaler/Cap/Threads.antt =====
-- Pools that tick at once, under `_cap_lock`: a step relation over what Docker runs and what the
-- scaler holds reserved. Between the count of the running containers and the grant, which share
-- the lock, containers still start and exit; only a release has to wait for the lock.
use selfhosted_runner_swarm.Prelude.{ℕ, ◌+◌, ◌-◌, ◌≤◌, ◌<◌, ◌≡◌, max, Option, none, some, arith}
use selfhosted_runner_swarm.Scaler.Cap.{reserve_spawns, release_spawns}

pub record Host : Type 0 where
  -- containers that `docker ps` shows
  pub running : ℕ
  -- granted slots whose `docker run` has not returned, or has not begun
  pub starting : ℕ
  -- slots whose `docker run` has returned, still to be released
  pub returned : ℕ
  -- `_reserved_spawns`
  pub reserved : ℕ
  -- the count read by the thread that holds `_cap_lock`
  pub counted : Option ℕ

pub data Step (cap : ℕ) : Host → Host → Type 0 where
  count : (h : Host) → h.counted ≡ none → Step cap h (record h { counted = some h.running })
  grant :
      (h : Host) (total wanted : ℕ)
      → h.counted ≡ some total
      → Step cap h (record h {
        starting = h.starting + (reserve_spawns cap total h.reserved wanted).0;
        reserved = (reserve_spawns cap total h.reserved wanted).1;
        counted = none;
      })
  start :
      (h : Host)
      → 0 < h.starting
      → Step cap h (record h {
        running = h.running + 1;
        starting = h.starting - 1;
        returned = h.returned + 1;
      })
  fail :
      (h : Host)
      → 0 < h.starting
      → Step cap h (record h { starting = h.starting - 1; returned = h.returned + 1 })
  release :
      (h : Host)
      → h.counted ≡ none
      → 0 < h.returned
      → Step cap h (record h { returned = h.returned - 1; reserved = release_spawns 1 h.reserved })
  exit : (h : Host) → 0 < h.running → Step cap h (record h { running = h.running - 1 })

pub data Reach (cap : ℕ) (h : Host) : Host → Type 0 where
  here : Reach cap h h
  next : {i j : Host} → Reach cap h i → Step cap i j → Reach cap h j

-- No thread is at work yet.
abbrev pub idle_host : ℕ → Host
idle_host running = record {
  running = running;
  starting = 0;
  returned = 0;
  reserved = 0;
  counted = none;
}

-- The field counts the slots that are out, and what runs or may yet start stays within the limit,
-- also against a count that has grown old.
record Inv (limit : ℕ) (h : Host) : Type 0 where
  held : h.reserved ≡ h.starting + h.returned
  bounded : h.running + h.starting ≤ limit
  covered : (total : ℕ) → h.counted ≡ some total → h.running + h.starting ≤ total + h.reserved

Step-Inv :
    (limit : ℕ) {cap : ℕ} {h i : Host}
    → cap ≤ limit
    → 0 < cap
    → Inv limit h
    → Step cap h i
    → Inv limit i
unfolding reserve_spawns release_spawns
Step-Inv limit l c v (count h e) = record {
  held = v.held;
  bounded = v.bounded;
  covered = λ t q. ground (arith, v.held);
}
Step-Inv limit l c v (grant h total wanted e) = record {
  held = ground arith;
  bounded = ground (arith, v.covered total e);
  covered = λ t q. cc;
}
Step-Inv limit l c v (start h p) = record {
  held = ground arith;
  bounded = ground arith;
  covered = λ t q. ground (arith, v.covered t q);
}
Step-Inv limit l c v (fail h p) = record {
  held = ground arith;
  bounded = ground arith;
  covered = λ t q. ground (arith, v.covered t q);
}
Step-Inv limit l c v (release h e p) = record {
  held = ground arith;
  bounded = v.bounded;
  covered = λ t q. ground arith;
}
Step-Inv limit l c v (exit h p) = record {
  held = v.held;
  bounded = ground arith;
  covered = λ t q. ground (arith, v.covered t q);
}

Reach-Inv :
    (limit : ℕ) {cap : ℕ} {h i : Host}
    → cap ≤ limit
    → 0 < cap
    → Inv limit h
    → Reach cap h i
    → Inv limit i
Reach-Inv limit l c v here = v
Reach-Inv limit l c v (next r st) = Step-Inv limit l c (Reach-Inv limit l c v r) st

-- However the pools' ticks interleave, the containers that run and the granted spawns that may yet
-- start are together at most the cap, or what already ran at the start if that is more; and the
-- slots held reserved are exactly those granted and not yet released. (The cap is set and fixed.)
pub cap_holds :
    (cap first : ℕ) (h : Host)
    → 0 < cap
    → Reach cap (idle_host first) h
    → (h.running + h.starting ≤ max cap first) × (h.reserved ≡ h.starting + h.returned)
cap_holds cap first h c r =
    let v = Reach-Inv (max cap first) (omega arith) c initial r in (v.bounded, v.held)
  where
    initial : Inv (max cap first) (idle_host first)
    initial = record { held = omega arith; bounded = omega arith; covered = λ t q. cc }
