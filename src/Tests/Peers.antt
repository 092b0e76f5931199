-- ===== src/Tests/Peers.antt =====
-- The federation at three hosts.
use mathlib.Core.List.{Permᴰ}
use selfhosted_runner_swarm.Prelude.{
  ◌≡◌, ◌≤◌, refl, min, Bool, true, false, Option, none, some, List, [], ◌∷◌, sum_by, length, In,
}
use selfhosted_runner_swarm.Prelude.Int.{pos}
use selfhosted_runner_swarm.Prelude.Text.{Text, codes, text_eq}
use selfhosted_runner_swarm.Scaler.Types.{Age, seconds}
use selfhosted_runner_swarm.Federation.Settings.{default_config}
use selfhosted_runner_swarm.Federation.Snapshot.{
  Json, null, number, string, object, empty, member, Snapshot, validate_snapshot,
}
use selfhosted_runner_swarm.Federation.Snapshot.Bounds.{
  IfAccepted, BoundedSnapshot, validate_snapshot-Bounded,
}
use selfhosted_runner_swarm.Federation.Split.{Slot, share_in, split}
use selfhosted_runner_swarm.Federation.Split.Total.{split_total}
use selfhosted_runner_swarm.Federation.Split.Order.{split_same}
use selfhosted_runner_swarm.Federation.Peers.{Federation, refresh, queue_input, is_hot, rescued}
use selfhosted_runner_swarm.Federation.Peers.Bounds.{
  BoundedPeers, refresh_keeps_bounded, queue_input_between,
}
use selfhosted_runner_swarm.Tests.Samples.{site_ne_blog}

abbrev first_host : Slot
first_host = record { name = codes "site"; free_cores = 8; capacity = 3 }

abbrev second_host : Slot
second_host = record { name = codes "blog"; free_cores = 2; capacity = 5 }

abbrev hosts : List Slot
hosts = first_host ∷ second_host ∷ []

-- The freer host is filled first.
freer_first : share_in (split 4 hosts) (codes "site") ≡ 3
unfolding split text_eq
freer_first = refl

split_total_example :
    (sum_by (λ s. share_in (split 4 hosts) s.name) hosts ≡ min 4 (sum_by (λ s. s.capacity) hosts))
    × ((s : Slot) → In s hosts → share_in (split 4 hosts) s.name ≤ s.capacity)
split_total_example = split_total 4 hosts ((site_ne_blog, tt), (tt, tt))

split_same_example :
    share_in (split 4 hosts) (codes "blog")
    ≡ share_in (split 4 (second_host ∷ first_host ∷ [])) (codes "blog")
split_same_example =
    split_same 4 hosts (second_host ∷ first_host ∷ []) ((site_ne_blog, tt), (tt, tt))
      (Permᴰ.swap refl refl) (codes "blog")

abbrev answer : Json
answer = object (
    member (codes "instance") (string (codes "site")) (
      member (codes "host")
        (object (
          member (codes "cores") (number (pos 800)) (
            member (codes "cpu_count") (number (pos 800)) (
              member (codes "load1") (number (pos 150)) (
                member (codes "mem_total_mb") (number (pos 1600000)) (
                  member (codes "mem_available_mb") (number (pos 900000)) (
                    member (codes "temp_c") null
                      (member (codes "free_cores") (number (pos 600)) empty))))))))
        (member (codes "pools")
          (object (
            member (codes "ci")
              (object (
                member (codes "running") (number (pos 200)) (
                  member (codes "busy") (number (pos 100))
                    (member (codes "max_runners") (number (pos 300)) empty))))
              empty))
          (member (codes "global_free") null empty))))

abbrev render : Json → Text
render value = codes "?"

abbrev is_some : Option Snapshot → Bool
is_some none = false
is_some (some s) = true

answer_accepted : is_some (validate_snapshot render answer) ≡ true
unfolding validate_snapshot text_eq
answer_accepted = refl

validate_snapshot-Bounded_example : IfAccepted BoundedSnapshot (validate_snapshot render answer)
validate_snapshot-Bounded_example = validate_snapshot-Bounded render answer

abbrev own_snapshot : Snapshot
own_snapshot = record {
  instance_name = codes "blog";
  version = codes "1.4.0";
  ts = pos 0;
  host = record {
    cores = 4;
    cpu_count = 4;
    load1 = pos 200;
    mem_total_mb = 8000;
    mem_available_mb = 2000;
    temp_c = some (pos 6150);
    free_cores = 2;
  };
  pools = (codes "ci", record { running = 1; busy = 1; max_runners = 6 }) ∷ [];
  global_free = none;
}

abbrev federation : Federation
federation = record {
  config = record default_config {
    enabled = true;
    peers = record { name = codes "site"; url = codes "http://site:8091" } ∷ [];
  };
  own = none;
  peers = [];
}

refresh_keeps_bounded_example :
    BoundedPeers (refresh render own_snapshot (λ p. some answer) (λ p. 7) federation).peers
refresh_keeps_bounded_example =
    refresh_keeps_bounded render own_snapshot (λ p. some answer) (λ p. 7) federation tt

abbrev ages : List Age
ages = seconds (pos 200) ∷ seconds (pos 10) ∷ seconds (pos 5) ∷ []

abbrev joined : Federation
joined = refresh render own_snapshot (λ p. some answer) (λ p. 7) federation

shared_queue : (queue_input 8 joined (codes "ci") ages).0 ≡ 1
unfolding queue_input refresh text_eq
shared_queue = refl

queue_input_between_example :
    ((queue_input 8 joined (codes "ci") ages).0 ≤ length ages)
    × ((is_hot joined ≡ true → (queue_input 8 joined (codes "ci") ages).0 ≡ 0)
        × (is_hot joined ≡ false
            → rescued joined.config.rescue_after_seconds ages
              ≤ (queue_input 8 joined (codes "ci") ages).0))
queue_input_between_example = queue_input_between 8 joined (codes "ci") ages
