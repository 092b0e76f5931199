-- ===== src/Tests/Containers.antt =====
-- Docker's listings, a failing build, and a new container's name.
use selfhosted_runner_swarm.Prelude.{
  ◌*◌, ℕ, ◌+◌, ◌≡◌, refl, Bool, true, false, Option, none, some, List, [], ◌∷◌, ◌++◌, if◌then◌else◌,
  All, arith,
}
use selfhosted_runner_swarm.Prelude.Int.{ℤ, pos}
use selfhosted_runner_swarm.Prelude.Text.{
  Text, codes, text_eq, starts_with, all_digits, digits_value, is,
}
use selfhosted_runner_swarm.Config.{container_prefix}
use selfhosted_runner_swarm.Docker.{Docker}
use selfhosted_runner_swarm.Docker.Names.{is_ci_container}
use selfhosted_runner_swarm.Docker.Cleanup.{stuck_names, aged_names, leftovers}
use selfhosted_runner_swarm.Docker.Cleanup.Stuck.{Stuck}
use selfhosted_runner_swarm.Docker.Cleanup.Leftovers.{Leftover, leftovers-Leftover}
use selfhosted_runner_swarm.Docker.Image.{build}
use selfhosted_runner_swarm.Docker.Image.Pause.{failed_build_pauses}
use selfhosted_runner_swarm.Docker.Spawn.{new_name}
use selfhosted_runner_swarm.Docker.Spawn.Command.{new_name-own}
use selfhosted_runner_swarm.Tests.Samples.{ci_pool}

abbrev float : Text → Option ℕ
float s = if all_digits s then some (digits_value 0 s) else none

-- `docker top` succeeds and shows no job, `docker build` fails.
abbrev docker : Docker ℕ
docker = record {
  output = λ args w. elim args [
    | [] ↦ (([], 1), w)
    | command ∷ rest ↦ ((codes "UID PID CMD", if is command "build" then 1 else 0), w + 1)
  ];
  logs = λ args w. ([], w);
  record_event = λ e w. w;
}

abbrev listing : List Text
listing = codes "gh-runner-ci-1\t9 minutes ago" ∷ codes "gh-runner-ci-2\t3 minutes ago" ∷ []

one_stuck : (stuck_names docker float [] (pos 8) listing 0).0 ≡ codes "gh-runner-ci-1" ∷ []
unfolding stuck_names text_eq starts_with all_digits digits_value
one_stuck = refl

-- Docker counts in weeks from fourteen days on, and such a time is not read.
weeks_not_aged : aged_names float [] (pos 60) (codes "gh-runner-ci-1\t2 weeks ago" ∷ []) ≡ []
unfolding aged_names text_eq starts_with all_digits
weeks_not_aged = refl

abbrev float_cpus : ℤ → Text
float_cpus limit = codes "1.5"

abbrev created : Text → Option ℤ
created s = some (pos 100)

abbrev fnmatch : Text → Text → Bool
fnmatch name pattern = true

abbrev everything : List Text
everything =
    codes "postgres-1\t2026\tgithub_network_1\tx=1"
    ∷ codes "gh-runner-orchestrator\t2026\tgithub_network_1\t"
    ∷ []

leftovers-Leftover_example :
    All
      (Leftover created fnmatch (pos 360) (codes "*" ∷ []) (pos 40000) everything)
      (leftovers created fnmatch (pos 360) (codes "*" ∷ []) (pos 40000) everything)
leftovers-Leftover_example =
    leftovers-Leftover created fnmatch (pos 360) (codes "*" ∷ []) (pos 40000) everything

-- Every command takes a hundred seconds.
abbrev clock : ℕ → ℕ
clock w = w * 100

-- The build begins at 100 and fails at 200; at 400 the image is still left alone.
failed_build_pauses_example :
    build docker clock
      (codes "gh-runner:latest")
      ((build docker clock (codes "gh-runner:latest") ([], 1)).1.0, 4)
    ≡ (false, ((build docker clock (codes "gh-runner:latest") ([], 1)).1.0, 4))
unfolding build text_eq
failed_build_pauses_example =
    failed_build_pauses docker clock (codes "gh-runner:latest") [] 1 4 refl refl (omega arith)

new_name-own_example :
    (starts_with
        (new_name float_cpus docker (codes "1.4.0") 999 true ci_pool (codes "0a1b2c3d"))
        (container_prefix ci_pool ++ codes "-")
      ≡ true)
    × (is_ci_container fnmatch
          (codes "gh-*" ∷ [])
          (new_name float_cpus docker (codes "1.4.0") 999 true ci_pool (codes "0a1b2c3d"))
          (codes "github_network_1")
          []
        ≡ false)
new_name-own_example =
    new_name-own docker float_cpus (codes "1.4.0") 999 true fnmatch (codes "gh-*" ∷ []) ci_pool
      (codes "0a1b2c3d") (codes "github_network_1") []
