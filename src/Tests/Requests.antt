-- ===== src/Tests/Requests.antt =====
-- Repeated requests, locked clients and tokens, and the lanes of the ticks.
use selfhosted_runner_swarm.Prelude.{◌+◌, ◌-◌, ◌≡◌, ◌≤◌, refl, true, some, [], ◌∷◌, arith}
use selfhosted_runner_swarm.Prelude.Text.{Text, codes, text_eq}
use selfhosted_runner_swarm.Prelude.Dict.{get}
use selfhosted_runner_swarm.Server.Replay.{Requests}
use selfhosted_runner_swarm.Lanes.{Lanes, submit, submitted, opened, stepped}
use selfhosted_runner_swarm.Lanes.Single.{jobs_of, one_job_per_lane}
use selfhosted_runner_swarm.Server.Guard.{Failures, failures_of, record_failure, lockout_seconds}
use selfhosted_runner_swarm.Server.Access.{
  Tokens, Credentials, supplied_token, authorize, too_many_attempts,
}
use selfhosted_runner_swarm.Server.Access.Denied.{authorize_locks_out, write_needs_token}

abbrev tokens : Tokens
tokens = record { token = codes "secret"; readonly_token = codes "look" }

abbrev guess : Credentials
guess = record { authorization = codes "Bearer secret"; token_argument = []; token_cookie = [] }

abbrev client : Text
client = codes "10.0.0.9"

abbrev nine_failures : Failures
nine_failures = (codes "10.0.0.9", (9, 40)) ∷ []

authorize_locks_out_example :
    authorize tokens true client 350 guess (record_failure client 60 nine_failures) ≡ (
      some (too_many_attempts (60 + lockout_seconds - 350)),
      record_failure client 60 nine_failures,
    )
unfolding text_eq failures_of
authorize_locks_out_example =
    authorize_locks_out tokens true client 60 350 guess nine_failures (omega arith) (omega arith)
      (omega arith)

write_needs_token_example : (supplied_token guess ≡ tokens.token) × (true ≡ true)
unfolding authorize text_eq
write_needs_token_example = write_needs_token tokens client 350 guess nine_failures refl refl

abbrev served : Requests
served = record {
  in_flight = [];
  responses = (codes "POST:/api/spawn:k1", codes "ok") ∷ [];
  successes = codes "POST:/api/spawn:k1" ∷ [];
  lost = [];
}

-- A second tick of the pool while its first one runs is not started.
abbrev lanes : Lanes
lanes = record {
  running = (codes "ci", (0, 100)) ∷ [];
  unfinished = (codes "ci", 0) ∷ [];
  next_future = 1;
}

one_job_per_lane_example : jobs_of (codes "ci") lanes ≤ 1
unfolding submit text_eq get
one_job_per_lane_example =
    let empty_lanes : Lanes = record { running = []; unfinished = []; next_future = 0 } in
    one_job_per_lane {l = lanes}
      (stepped (stepped opened (submitted empty_lanes (codes "ci") 100))
        (submitted lanes (codes "ci") 110))
      (codes "ci")
