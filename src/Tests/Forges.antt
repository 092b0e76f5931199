-- ===== src/Tests/Forges.antt =====
-- The clients of the forges at concrete replies.
use selfhosted_runner_swarm.Forge.Clients
use selfhosted_runner_swarm.Prelude.{
  ◌≡◌, ◌≤◌, inl, refl, Bool, true, false, none, some, List, [], ◌∷◌, All, arith, length,
}
use selfhosted_runner_swarm.Prelude.Text.{Text, codes, text_eq, starts_with}
use selfhosted_runner_swarm.Prelude.Dict.{get, put, text_key}
use selfhosted_runner_swarm.Forge.Client.{
  RequestKey, Client, Headers, absent, value, Reply, http_error, broken, http_get, raise_if_blocked,
  block_token,
}
use selfhosted_runner_swarm.Forge.Request.{Network, begin, finish, reject}
use selfhosted_runner_swarm.Forge.Cooldown.{Traffic, finished, Reach, here, next}
use selfhosted_runner_swarm.Forge.Cooldown.Waits.{waits_as_told}
use selfhosted_runner_swarm.Forge.Payload.{Body}
use selfhosted_runner_swarm.Forge.Clients.{ForgeClients, new_client}
use selfhosted_runner_swarm.Forge.Routes.{home}
use selfhosted_runner_swarm.Tests.Samples.{personal_pool}

abbrev pub quiet : Client Text
quiet = record {
  rate_limit_reserve = 100;
  blocked_until = [];
  secondary_failures = [];
  conditional_cache = [];
  shared_scans = [];
  last_mutation_at = 0;
  last_remaining = none;
  last_reset_at = none;
  blocked_until_any = 0;
}

abbrev pub key : RequestKey
key = record { token = codes "t"; path = codes "/p" }

abbrev wait_half_a_minute : Headers
wait_half_a_minute = record {
  remaining = absent;
  reset = absent;
  retry_after = value (some 30);
  etag = [];
}

abbrev at_first : Traffic Text
at_first = record { client = quiet; clock = 0; told = [] }

abbrev limited : Reply Text
limited = http_error 403 wait_half_a_minute []

abbrev told_to_wait : Traffic Text
told_to_wait = record {
  client = (finish key http_get none limited 100 quiet).1;
  clock = 100;
  told = (codes "t", 130) ∷ [];
}

reached : Reach at_first told_to_wait
unfolding finish reject starts_with
reached = next here (finished at_first key http_get none limited 100 (omega arith))

free_again : (begin key http_get 131 told_to_wait.client).0.0 ≡ none
unfolding begin raise_if_blocked finish reject block_token get put text_eq starts_with
free_again = refl

waits_as_told_example : ◌≤◌ 130 131
waits_as_told_example =
    waits_as_told at_first told_to_wait key http_get 131 130 refl reached (inl refl) (omega arith)
      free_again

-- A network that loses every request and remembers its URL and its token.
abbrev Log : Type 0
Log = List (Text × Text)

abbrev losing : Network Log Body
losing = record {
  clock = λ log. length log;
  sleep = λ n log. log;
  exchange = λ url pat verb etag log. (broken, (url, pat) ∷ log);
}

abbrev OwnOnly : Log → Type 0
OwnOnly log =
    All (λ e. (starts_with e.0 (home personal_pool) ≡ true) × (e.1 ≡ personal_pool.pat)) log

abbrev pub no_match : Text → Text → Bool
no_match name pattern = false

abbrev clients : ForgeClients
clients = record { github = new_client; gitea = [] }
