-- ===== src/Server/Replay.antt =====
-- Idempotent control actions: `InFlightKeys` of orchestrator/rorch/server/deps.py, and `idempotent`
-- of orchestrator/rorch/server/auth.py, as the steps of requests that run at the same time. The
-- store's pruning of answers older than a day is left out.
pub mod Once
use selfhosted_runner_swarm.Prelude.{
  ℕ, ◌≡◌, Bool, true, false, Option, none, some, List, [], ◌∷◌, if◌then◌else◌,
}
use selfhosted_runner_swarm.Prelude.Text.{Text}
use selfhosted_runner_swarm.Prelude.Dict.{Dict, get, put, remove, has, text_key}

-- Where the request that holds a key stands: before it has looked for an answer, or in the view.
pub data Phase : Type 0 where
  checking working : Phase

abbrev pub InFlight : Type 0
InFlight = Dict Text Phase

-- Whether the caller now owns the key.
unfoldable pub claim : Text → InFlight → Bool × InFlight
unfolding has put
claim key keys = if has key keys then (false, keys) else (true, put key checking keys)

unfoldable pub release : Text → InFlight → InFlight
unfolding remove
release key keys = remove key keys

-- `successes` is a record of the views that answered with success, one entry for each, and `lost`
-- of those whose answer the store did not take.
pub record Requests : Type 0 where
  pub in_flight : InFlight
  pub responses : Dict Text Text
  pub successes : List Text
  pub lost : List Text

-- A view that raises or answers with another status; one with a status 2xx whose answer is
-- remembered; and one for which `remember_response` raises.
pub data Outcome : Type 0 where
  failed unkept : Outcome
  succeeded : Text → Outcome

-- The end of the view; the key is released whatever happens.
unfoldable pub finish : Text → Outcome → Requests → Requests
unfolding release put
finish key failed r = record r { in_flight = release key r.in_flight }
finish key unkept r = record r {
  in_flight = release key r.in_flight;
  successes = key ∷ r.successes;
  lost = key ∷ r.lost;
}
finish key (succeeded response) r = record r {
  in_flight = release key r.in_flight;
  responses = put key response r.responses;
  successes = key ∷ r.successes;
}

pub data Step : Requests → Requests → Type 0 where
  -- the key is free
  claimed :
      (r : Requests) (key : Text)
      → (claim key r.in_flight).0 ≡ true
      → Step r (record r { in_flight = (claim key r.in_flight).1 })
  -- 409: another request holds the key
  refused : (r : Requests) (key : Text) → (claim key r.in_flight).0 ≡ false → Step r r
  -- an answer is there already
  replayed :
      (r : Requests) (key response : Text)
      → get key r.in_flight ≡ some checking
      → get key r.responses ≡ some response
      → Step r (record r { in_flight = release key r.in_flight })
  started :
      (r : Requests) (key : Text)
      → get key r.in_flight ≡ some checking
      → get key r.responses ≡ none
      → Step r (record r { in_flight = put key working r.in_flight })
  finished :
      (r : Requests) (key : Text) (outcome : Outcome)
      → get key r.in_flight ≡ some working
      → Step r (finish key outcome r)

pub data Reach : Requests → Type 0 where
  start :
      (responses : Dict Text Text)
      → Reach (record { in_flight = []; responses = responses; successes = []; lost = [] })
  step : {r r' : Requests} → Reach r → Step r r' → Reach r'
