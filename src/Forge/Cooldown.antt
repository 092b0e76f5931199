-- ===== src/Forge/Cooldown.antt =====
-- Requests that overlap and the forge's orders to wait, `_blocked_until` of
-- orchestrator/rorch/github_client.py: a step relation over what the threads do under `_state_lock`.
-- Any request may be finished at any time with any reply.
pub mod Orders
pub mod Waits
use selfhosted_runner_swarm.Prelude.{
  ℕ, ◌+◌, ◌≤◌, ◌<◌, ◌≡◌, ◌⊎◌, inl, inr, refl, max, Bool, true, false, ◌&&◌, Option, none, some,
  List, [], ◌∷◌, if◌then◌else◌, leb, ltb, All, All-mono, All-In, In, Bool-cases, Option-cases,
  arith, ◌==◌,
}
use selfhosted_runner_swarm.Prelude.Text.{Text, text_eq, text_eq_iff}
use selfhosted_runner_swarm.Prelude.Dict.{Dict, get, get-put, get-remove, text_key}
use selfhosted_runner_swarm.Scaler.State.{Outcome, returned, raised, Raised, rate_limited, failed}
use selfhosted_runner_swarm.Forge.Client.{
  RequestKey, Client, Headers, Reply, success, http_error, broken, Verb, http_get, http_post,
  http_delete, Answer, get_or_zero, raise_if_blocked, block_token, update_rate_limit,
  remember_limits, reserve_reached, stop_at, rate_limit_retry, count_failure, is_rate_limit_error,
  cache_conditional_response, note_mutation,
}
use selfhosted_runner_swarm.Forge.Request.{
  Cached, begin, accept, reuse, forget_failures, unless_raised, after_limits, reject, finish,
}

-- `told` holds every order to wait that the forge gave: a token, and the time to retry at.
pub record Traffic (D : Type 0) : Type 0 where
  pub client : Client D
  pub clock : ℕ
  pub told : List (Text × ℕ)

module _ {D : Type 0} where
  abbrev pub hear : Text → Outcome (Answer D) → List (Text × ℕ) → List (Text × ℕ)
  hear token (returned a) told = told
  hear token (raised (rate_limited at)) told = (token, at) ∷ told
  hear token (raised failed) told = told

  pub data Step : Traffic D → Traffic D → Type 0 where
    begun :
        (t : Traffic D) (key : RequestKey) (verb : Verb) (now : ℕ)
        → t.clock ≤ now
        → Step t (record t { client = (begin key verb now t.client).1; clock = now })
    paced :
        (t : Traffic D) (verb : Verb) (now : ℕ)
        → t.clock ≤ now
        → Step t (record t { client = note_mutation verb now t.client; clock = now })
    finished :
        (t : Traffic D) (key : RequestKey) (verb : Verb) (cached : Cached D) (reply : Reply D)
        (now : ℕ)
        → t.clock ≤ now
        → Step t (record {
          client = (finish key verb cached reply now t.client).1;
          clock = now;
          told = hear key.token (finish key verb cached reply now t.client).0 t.told;
        })

  pub data Reach (t : Traffic D) : Traffic D → Type 0 where
    here : Reach t t
    next : {u v : Traffic D} → Reach t u → Step u v → Reach t v
