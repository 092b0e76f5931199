-- ===== src/Forge/Conditional/Current.antt =====
-- What overlapping requests return, `_request` of orchestrator/rorch/github_client.py.
use selfhosted_runner_swarm.Prelude.{ℕ, ◌≡◌, refl, List, [], All, All-In, arith}
use selfhosted_runner_swarm.Prelude.Text.{Text}
use selfhosted_runner_swarm.Scaler.State.{Outcome, returned, raised}
use selfhosted_runner_swarm.Forge.Client.{
  RequestKey, request_key_key, Client, Verb, http_get, http_post, http_delete, Answer, nothing,
  deleted, body, raise_if_blocked, note_mutation,
}
use selfhosted_runner_swarm.Forge.Request.{Cached, begin, cached_for, finish}
use selfhosted_runner_swarm.Forge.Conditional.{
  Faithful, Readers, see, Step, begun, paced, finished, Reach, here, next,
}
use selfhosted_runner_swarm.Forge.Conditional.Entries.{TrueFor, get-TrueFor}
use selfhosted_runner_swarm.Forge.Conditional.Replies.{Seen, Right, finish-Right}

module _ {D : Type 0} (content_of : RequestKey → Text → D) where
  -- The cache and what the requests under way took from it are true, and so was every answer.
  abbrev Current : D × D → Type 0
  Current e = e.0 ≡ e.1

  abbrev Taken : RequestKey × Cached D → Type 0
  Taken e = (TrueFor content_of) e.0 e.1

  record Inv (r : (Readers content_of)) : Type 0 where
    faithful : (Faithful content_of) r.client
    taken : All Taken r.sent
    current : All Current r.seen

  raise_if_blocked-cache :
      (token : Text) (now : ℕ) (c : Client D)
      → (raise_if_blocked token now c).1.conditional_cache ≡ c.conditional_cache
  unfolding raise_if_blocked
  raise_if_blocked-cache token now c = ground arith

  cached_for-TrueFor :
      (verb : Verb) (key : RequestKey) (c : Client D)
      → (Faithful content_of) c
      → (TrueFor content_of) key (cached_for verb key c)
  unfolding cached_for
  cached_for-TrueFor http_get key c f = (get-TrueFor content_of) key c.conditional_cache f
  cached_for-TrueFor http_post key c f = tt
  cached_for-TrueFor http_delete key c f = tt

  note_mutation-cache :
      (verb : Verb) (now : ℕ) (c : Client D)
      → (note_mutation verb now c).conditional_cache ≡ c.conditional_cache
  unfolding note_mutation
  note_mutation-cache http_get now c = refl
  note_mutation-cache http_post now c = refl
  note_mutation-cache http_delete now c = refl

  All-see :
      (o : Outcome (Answer D)) (current : D) (seen : List (D × D))
      → (Seen content_of) current o
      → All Current seen
      → All Current ((see content_of) o current seen)
  All-see (returned nothing) current seen h k = k
  All-see (returned (deleted b)) current seen h k = k
  All-see (returned (body d)) current seen h k = (h, k)
  All-see (raised e) current seen h k = k

  Step-Inv : {r s : (Readers content_of)} → (Step content_of) r s → Inv r → Inv s
  unfolding begin
  Step-Inv (begun r key verb now) v =
      let c' = (raise_if_blocked key.token now r.client).1 in
      let f : (Faithful content_of) c' =
        rw (raise_if_blocked-cache key.token now r.client) v.faithful in
      record {
        faithful = f;
        taken = (cached_for-TrueFor verb key c' f, v.taken);
        current = v.current;
      }
  Step-Inv (paced r verb now) v = record {
    faithful = rw (note_mutation-cache verb now r.client) v.faithful;
    taken = v.taken;
    current = v.current;
  }
  Step-Inv (finished r key verb cached current reply now sent conforms) v =
      let ok : (Right content_of) current (finish key verb cached reply now r.client) =
        (finish-Right content_of) key verb cached current reply now r.client
          (All-In Taken (key, cached) r.sent v.taken sent) conforms v.faithful in
      record {
        faithful = ok.0;
        taken = v.taken;
        current =
            All-see (finish key verb cached reply now r.client).0 current r.seen ok.1 v.current;
      }

  Reach-Inv : {r s : (Readers content_of)} → (Reach content_of) r s → Inv r → Inv s
  Reach-Inv here v = v
  Reach-Inv (next p s) v = Step-Inv s (Reach-Inv p v)

  -- Against a forge whose replies keep what HTTP promises of an ETag, and however requests overlap,
  -- every body that a request returns, from the reply or from the cache, is the content that the
  -- resource had when the forge replied: the client reads what one without a cache would.
  pub reads_what_is_there :
      (client : Client D) (r : (Readers content_of))
      → client.conditional_cache ≡ []
      → (Reach content_of) (record { client = client; sent = []; seen = [] }) r
      → All (λ e. e.0 ≡ e.1) r.seen
  reads_what_is_there client r fresh reach =
      (Reach-Inv reach (record { faithful = rw fresh tt; taken = tt; current = tt })).current
