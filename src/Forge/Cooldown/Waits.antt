-- ===== src/Forge/Cooldown/Waits.antt =====
-- When a request goes ahead, `_raise_if_blocked` of orchestrator/rorch/github_client.py.
use selfhosted_runner_swarm.Prelude.{
  ℕ, ◌≤◌, ◌≡◌, inl, inr, refl, none, List, [], All, All-mono, All-In, In, arith,
}
use selfhosted_runner_swarm.Prelude.Text.{Text, text_eq_iff}
use selfhosted_runner_swarm.Prelude.Dict.{get-remove, text_key}
use selfhosted_runner_swarm.Scaler.State.{Outcome, returned, raised, rate_limited, failed}
use selfhosted_runner_swarm.Forge.Client.{
  RequestKey, Client, Verb, http_get, http_post, http_delete, Answer, raise_if_blocked,
  note_mutation,
}
use selfhosted_runner_swarm.Forge.Request.{begin, finish}
use selfhosted_runner_swarm.Forge.Cooldown.{
  Traffic, hear, Step, begun, paced, finished, Reach, here, next,
}
use selfhosted_runner_swarm.Forge.Cooldown.Orders.{
  Kept, Grows, Heard, Orderly, Same, Same-Grows, finish-Orderly,
}

module _ {D : Type 0} where
  -- A token is let go only when its time has come.
  begin-Kept :
      (key : RequestKey) (verb : Verb) (now clock : ℕ) (c : Client D) (e : Text × ℕ)
      → clock ≤ now
      → Kept clock c e
      → Kept now (begin key verb now c).1 e
  unfolding begin raise_if_blocked
  begin-Kept key verb now clock c e le k =
      ground (arith, get-remove key.token e.0 c.blocked_until, text_eq_iff key.token e.0)

  Kept-mono :
      (clock now : ℕ) (c c' : Client D)
      → clock ≤ now
      → Grows c c'
      → (e : Text × ℕ) → Kept clock c e
      → Kept now c' e
  Kept-mono clock now c c' le grows e (inl old) = inl (omega arith)
  Kept-mono clock now c c' le grows e (inr held) = inr (omega (arith, grows e.0))

  note_mutation-Same : (verb : Verb) (now : ℕ) (c : Client D) → Same c (note_mutation verb now c)
  unfolding note_mutation
  note_mutation-Same http_get now c = refl
  note_mutation-Same http_post now c = refl
  note_mutation-Same http_delete now c = refl

  AllKept : Traffic D → Type 0
  AllKept t = All (Kept t.clock t.client) t.told

  hear-Kept :
      (token : Text) (now : ℕ) (c : Client D) (o : Outcome (Answer D)) (told : List (Text × ℕ))
      → Heard token o c
      → All (Kept now c) told
      → All (Kept now c) (hear token o told)
  hear-Kept token now c (returned a) told h k = k
  hear-Kept token now c (raised (rate_limited at)) told h k = (inr h, k)
  hear-Kept token now c (raised failed) told h k = k

  Step-AllKept : {t u : Traffic D} → Step t u → AllKept t → AllKept u
  unfolding AllKept
  Step-AllKept (begun t key verb now le) k =
      All-mono (Kept t.clock t.client) _ (λ e. begin-Kept key verb now t.clock t.client e le) t.told
        k
  Step-AllKept (paced t verb now le) k =
      All-mono (Kept t.clock t.client) _
        (Kept-mono t.clock now t.client (note_mutation verb now t.client) le (
          Same-Grows t.client (note_mutation verb now t.client)
            (note_mutation-Same verb now t.client)))
        t.told k
  Step-AllKept (finished t key verb cached reply now le) k =
      let r = finish key verb cached reply now t.client in
      let ok : Orderly key.token t.client r = finish-Orderly key verb cached reply now t.client in
      hear-Kept key.token now r.1 r.0 t.told ok.1
        (All-mono (Kept t.clock t.client) _ (Kept-mono t.clock now t.client r.1 le ok.0) t.told k)

  Reach-AllKept : {t u : Traffic D} → Reach t u → AllKept t → AllKept u
  Reach-AllKept here k = k
  Reach-AllKept (next r s) k = Step-AllKept s (Reach-AllKept r k)

  go_ahead :
      (key : RequestKey) (verb : Verb) (now clock : ℕ) (c : Client D) (e : Text × ℕ)
      → key.token ≡ e.0
      → clock ≤ now
      → (begin key verb now c).0.0 ≡ none
      → Kept clock c e
      → e.1 ≤ now
  unfolding begin raise_if_blocked
  go_ahead key verb now clock c e same le free k = ground arith

  -- However the requests of all threads overlap, fail and are limited: a request of a token passes the
  -- check that lets it go on only at a time that no order to wait, raised for a request of that token
  -- since the client was made, lies after.
  pub waits_as_told :
      (start t : Traffic D) (key : RequestKey) (verb : Verb) (now at : ℕ)
      → start.told ≡ []
      → Reach start t
      → In (key.token, at) t.told
      → t.clock ≤ now
      → (begin key verb now t.client).0.0 ≡ none
      → at ≤ now
  unfolding AllKept
  waits_as_told start t key verb now at fresh r told le free =
      go_ahead key verb now t.clock t.client (key.token, at) refl le free
        (All-In (Kept t.clock t.client) (key.token, at) t.told (Reach-AllKept r (rw fresh tt)) told)
