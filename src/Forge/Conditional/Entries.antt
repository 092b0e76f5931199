-- ===== src/Forge/Conditional/Entries.antt =====
-- The entries of the conditional cache, `_conditional_cache` of
-- orchestrator/rorch/github_client.py, and what they say of the resources.
use selfhosted_runner_swarm.Prelude.{
  ◌≡◌, inl, inr, none, some, [], ◌∷◌, All, All-append, Bool-cases, length, ltb,
}
use selfhosted_runner_swarm.Prelude.Text.{Text}
use selfhosted_runner_swarm.Prelude.Dict.{Dict, get, remove}
use selfhosted_runner_swarm.Forge.Client.{
  RequestKey, request_key_key, request_key_eq, ConditionalResponse, trim, put_last, move_to_end,
}
use selfhosted_runner_swarm.Forge.Request.{Cached}

-- `content_of key etag` is the content that the forge names by an ETag of the resource.
module _ {D : Type 0} (content_of : RequestKey → Text → D) where
  abbrev pub True : RequestKey × ConditionalResponse D → Type 0
  True e = content_of e.0 e.1.etag ≡ e.1.content

  abbrev Cache : Type 0
  Cache = Dict RequestKey (ConditionalResponse D)

  pub All-remove : (key : RequestKey) (d : Cache) → All True d → All True (remove key d)
  unfolding remove
  All-remove key [] h = tt
  All-remove key ((k, v) ∷ d) h = elim (Bool-cases (request_key_eq k key)) [
    | inl e ↦ rw e (All-remove key d h.1)
    | inr e ↦ rw e (h.0, All-remove key d h.1)
  ]

  pub All-trim : (d : Cache) → All True d → All True (trim d)
  unfolding trim
  All-trim [] h = tt
  All-trim (e ∷ d) h = elim (Bool-cases (ltb 2048 (length (e ∷ d)))) [
    | inl x ↦ rw x (All-trim d h.1)
    | inr x ↦ rw x h
  ]

  -- What the cache gives is true.
  abbrev pub TrueFor : RequestKey → Cached D → Type 0
  TrueFor key none = Unit
  TrueFor key (some r) = content_of key r.etag ≡ r.content

  pub get-TrueFor : (key : RequestKey) (d : Cache) → All True d → TrueFor key (get key d)
  unfolding get
  get-TrueFor key [] h = tt
  get-TrueFor key ((k, v) ∷ d) h = elim (Bool-cases (request_key_eq k key)) [
    | inl e ↦ rw e (rw (← (request_key_key.same_iff k key).0 e) h.0)
    | inr e ↦ rw e (get-TrueFor key d h.1)
  ]

  pub All-put_last :
      (key : RequestKey) (v : ConditionalResponse D) (d : Cache)
      → content_of key v.etag ≡ v.content
      → All True d
      → All True (put_last key v d)
  unfolding put_last
  All-put_last key v d e h =
      All-append True (remove key d) ((key, v) ∷ []) (All-remove key d h) (e, tt)

  pub All-move_to_end : (key : RequestKey) (d : Cache) → All True d → All True (move_to_end key d)
  unfolding move_to_end
  All-move_to_end key d h = by_entry (get key d) (get-TrueFor key d h)
    where
      by_entry :
          (o : Cached D)
          → TrueFor key o
          → All True (elim o [ none ↦ d | some v ↦ put_last key v d ])
      by_entry none t = h
      by_entry (some v) t = All-put_last key v d t h
