-- ===== src/Resolver/Returns.antt =====
-- When `resolve` returns, and with which pools: orchestrator/rorch/resolver.py. A stored number that
-- does not convert makes it raise.
use selfhosted_runner_swarm.Prelude.{
  ◌≡◌, refl, sym, subst, ap, arith, Empty, Bool, true, false, not, ◌||◌, Option, none, some, List,
  [], ◌∷◌, All, if◌then◌else◌, Bool-cases, inl, inr, All-append,
}
use selfhosted_runner_swarm.Prelude.Int.{ℤ}
use selfhosted_runner_swarm.Prelude.Text.{Text, text_eq, text_eq_iff, text_eq_refl}
use selfhosted_runner_swarm.Prelude.Dict.{Dict, get, put, remove, text_key}
use selfhosted_runner_swarm.Config.{PoolConfig}
use selfhosted_runner_swarm.Resolver.{
  Override, apply_override, resolve_base, build_ui_pool, add_pool, resolve_ui, resolve_pools,
  pool_named, ◌>>=◌,
}
use selfhosted_runner_swarm.Resolver.Identity.{IfGiven}
use selfhosted_runner_swarm.Resolver.Pools.{Valid, resolve_ui-Valid}

-- The step gives a value, which satisfies the predicate.
abbrev pub Gives : {A : Type 0} → (A → Type 0) → Option A → Type 0
Gives P none = Empty
Gives P (some a) = P a

abbrev pub Returns : {A : Type 0} → Option A → Type 0
Returns o = Gives (λ a. Unit {0}) o

pub Gives-bind :
    {A B : Type 0} (P : A → Type 0) (Q : B → Type 0) (o : Option A) (f : A → Option B)
    → Gives P o
    → ((a : A) → P a → Gives Q (f a))
    → Gives Q (o >>= f)
unfolding ◌>>=◌
Gives-bind P Q none f p h = p
Gives-bind P Q (some a) f p h = h a p

Gives-IfGiven : {A : Type 0} (P : A → Type 0) (o : Option A) → Returns o → IfGiven P o → Gives P o
Gives-IfGiven P none r h = r
Gives-IfGiven P (some a) r h = h

module _ {V : Type 0} (P : Text × V → Type 0) where
  pub All-put : (key : Text) (v : V) (d : Dict Text V) → All P d → P (key, v) → All P (put key v d)
  unfolding put
  All-put key v [] h p = (p, tt)
  All-put key v ((k, w) ∷ d) h p = elim (Bool-cases (text_eq k key)) [
    | inl e ↦ rw e (subst (λ x. P (x, v)) (sym ((text_eq_iff k key).0 e)) p, h.1)
    | inr e ↦ rw e (h.0, All-put key v d h.1 p)
  ]

  pub All-remove : (key : Text) (d : Dict Text V) → All P d → All P (remove key d)
  unfolding remove
  All-remove key [] h = tt
  All-remove key ((k, w) ∷ d) h = elim (Bool-cases (text_eq k key)) [
    | inl e ↦ rw e (All-remove key d h.1)
    | inr e ↦ rw e (h.0, All-remove key d h.1)
  ]

  pub All-get : (key : Text) (d : Dict Text V) → All P d → IfGiven (λ v. P (key, v)) (get key d)
  unfolding get
  All-get key [] h = tt
  All-get key ((k, w) ∷ d) h = elim (Bool-cases (text_eq k key)) [
    | inl e ↦ rw e (subst (λ x. P (x, w)) ((text_eq_iff k key).0 e) h.0)
    | inr e ↦ rw e (All-get key d h.1)
  ]

not_same : (s t : Text) → text_eq s t ≡ false → text_eq t s ≡ false
not_same s t e = ground (arith, text_eq_iff s t, text_eq_iff t s)

module _ {V : Type 0} (as_int as_float : V → Option ℤ) (as_text : V → Text)
    (getenv : Text → Text) where
  abbrev pub Applies : Option PoolConfig → Dict Text V → Type 0
  Applies none fields = Unit
  Applies (some b) fields = Gives Valid (apply_override as_int as_float as_text b fields)

  -- A row of a pool of the file makes a pool that validation accepts.
  abbrev pub Fits : List PoolConfig → Text × Override V → Type 0
  Fits base (name, row) = row.disabled ≡ false → Applies (pool_named name base) row.fields

  -- A row of a pool made through the API can be read.
  abbrev pub Builds : Text × Override V → Type 0
  Builds (name, row) =
      row.disabled ≡ false
      → row.from_ui ≡ true
      → Returns (build_ui_pool as_int as_float as_text getenv name row.fields)

  Fits-remove :
      (b : PoolConfig) (bs : List PoolConfig) (rows : Dict Text (Override V))
      → All (Fits (b ∷ bs)) rows
      → All (Fits bs) (remove b.name rows)
  unfolding remove pool_named
  Fits-remove b bs [] h = tt
  Fits-remove b bs ((name, row) ∷ rows) h = elim (Bool-cases (text_eq name b.name)) [
    | inl e ↦ rw e (Fits-remove b bs rows h.1)
    | inr e ↦ rw e (other e h.0, Fits-remove b bs rows h.1)
  ]
    where
      other : text_eq name b.name ≡ false → Fits (b ∷ bs) (name, row) → Fits bs (name, row)
      other e f d =
          subst (λ o. Applies o row.fields)
            (ap (λ x. if x then some b else pool_named name bs) (not_same name b.name e)) (f d)

  first : (b : PoolConfig) (bs : List PoolConfig) → pool_named b.name (b ∷ bs) ≡ some b
  unfolding pool_named
  first b bs = rw (text_eq_refl b.name) refl

  abbrev Resolved : List PoolConfig × Dict Text (Override V) → Type 0
  Resolved r = All Valid r.0 × All Builds r.1

  resolve_base-Gives :
      (base : List PoolConfig) (rows : Dict Text (Override V))
      → All Valid base
      → All (Fits base) rows
      → All Builds rows
      → Gives Resolved (resolve_base as_int as_float as_text base rows)
  unfolding resolve_base
  resolve_base-Gives [] rows valid fits builds = (tt, builds)
  resolve_base-Gives (b ∷ bs) rows valid fits builds =
      by_row (get b.name rows) (All-get (Fits (b ∷ bs)) b.name rows fits) (
        resolve_base-Gives bs (remove b.name rows) valid.1 (Fits-remove b bs rows fits)
          (All-remove Builds b.name rows builds))
    where
      rest : Option (List PoolConfig × Dict Text (Override V))
      rest = resolve_base as_int as_float as_text bs (remove b.name rows)

      with_head :
          (p : PoolConfig)
          → Valid p
          → Gives Resolved rest
          → Gives Resolved (rest >>= λ r. some (p ∷ r.0, r.1))
      with_head p v ih =
          Gives-bind Resolved Resolved rest (λ r. some (p ∷ r.0, r.1)) ih (λ r h. ((v, h.0), h.1))

      by_row :
          (o : Option (Override V))
          → IfGiven (λ row. Fits (b ∷ bs) (b.name, row)) o
          → Gives Resolved rest
          → Gives Resolved (elim o [
            | none ↦ rest >>= λ r. some (b ∷ r.0, r.1)
            | some row ↦
                if row.disabled
                then rest
                else (apply_override as_int as_float as_text b row.fields >>= λ p.
                    rest >>= λ r. some (p ∷ r.0, r.1))
          ])
      by_row none f ih = with_head b valid.0 ih
      by_row (some row) f ih = elim (Bool-cases row.disabled) [
        | inl e ↦ rw e ih
        | inr e ↦ rw e (
            Gives-bind Valid Resolved (apply_override as_int as_float as_text b row.fields)
              (λ p. rest >>= λ r. some (p ∷ r.0, r.1))
              (subst (λ o. Applies o row.fields) (first b bs) (f e)) (λ p v. with_head p v ih))
      ]

  resolve_ui-Returns :
      (rows : Dict Text (Override V))
      → All Builds rows
      → Returns (resolve_ui as_int as_float as_text getenv rows)
  unfolding resolve_ui
  resolve_ui-Returns [] h = tt
  resolve_ui-Returns ((name, row) ∷ rest) h =
      by_flags row.from_ui row.disabled (λ d u. h.0 d u) (resolve_ui-Returns rest h.1)
    where
      made : Option (Option PoolConfig)
      made = build_ui_pool as_int as_float as_text getenv name row.fields

      others : Option (List PoolConfig)
      others = resolve_ui as_int as_float as_text getenv rest

      by_flags :
          (u d : Bool)
          → (d ≡ false → u ≡ true → Returns made)
          → Returns others
          → Returns (
              if not u || d
              then others
              else (made >>= λ m.
                  others >>= λ ps. some (add_pool as_int as_float as_text getenv m ps)))
      by_flags false d f ih = ih
      by_flags true true f ih = ih
      by_flags true false f ih =
          Gives-bind (λ m. Unit) (λ ps. Unit) made
            (λ m. others >>= λ ps. some (add_pool as_int as_float as_text getenv m ps))
            (f refl refl)
            (λ m u.
              Gives-bind (λ ps. Unit) (λ ps. Unit) others
                (λ ps. some (add_pool as_int as_float as_text getenv m ps)) ih (λ ps v. tt))

  pub resolve_pools-Gives :
      (base : List PoolConfig) (rows : Dict Text (Override V))
      → All Valid base
      → All (Fits base) rows
      → All Builds rows
      → Gives (All Valid) (resolve_pools as_int as_float as_text getenv base rows)
  unfolding resolve_pools
  resolve_pools-Gives base rows valid fits builds =
      Gives-bind Resolved (All Valid) (resolve_base as_int as_float as_text base rows) _
        (resolve_base-Gives base rows valid fits builds)
        (λ r h.
          Gives-bind (All Valid) (All Valid) (resolve_ui as_int as_float as_text getenv r.1) _
            (Gives-IfGiven (All Valid) (resolve_ui as_int as_float as_text getenv r.1)
              (resolve_ui-Returns r.1 h.1) (resolve_ui-Valid as_int as_float as_text getenv r.1))
            (λ created k. All-append Valid r.0 created h.0 k))
