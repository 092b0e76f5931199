-- ===== src/Server/Control/Longest.antt =====
-- Which runner a manual scale-down stops: orchestrator/rorch/server/control_routes.py.
use selfhosted_runner_swarm.Prelude.{
  In-keep, ℕ, ◌≤◌, ◌≡◌, ◌⊎◌, inl, inr, refl, sym, subst, All-mono, Bool, true, false, not, Option,
  none, some, List, [], ◌∷◌, keep, ltb, arith, All, In, if◌then◌else◌, All-In, All-both,
}
use selfhosted_runner_swarm.Prelude.Int.{negsuc}
use selfhosted_runner_swarm.Prelude.Text.{Text, split, truthy}
use selfhosted_runner_swarm.Prelude.Dict.{Dict}
use selfhosted_runner_swarm.Config.{PoolConfig, container_prefix}
use selfhosted_runner_swarm.Resolver.{pool_named}
use selfhosted_runner_swarm.Docker.{Docker, Run, capture, ◌>>=◌}
use selfhosted_runner_swarm.Docker.Cleanup.{stop_container, four_fields, newline, tab, named}
use selfhosted_runner_swarm.Docker.Details.{
  ContainerInfo, container_details, container_infos, infos_in, details_command, info_of, as_info,
  or_none,
}
use selfhosted_runner_swarm.Docker.Names.{running_seconds}
use selfhosted_runner_swarm.Resolver.Identity.{IfGiven}
use selfhosted_runner_swarm.Store.{Tables}
use selfhosted_runner_swarm.Server.Control.{Json, Response, refused, no_idle_runner}
use selfhosted_runner_swarm.Server.Control.Pools.{pools_in_force}
use selfhosted_runner_swarm.Server.Control.Runners.{
  was_busy, longest, longest_of, idle_container, delta_in, scale_down, stop_victim, scale_pool,
}

-- The running time that the listing shows in seconds; 0 where it shows no number of
-- seconds, minutes, hours or days.
abbrev pub shown : (Text → Option ℕ) → ContainerInfo → ℕ
shown float info = or_none (running_seconds float info.running_for)

-- The runner is listed and idle, and no idle one that is listed is shown with a longer time.
pub record IsLongestIdle (float : Text → Option ℕ) (t : Tables) (infos : List ContainerInfo)
    (victim : ContainerInfo) : Type 0 where
  pub listed : In victim infos
  pub idle : was_busy t victim.name ≡ false
  pub oldest : All (λ i. was_busy t i.name ≡ false → shown float i ≤ shown float victim) infos

module _ {A : Type 0} (p : A → Bool) where
  All-kept : (P : A → Type 0) (xs : List A) → All P (keep p xs) → All (λ x. p x ≡ true → P x) xs
  All-kept P [] h = tt
  All-kept P (x ∷ xs) h = by_test (p x) refl (All-kept P xs) h
    where
      by_test :
          (b : Bool)
          → p x ≡ b
          → (All P (keep p xs) → All (λ y. p y ≡ true → P y) xs)
          → All P (if b then x ∷ keep p xs else keep p xs)
          → All (λ y. p y ≡ true → P y) (x ∷ xs)
      by_test true e ih k = ((λ q. k.0), ih k.1)
      by_test false e ih k = ((λ q. cc), ih k)

  none_kept : (xs : List A) → keep p xs ≡ [] → All (λ x. p x ≡ false) xs
  none_kept [] e = tt
  none_kept (x ∷ xs) e = by_test (p x) refl (none_kept xs) e
    where
      by_test :
          (b : Bool)
          → p x ≡ b
          → (keep p xs ≡ [] → All (λ y. p y ≡ false) xs)
          → (if b then x ∷ keep p xs else keep p xs) ≡ []
          → All (λ y. p y ≡ false) (x ∷ xs)
      by_test true e ih k = cc
      by_test false e ih k = (e, ih k)

longest-In :
    (best : ContainerInfo) (infos : List ContainerInfo) → In (longest best infos) (best ∷ infos)
unfolding longest
longest-In best [] = inl refl
longest-In best (info ∷ rest) =
    by_test (ltb best.seconds info.seconds) (longest-In best rest) (longest-In info rest)
  where
    by_test :
        (b : Bool)
        → In (longest best rest) (best ∷ rest)
        → In (longest info rest) (info ∷ rest)
        → In (if b then longest info rest else longest best rest) (best ∷ info ∷ rest)
    by_test true m n = inr n
    by_test false (inl e) n = inl e
    by_test false (inr m) n = inr (inr m)

longest_oldest :
    (best : ContainerInfo) (infos : List ContainerInfo)
    → All (λ i. i.seconds ≤ (longest best infos).seconds) (best ∷ infos)
unfolding longest
longest_oldest best [] = (omega arith, tt)
longest_oldest best (info ∷ rest) =
    by_test (ltb best.seconds info.seconds) refl (longest_oldest best rest)
      (longest_oldest info rest)
  where
    Under : ContainerInfo → ContainerInfo → Type 0
    Under m i = i.seconds ≤ m.seconds

    by_test :
        (b : Bool)
        → ltb best.seconds info.seconds ≡ b
        → All (Under (longest best rest)) (best ∷ rest)
        → All (Under (longest info rest)) (info ∷ rest)
        → All (Under (if b then longest info rest else longest best rest)) (best ∷ info ∷ rest)
    by_test true e h k = (ground (arith, k.0), k)
    by_test false e h k = (h.0, (ground (arith, h.0), h.1))

module _ (float : Text → Option ℕ) where
  abbrev Read : ContainerInfo → Type 0
  Read i = i.seconds ≡ shown float i

  info_of-Read : (line : Text) → IfGiven Read (info_of float line)
  unfolding info_of
  info_of-Read line = by_fields (four_fields (split tab line))
    where
      by_fields : (o : Option (Text × (Text × (Text × Text)))) → IfGiven Read (as_info float o)
      by_fields none = tt
      by_fields (some row) = refl

  container_infos-Read : (lines : List Text) → All Read (container_infos float lines)
  unfolding container_infos
  container_infos-Read [] = tt
  container_infos-Read (line ∷ rest) =
      by_info (info_of float line) (info_of-Read line) (container_infos-Read rest)
    where
      others : List ContainerInfo
      others = container_infos float rest

      by_info :
          (o : Option ContainerInfo)
          → IfGiven Read o
          → All Read others
          → All Read (elim o [ none ↦ others | some info ↦ info ∷ others ])
      by_info none r ih = ih
      by_info (some info) r ih = (r, ih)

  infos_in-Read : (out : Text) → All Read (infos_in float out)
  unfolding infos_in
  infos_in-Read out = by_output (truthy out)
    where
      by_output :
          (b : Bool) → All Read (if b then container_infos float (split newline out) else [])
      by_output true = container_infos-Read (split newline out)
      by_output false = tt

  container_details-Read :
      {W : Type 0} (d : Docker W) (prefix : Text) (w : W)
      → All Read (container_details float d prefix w).0
  unfolding container_details ◌>>=◌
  container_details-Read d prefix w = infos_in-Read (capture d (details_command prefix) w).0.0

-- The choice, for each outcome.
abbrev pub Chosen : (Text → Option ℕ) → Tables → List ContainerInfo → Option ContainerInfo → Type 0
Chosen float t infos none = All (λ i. was_busy t i.name ≡ true) infos
Chosen float t infos (some victim) = IsLongestIdle float t infos victim

idle_container-Chosen :
    (float : Text → Option ℕ) (t : Tables) (infos : List ContainerInfo)
    → All (Read float) infos
    → Chosen float t infos (idle_container t infos)
unfolding idle_container
idle_container-Chosen float t infos read = by_kept (keep idle infos) refl
  where
    idle : ContainerInfo → Bool
    idle i = not (was_busy t i.name)

    by_kept :
        (xs : List ContainerInfo) → keep idle infos ≡ xs → Chosen float t infos (longest_of xs)
    by_kept [] e =
        All-mono (λ i. idle i ≡ false) (λ i. was_busy t i.name ≡ true) (λ i h. ground (arith, h))
          infos (none_kept idle infos e)
    by_kept (x ∷ xs) e =
        let found =
          In-keep idle (longest x xs) infos (subst (In (longest x xs)) (sym e) (longest-In x xs)) in
        record {
          listed = found.0;
          idle = ground (arith, found.1);
          oldest =
              All-mono (λ i. (idle i ≡ true → i.seconds ≤ (longest x xs).seconds) × Read float i) _
                (λ i h k. omega (
                  arith,
                  h.0 (ground (arith, k)),
                  h.1,
                  All-In (Read float) (longest x xs) infos read found.0,
                ))
                infos
                (All-both _ (Read float) infos
                  (All-kept idle (λ i. i.seconds ≤ (longest x xs).seconds) infos
                    (subst (All (λ i. i.seconds ≤ (longest x xs).seconds)) (sym e)
                      (longest_oldest x xs)))
                  read);
        }

module _ {V W : Type 0} (json : Json V) (getenv : Text → Text) (base : List PoolConfig)
    (float : Text → Option ℕ) (d : Docker W) (spawn : PoolConfig → Run W Bool) where
  -- What a scale-down gives: nothing was idle, or one runner is stopped.
  abbrev pub ScaledDown : Tables → List ContainerInfo → W → Option Response × (Tables × W) → Type 0
  ScaledDown t infos after x =
      (All (λ i. was_busy t i.name ≡ true) infos
        × (x ≡ (some (refused 409 no_idle_runner), (t, after))))
      ⊎ ((victim : ContainerInfo) × IsLongestIdle float t infos victim
          × (x.1.1 ≡ (stop_container d victim.name after).1))

  stop_victim-ScaledDown :
      (now : ℕ) (actor name : Text) (t : Tables) (infos : List ContainerInfo) (after : W)
      (o : Option ContainerInfo)
      → Chosen float t infos o
      → ScaledDown t infos after
          (stop_victim json getenv base float d spawn now actor name o (t, after))
  stop_victim-ScaledDown now actor name t infos after none h = inl (h, refl)
  stop_victim-ScaledDown now actor name t infos after (some victim) h = inr (victim, h, refl)

  -- A request to scale a pool in force down by one: if each listed runner of the pool is busy in the last
  -- report, it is refused and neither the tables nor, after the listing, the containers change; otherwise it
  -- stops a listed runner that is not busy, and the listing shows no other that is not busy with a longer
  -- running time, where one that is not shown as a number of seconds, minutes, hours or days counts as 0.
  pub scale_down_lem :
      (now : ℕ) (actor name : Text) (body : Dict Text V) (t : Tables) (w : W)
      (pools : List PoolConfig) (pool : PoolConfig)
      → pools_in_force json getenv base t ≡ some pools
      → pool_named name pools ≡ some pool
      → delta_in json getenv base float d spawn body ≡ some (negsuc 0)
      → ScaledDown t
          (container_details float d (container_prefix pool) w).0
          (container_details float d (container_prefix pool) w).1
          (scale_pool json getenv base float d spawn now actor name body (t, w))
  unfolding scale_pool scale_down
  scale_down_lem now actor name body t w pools pool in_force named down = rw in_force (
      rw named (
        rw down (
          let listing = container_details float d (container_prefix pool) w in
          stop_victim-ScaledDown now actor name t listing.0 listing.1 (idle_container t listing.0) (
            idle_container-Chosen float t listing.0
              (container_details-Read float d (container_prefix pool) w)))))
