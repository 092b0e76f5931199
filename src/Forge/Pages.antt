-- ===== src/Forge/Pages.antt =====
-- Reading an account's repositories page by page, `list_repositories` of
-- orchestrator/rorch/github_client.py.
use selfhosted_runner_swarm.Prelude.{
  take, drop, ℕ, zero, suc, ◌+◌, ◌*◌, ◌≤◌, ◌<◌, ◌≡◌, ◌≢◌, inl, inr, refl, sym, ap, ◌∙◌, Bool, false,
  ◌&&◌, ◌||◌, Option, some, List, [], ◌∷◌, ◌++◌, any, length, ltb, All, Distinct, Bool-cases,
  ltb→lt, arith,
}
use selfhosted_runner_swarm.Prelude.Sort.{sorted, insert, text_leb, Distinct-sorted}
use selfhosted_runner_swarm.Prelude.Text.{Text, text_eq, text_eq_iff}
use selfhosted_runner_swarm.Prelude.Dict.{member, text_key}
use selfhosted_runner_swarm.Config.{PoolConfig}
use selfhosted_runner_swarm.Scaler.State.{returned}
use selfhosted_runner_swarm.Forge.Action.{Action}
use selfhosted_runner_swarm.Forge.Payload.{Body, Repository, repositories, repository_list}
use selfhosted_runner_swarm.Forge.Methods.{
  eligible, add_name, add_eligible, repos_path, list_pages, list_repositories,
}

module _ {ℓ} {A : Type ℓ} where
  take-append-drop : (n : ℕ) (xs : List A) → take n xs ++ drop n xs ≡ xs
  take-append-drop zero xs = refl
  take-append-drop (suc n) [] = refl
  take-append-drop (suc n) (x ∷ xs) = ap (◌∷◌ x) (take-append-drop n xs)

  drop-drop : (n m j : ℕ) (xs : List A) → m + n ≡ j → drop n (drop m xs) ≡ drop j xs
  drop-drop n zero j xs e = let e' : n ≡ j = omega arith in rw e' refl
  drop-drop n (suc m) zero xs e = absurd (omega arith)
  drop-drop zero (suc m) (suc j) [] e = refl
  drop-drop (suc n) (suc m) (suc j) [] e = refl
  drop-drop n (suc m) (suc j) (x ∷ xs) e = drop-drop n m j xs (omega arith)

  -- A short page is the last.
  whole_page : (n : ℕ) (xs : List A) → length (take n xs) < n → take n xs ≡ xs
  whole_page zero xs h = absurd (omega arith)
  whole_page (suc n) [] h = refl
  whole_page (suc n) (x ∷ xs) h = ap (◌∷◌ x) (whole_page n xs (omega arith))

  length-drop-lt :
      (n : ℕ) (xs : List A) → 0 < n → n ≤ length (take n xs) → length (drop n xs) < length xs
  length-drop-lt zero xs p h = absurd (omega arith)
  length-drop-lt (suc n) [] p h = absurd (omega arith)
  length-drop-lt (suc n) (x ∷ xs) p h = omega (arith, length-drop-le n xs)
    where
      length-drop-le : (n : ℕ) (xs : List A) → length (drop n xs) ≤ length xs
      length-drop-le zero xs = omega arith
      length-drop-le (suc n) [] = omega arith
      length-drop-le (suc n) (x ∷ xs) = omega (arith, length-drop-le n xs)

member-insert : (a x : Text) (xs : List Text) → member a (insert text_leb x xs) ≡ member a (x ∷ xs)
unfolding insert member
member-insert a x [] = refl
member-insert a x (y ∷ xs) = ground (arith, member-insert a x xs)

member-sorted : (a : Text) (xs : List Text) → member a (sorted text_leb xs) ≡ member a xs
unfolding sorted member
member-sorted a [] = refl
member-sorted a (x ∷ xs) = member-insert a x (sorted text_leb xs) ∙ rw (member-sorted a xs) refl

member-add_name :
    (name a : Text) (names : List Text)
    → member name (add_name a names) ≡ (text_eq a name || member name names)
unfolding member
member-add_name name a names = elim (Bool-cases (member a names)) [
  | inl e ↦ rw e (ground (arith, text_eq_iff a name))
  | inr e ↦ rw e (ground arith)
]

fresh_name : (a : Text) (xs : List Text) → member a xs ≡ false → All (λ y. a ≢ y) xs
unfolding member
fresh_name a [] h = tt
fresh_name a (x ∷ xs) h =
    ((λ e. ground (arith, text_eq_iff x a)), fresh_name a xs (ground (arith, text_eq_iff x a)))

Distinct-add_name :
    (a : Text) (xs : List Text)
    → Distinct (λ name. name) xs
    → Distinct (λ name. name) (add_name a xs)
Distinct-add_name a xs d = elim (Bool-cases (member a xs)) [
  | inl e ↦ rw e d
  | inr e ↦ rw e (fresh_name a xs e, d)
]

module _ (fnmatch : Text → Text → Bool) (pool : PoolConfig) where
  add_eligible-append :
      (rs qs : List Repository) (names : List Text)
      → add_eligible fnmatch pool (rs ++ qs) names
        ≡ add_eligible fnmatch pool qs (add_eligible fnmatch pool rs names)
  unfolding add_eligible
  add_eligible-append [] qs names = refl
  add_eligible-append (r ∷ rs) qs names = add_eligible-append rs qs _

  member-add_eligible :
      (name : Text) (rs : List Repository) (names : List Text)
      → member name (add_eligible fnmatch pool rs names)
        ≡ (any (λ r. eligible fnmatch pool r && text_eq r.name name) rs || member name names)
  unfolding add_eligible member
  member-add_eligible name [] names = refl
  member-add_eligible name (r ∷ rs) names = elim (Bool-cases (eligible fnmatch pool r)) [
    | inl e ↦ rw e (
        member-add_eligible name rs (add_name r.name names)
        ∙ ground (arith, member-add_name name r.name names))
    | inr e ↦ rw e (member-add_eligible name rs names)
  ]

  Distinct-add_eligible :
      (rs : List Repository) (names : List Text)
      → Distinct (λ name. name) names
      → Distinct (λ name. name) (add_eligible fnmatch pool rs names)
  unfolding add_eligible
  Distinct-add_eligible [] names d = d
  Distinct-add_eligible (r ∷ rs) names d = elim (Bool-cases (eligible fnmatch pool r)) [
    | inl e ↦
        rw e (Distinct-add_eligible rs (add_name r.name names) (Distinct-add_name r.name names d))
    | inr e ↦ rw e (Distinct-add_eligible rs names d)
  ]

  -- The forge answers page `k + 1` with the entries from `k * size` on, at most `size` of them.
  module _ {S : Type 0} (get_body : Text → Text → Action S (Option Body)) (size : ℕ)
      (account : List Repository)
      (pages : (k : ℕ) (s : S)
        → (s' : S) × (get_body pool.pat (repos_path size (k + 1)) s
            ≡ (returned (some (repositories (take size (drop (k * size) account)))), s'))) where
    list_pages-Complete :
        (fuel k : ℕ) (names : List Text) (s : S)
        → 0 < size
        → length (drop (k * size) account) < fuel
        → (s' : S) × (list_pages get_body fnmatch size fuel pool (k + 1) names s ≡ (
          returned (
              some (
                some
                  (sorted text_leb (add_eligible fnmatch pool (drop (k * size) account) names)))),
          s',
        ))
    unfolding list_pages repository_list
    list_pages-Complete zero k names s p h = absurd (omega arith)
    list_pages-Complete (suc fuel) k names s p h =
        let rest = drop (k * size) account in
        let page = take size rest in
        let (s', asked) = pages k s in
        let names' = add_eligible fnmatch pool page names in
        elim (Bool-cases (ltb (length page) size)) [
          | inl e ↦
              (s', rw asked (rw e (rw (whole_page size rest (ltb→lt (length page) size e)) refl)))
          | inr e ↦
              let following : drop size rest ≡ drop ((k + 1) * size) account =
                drop-drop size (k * size) ((k + 1) * size) account (grind arith) in
              let (t, read) =
                list_pages-Complete fuel (k + 1) names' s' p
                  (rw (← following) (omega (arith, length-drop-lt size rest p (ground arith)))) in
              let all_read : add_eligible fnmatch pool (drop ((k + 1) * size) account) names'
                  ≡ add_eligible fnmatch pool rest names =
                rw (← following) (
                  sym (add_eligible-append page (drop size rest) names)
                  ∙ ap (λ rs. add_eligible fnmatch pool rs names) (take-append-drop size rest)) in
              (
                t,
                rw asked (
                    rw e
                      (read ∙ ap (λ l. (returned (some (some (sorted text_leb l))), t)) all_read)),
              )
        ]

    -- Where the forge answers each page as the account's list of repositories has it, and with fuel
    -- for more rounds than the account has repositories, the listing ends with a list in which a name
    -- stands exactly if an eligible repository of any page has it, and stands once.
    pub list_repositories_lem :
        (fuel : ℕ) (s : S)
        → 0 < size
        → length account < fuel
        → (names : List Text) × (s' : S) × (list_repositories get_body fnmatch size fuel pool s
            ≡ (returned (some (some names)), s'))
          × ((name : Text)
              → member name names
                ≡ any (λ r. eligible fnmatch pool r && text_eq r.name name) account)
          × Distinct (λ name. name) names
    unfolding list_repositories
    list_repositories_lem fuel s p h =
        let names = add_eligible fnmatch pool account [] in
        let start : 0 * size ≡ 0 = omega arith in
        let (s', read) = rw start at (list_pages-Complete fuel 0 [] s p (rw start h)) in
        (
          sorted text_leb names,
          s',
          read,
          (λ name.
              member-sorted name names
              ∙ (member-add_eligible name account [] ∙ unfold member in ground arith)),
          Distinct-sorted text_leb (λ name. name) names (Distinct-add_eligible account [] tt),
        )
