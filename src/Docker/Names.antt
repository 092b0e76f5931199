-- ===== src/Docker/Names.antt =====
-- What the texts of Docker mean: the helpers of orchestrator/rorch/docker_client.py, and
-- `expand_image` of orchestrator/rorch/version.py.
use selfhosted_runner_swarm.Prelude.{
  ℕ, ◌*◌, Bool, true, false, not, ◌&&◌, Option, none, some, List, [], ◌∷◌, map, if◌then◌else◌, keep,
  any, all, length, leb,
}
use selfhosted_runner_swarm.Prelude.Text.{
  Text, codes, is, truthy, starts_with, contains, lower, split, join, all_digits,
}
use selfhosted_runner_swarm.Prelude.Text.Parts.{
  behind, before_char, after_char, words, replace_text,
}
use selfhosted_runner_swarm.Prelude.Dict.{member, text_key}

-- `{version}` becomes the release, or `latest` where there is none.
unfoldable pub expand_image : Text → Text → Text
unfolding contains replace_text
expand_image version image =
    if contains image (codes "{version}")
    then replace_text (codes "{version}")
        (if truthy version && not (is version "unknown") then version else codes "latest") image
    else image

unfoldable pub is_registry_ref : Text → Bool
unfolding contains before_char
is_registry_ref image = contains (before_char b'@' image) (codes "/")

-- The tag where it is a dotted number, else nothing.
unfoldable pub pinned_runner_version : Text → Text
unfolding after_char split all_digits
pinned_runner_version image =
    let tag = after_char b':' image in
    let parts = split b'.' tag in if leb 2 (length parts) && all all_digits parts then tag else []

-- The middle of `gh-runner-{pool}-{uid}`.
abbrev drop_last : List Text → List Text
drop_last [] = []
drop_last (x ∷ []) = []
drop_last (x ∷ y ∷ rest) = x ∷ drop_last (y ∷ rest)

unfoldable pub pool_of : Text → Text
unfolding split join
pool_of container = elim (split b'-' container) [
  | [] ↦ []
  | a ∷ [] ↦ []
  | a ∷ b ∷ [] ↦ []
  | a ∷ b ∷ c ∷ [] ↦ []
  | a ∷ b ∷ c ∷ d ∷ rest ↦ join (codes "-") (drop_last (c ∷ d ∷ rest))
]

-- How many seconds the unit has; the names are looked for anywhere in the word.
unfoldable pub unit_seconds : Text → Option ℕ
unfolding contains
unit_seconds unit =
    if contains unit (codes "second")
    then some 1
    else if contains unit (codes "minute")
    then some 60
    else if contains unit (codes "hour")
    then some 3600
    else if contains unit (codes "day")
    then some 86400
    else none

-- `_parse_running_minutes`, counted in seconds: `float` reads a numeral as a whole number, which is
-- what `docker ps` writes, and is nothing for a word.
unfoldable pub running_seconds : (Text → Option ℕ) → Text → Option ℕ
unfolding words lower unit_seconds
running_seconds float running_for = elim (words (lower running_for)) [
  | [] ↦ none
  | value ∷ [] ↦ none
  | value ∷ unit ∷ rest ↦ elim (float value) [
    | none ↦ none
    | some n ↦ elim (unit_seconds unit) [ none ↦ none | some k ↦ some (n * k) ]
  ]
]

abbrev pub protected_container_prefixes : List Text
protected_container_prefixes = codes "gh-runner-" ∷ codes "rorch-" ∷ []

unfoldable pub is_protected : Text → Bool
unfolding starts_with
is_protected name = any (starts_with name) protected_container_prefixes

-- `{pair.split("=", 1)[0] for pair in labels.split(",") if pair}`
unfoldable pub label_keys : Text → List Text
unfolding split before_char
label_keys labels = map (before_char b'=') (keep truthy (split b',' labels))

-- One configured pattern: a label's key, or a name glob. `fnmatch` is a parameter.
unfoldable pub matches : (Text → Text → Bool) → Text → Text → Text → Bool
unfolding starts_with behind label_keys member
matches fnmatch name labels pattern =
    if starts_with pattern (codes "label=")
    then member (behind (codes "label=") pattern) (label_keys labels)
    else fnmatch name pattern

unfoldable pub is_ci_container : (Text → Text → Bool) → List Text → Text → Text → Text → Bool
unfolding is_protected split starts_with matches
is_ci_container fnmatch patterns name networks labels =
    if is_protected name
    then false
    else if any (λ n. starts_with n (codes "github_network_")) (split b',' networks)
    then true
    else any (matches fnmatch name labels) patterns
