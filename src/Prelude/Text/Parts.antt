-- ===== src/Prelude/Text/Parts.antt =====
-- Parts of texts: prefixes, pieces before and after a character, words, and replacement.
use Prim.Native.Nat.{ℕ, zero, suc, ◌-◌}
use mathlib.Core.List.{List, [], ◌∷◌, ◌++◌, map}
use selfhosted_runner_swarm.Prelude.Tests.{◌==◌, if◌then◌else◌}
use selfhosted_runner_swarm.Prelude.Lists.{keep, length}
use selfhosted_runner_swarm.Prelude.Text.{Text, starts_with, split, is_space, truthy}

-- The text behind a prefix, nothing where the prefix does not fit.
unfoldable pub behind : Text → Text → Text
behind [] s = s
behind (p ∷ ps) [] = []
behind (p ∷ ps) (c ∷ s) = if p == c then behind ps s else []

-- `s.partition(c)[0]`
unfoldable pub before_char : ℕ → Text → Text
before_char c [] = []
before_char c (d ∷ s) = if d == c then [] else d ∷ before_char c s

-- `s.partition(c)[2]`
unfoldable pub after_char : ℕ → Text → Text
after_char c [] = []
after_char c (d ∷ s) = if d == c then s else after_char c s

-- `s.split()`
unfoldable pub words : Text → List Text
unfolding split
words s = keep truthy (split 32 (map (λ c. if is_space c then 32 else c) s))

-- `s.replace(old, new)`, of which some characters are to be skipped first
unfoldable pub replace_from : ℕ → Text → Text → Text → Text
unfolding starts_with
replace_from skip old new [] = []
replace_from (suc skip) old new (c ∷ s) = replace_from skip old new s
replace_from zero old new (c ∷ s) =
    let replaced = new ++ replace_from (length old - 1) old new s in
    let left = c ∷ replace_from 0 old new s in if starts_with (c ∷ s) old then replaced else left

unfoldable pub replace_text : Text → Text → Text → Text
unfolding replace_from
replace_text old new s = replace_from 0 old new s
