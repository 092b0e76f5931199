-- ===== src/Config/Size.antt =====
-- Docker sizes: `parse_size` of orchestrator/rorch/config.py, and the size of the tmpfs over the
-- runner's work directory.
pub mod Auto
use mathlib.Core.List.{reverse}
use selfhosted_runner_swarm.Prelude.{
  ℕ, zero, suc, ◌+◌, ◌*◌, ◌/◌, ◌^◌, ◌≤◌, ◌≡◌, refl, ap, Bool, true, false, not, ◌&&◌, Option, none,
  some, List, [], ◌∷◌, ◌++◌, arith, if◌then◌else◌, ◌==◌, all, inl, inr, Bool-cases,
}
use selfhosted_runner_swarm.Prelude.Text.{
  Text, codes, is, truthy, lower, strip, is_digit, digits_value, show, digits_value-show, all-show,
}
use selfhosted_runner_swarm.Config.{PoolConfig}

-- The leading digits of a text, and what follows them.
unfoldable pub span_digits : Text → Text × Text
span_digits [] = ([], [])
span_digits (c ∷ s) =
    let (digits, rest) = span_digits s in if is_digit c then (c ∷ digits, rest) else ([], c ∷ s)

-- `_SIZE_UNITS` at the second group of `_SIZE_RE`, with the `b` that may follow it.
unfoldable pub unit_of : Text → Option ℕ
unit_of s =
    if is s ""
    then some 1
    else if is s "b"
    then some 1
    else if is s "k"
    then some 1024
    else if is s "kb"
    then some 1024
    else if is s "m"
    then some (1024 ^ 2)
    else if is s "mb"
    then some (1024 ^ 2)
    else if is s "g"
    then some (1024 ^ 3)
    else if is s "gb"
    then some (1024 ^ 3)
    else none

unfoldable pub sized : Text × Text → Option ℕ
unfolding unit_of digits_value
sized ([], rest) = none
sized (c ∷ digits, rest) = elim (unit_of rest) [
  | none ↦ none
  | some unit ↦ some (digits_value 0 (c ∷ digits) * unit)
]

unfoldable pub parse_size : Text → Option ℕ
unfolding span_digits sized strip lower
parse_size value = sized (span_digits (lower (strip value)))

-- `parse_size(size) != 0`
abbrev pub is_not_zero : Option ℕ → Bool
is_not_zero none = true
is_not_zero (some n) = not (n == 0)

unfoldable pub work_tmpfs_enabled : PoolConfig → Bool
unfolding parse_size
work_tmpfs_enabled p =
    let size = strip p.work_tmpfs_size in truthy size && is_not_zero (parse_size size)

unfoldable pub auto_work_tmpfs_fallback : Text
auto_work_tmpfs_fallback = codes "4g"

-- Half of the memory limit, in whole MiB.
unfoldable pub half_memory : Option ℕ → Text
unfolding auto_work_tmpfs_fallback show
half_memory none = auto_work_tmpfs_fallback
half_memory (some memory) =
    if memory == 0 then auto_work_tmpfs_fallback else show (memory / 2 / 1024 ^ 2) ++ codes "m"

unfoldable pub effective_work_tmpfs_size : PoolConfig → Text
unfolding work_tmpfs_enabled half_memory
effective_work_tmpfs_size p =
    let size = strip p.work_tmpfs_size in
    if not (work_tmpfs_enabled p)
    then []
    else if not (is (lower size) "auto")
    then size
    else half_memory (parse_size p.memory_limit)
