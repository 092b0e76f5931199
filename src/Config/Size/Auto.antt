-- ===== src/Config/Size/Auto.antt =====
-- The size that "auto" stands for, `effective_work_tmpfs_size` of orchestrator/rorch/config.py.
use selfhosted_runner_swarm.Prelude.{
  false, ◌==◌, ℕ, ◌*◌, ◌/◌, ◌^◌, ◌≡◌, refl, ap, sym, ◌≢◌, true, none, some, [], ◌∷◌, ◌++◌, arith,
  all, ◌∙◌,
}
use selfhosted_runner_swarm.Prelude.Text.{
  truthy, Text, codes, is, text_eq, text_eq_iff, lower, strip, is_digit, digits_value, show,
  digits_value-show, all-show, all-append, show-ne-nil,
}
use selfhosted_runner_swarm.Prelude.Text.Clean.{
  solid, strip-solid, all-lower, solid_of_digits, lower_digits, lower-append,
}
use selfhosted_runner_swarm.Config.{PoolConfig}
use selfhosted_runner_swarm.Config.Size.{
  span_digits, sized, parse_size, work_tmpfs_enabled, half_memory, effective_work_tmpfs_size,
}

span_digits-append :
    (d : Text) → all is_digit d ≡ true → span_digits (d ++ codes "m") ≡ (d, codes "m")
unfolding span_digits
span_digits-append [] h = refl
span_digits-append (c ∷ d) h = ground (arith, span_digits-append d)

sized_mebibytes : (d : Text) → d ≢ [] → sized (d, codes "m") ≡ some (digits_value 0 d * 1024 ^ 2)
unfolding sized text_eq
sized_mebibytes [] h = absurd (h refl)
sized_mebibytes (c ∷ d) h = refl

mebibytes-solid : (n : ℕ) → all solid (show n ++ codes "m") ≡ true
mebibytes-solid n =
    ground (arith, all-append solid (show n) (codes "m"), solid_of_digits (show n), all-show n)

lower-mebibytes : (n : ℕ) → lower (show n ++ codes "m") ≡ show n ++ codes "m"
unfolding lower
lower-mebibytes n =
    lower-append (show n) (codes "m")
    ∙ ap (λ s. s ++ codes "m") (lower_digits (show n) (all-show n))

-- `f"{n}m"` reads back as n MiB.
parse_size-mebibytes : (n : ℕ) → parse_size (show n ++ codes "m") ≡ some (n * 1024 ^ 2)
unfolding parse_size
parse_size-mebibytes n = rw (
  strip-solid (show n ++ codes "m") (mebibytes-solid n),
  lower-mebibytes n,
  span_digits-append (show n) (all-show n),
  sized_mebibytes (show n) (show-ne-nil n),
  digits_value-show n,
)

not_zero_test : (m : ℕ) → m ≢ 0 → (m == 0) ≡ false
not_zero_test m h = ground arith

-- A text that says "auto" in any case holds no white space and is no number.
auto-solid : (s : Text) → is (lower s) "auto" ≡ true → all solid s ≡ true
unfolding text_eq
auto-solid s h = sym (all-lower s) ∙ ap (all solid) ((text_eq_iff (lower s) (codes "auto")).0 h)

auto_no_number : (s : Text) → is (lower s) "auto" ≡ true → parse_size s ≡ none
unfolding parse_size text_eq
auto_no_number s h = rw (strip-solid s (auto-solid s h), (text_eq_iff (lower s) (codes "auto")).0 h)

auto-truthy : (s : Text) → is (lower s) "auto" ≡ true → truthy s ≡ true
unfolding lower text_eq
auto-truthy [] h = cc
auto-truthy (c ∷ s) h = refl

auto_enabled :
    (p : PoolConfig)
    → is (lower (strip p.work_tmpfs_size)) "auto" ≡ true
    → work_tmpfs_enabled p ≡ true
unfolding work_tmpfs_enabled
auto_enabled p h =
    rw (auto-truthy (strip p.work_tmpfs_size) h, auto_no_number (strip p.work_tmpfs_size) h)

-- With work_tmpfs_size "auto" (in any case, white space around it) and a memory limit that parses
-- to m bytes, m not 0, the effective size parses too: to half of m rounded down to whole MiB.
pub auto_size_reads_back :
    (p : PoolConfig) (m : ℕ)
    → is (lower (strip p.work_tmpfs_size)) "auto" ≡ true
    → parse_size p.memory_limit ≡ some m
    → m ≢ 0
    → parse_size (effective_work_tmpfs_size p) ≡ some (m / 2 / 1024 ^ 2 * 1024 ^ 2)
unfolding effective_work_tmpfs_size half_memory
auto_size_reads_back p m h e nz =
    rw (auto_enabled p h, h, e) (rw (not_zero_test m nz) (parse_size-mebibytes (m / 2 / 1024 ^ 2)))
