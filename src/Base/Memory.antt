-- ===== src/Base/Memory.antt =====
-- The allocator, which is not code of the repository: for each size, whether malloc, calloc or
-- realloc grants it. The two hypotheses are what the C library documents of a size_t request.
use Prim.Native.Nat.{ℕ, ◌^◌, ◌≤◌, ◌<◌}
use mathlib.Core.Path.{◌≡◌}
use mathlib.Core.Bool.{Bool, true}

-- Every allocation up to 2 ^ 62 bytes succeeds.
abbrev pub Grants : (ℕ → Bool) → Type 0
Grants malloc = (n : ℕ) → n ≤ 2 ^ 62 → malloc n ≡ true

-- No allocation of 2 ^ 63 bytes or more succeeds: an object is no larger than PTRDIFF_MAX.
abbrev pub Bounded : (ℕ → Bool) → Type 0
Bounded malloc = (n : ℕ) → malloc n ≡ true → n < 2 ^ 63
