-- ===== src/Prelude/Word.antt =====
-- `usize` on a 64-bit target: a native number below `word`, with the wrap-around written out.
use Prim.Native.Nat.{ℕ, ◌+◌, ◌-◌, ◌%◌, ◌^◌, ◌<◌}
use mathlib.Core.Path.{◌≡◌}
use native.Mathlib.Omega.{arith}

abbrev pub word : ℕ
word = 2 ^ 64

-- `usize::MAX`
abbrev pub usize_max : ℕ
usize_max = 2 ^ 64 - 1

abbrev pub wrapping_add : ℕ → ℕ → ℕ
wrapping_add a b = (a + b) % 2 ^ 64

abbrev pub wrapping_sub : ℕ → ℕ → ℕ
wrapping_sub a b = (a + 2 ^ 64 - b) % 2 ^ 64

pub wrapping_add-lt : (a b : ℕ) → wrapping_add a b < word
wrapping_add-lt a b = omega arith

-- Within less than `word` steps from `a`, the wrapping difference is the number of steps.
pub wrapping_sub-add : (a n : ℕ) → a < word → n < word → wrapping_sub (wrapping_add a n) a ≡ n
wrapping_sub-add a n ha hn = omega arith
