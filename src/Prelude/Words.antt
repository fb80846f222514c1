-- ===== src/Prelude/Words.antt =====
-- Arithmetic on the machine words of the program: `u64`, and `usize` on a 64-bit host.
use Prim.Native.Nat.{ℕ, ◌+◌, ◌*◌, ◌%◌, min}

-- 2 ^ 64 and the greatest `u64`.
abbrev pub u64_mod : ℕ
u64_mod = 18446744073709551616

abbrev pub u64_max : ℕ
u64_max = 18446744073709551615

-- `a + b`, which wraps in a release build.
infixl 65 ◌+64◌
abbrev pub ◌+64◌ : ℕ → ℕ → ℕ
a +64 b = (a + b) % u64_mod

-- `saturating_add` and `saturating_mul`. `saturating_sub` is the `-` of the natural numbers.
abbrev pub saturating_add : ℕ → ℕ → ℕ
saturating_add a b = min (a + b) u64_max

abbrev pub saturating_mul : ℕ → ℕ → ℕ
saturating_mul a b = min (a * b) u64_max
