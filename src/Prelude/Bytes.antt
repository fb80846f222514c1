-- ===== src/Prelude/Bytes.antt =====
-- Byte strings as lists of numbers, and big-endian words of a given number of bytes.
use Prim.Native.Nat.{ℕ, zero, suc, ◌+◌, ◌*◌, ◌/◌, ◌%◌, ◌^◌, ◌<◌}
use mathlib.Core.Path.{◌≡◌, refl, ◌∙◌}
use mathlib.Core.List.{List, [], ◌∷◌, ◌++◌}
use native.Mathlib.Omega.{arith}
use native.Mathlib.Nat.{pow-suc}
use gas_analyzer.Prelude.Lists.{length, replicate, length-append}

abbrev pub Bytes : Type 0
Bytes = List ℕ

-- The `k` low bytes of `n`, the most significant first.
unfoldable pub be_bytes : ℕ → ℕ → Bytes
be_bytes zero n = []
be_bytes (suc k) n = be_bytes k (n / 256) ++ (n % 256 ∷ [])

-- The number that a big-endian byte string stands for, on top of what was read before.
unfoldable pub read_be : ℕ → Bytes → ℕ
read_be acc [] = acc
read_be acc (b ∷ bs) = read_be (acc * 256 + b) bs

read_be-append : (acc : ℕ) (xs ys : Bytes) → read_be acc (xs ++ ys) ≡ read_be (read_be acc xs) ys
unfolding read_be
read_be-append acc [] ys = refl
read_be-append acc (x ∷ xs) ys = read_be-append (acc * 256 + x) xs ys

pub read_be-be_bytes : (k n : ℕ) → n < 256 ^ k → read_be 0 (be_bytes k n) ≡ n
unfolding read_be be_bytes
read_be-be_bytes zero n h = omega arith
read_be-be_bytes (suc k) n h =
    let bound : n / 256 < 256 ^ k = omega (arith, pow-suc 256 k) in
    rw (read_be-append 0 (be_bytes k (n / 256)) (n % 256 ∷ []))
      (rw (read_be-be_bytes k (n / 256) bound) (omega arith))

pub length-be_bytes : (k n : ℕ) → length (be_bytes k n) ≡ k
unfolding be_bytes
length-be_bytes zero n = refl
length-be_bytes (suc k) n =
    length-append (be_bytes k (n / 256)) (n % 256 ∷ []) ∙ omega (arith, length-be_bytes k (n / 256))

pub read_be-replicate_zero : (k : ℕ) (xs : Bytes) → read_be 0 (replicate k 0 ++ xs) ≡ read_be 0 xs
unfolding read_be
read_be-replicate_zero zero xs = refl
read_be-replicate_zero (suc k) xs = read_be-replicate_zero k xs
