-- ===== src/Trace/Memory.antt =====
-- Memory as the EVM has it: without end, and zero where nothing was written.
use native.Mathlib.Nat.{suc-add, zero-add, add-zero}
use gas_analyzer.Trace.{copy_memory}
use gas_analyzer.Prelude.{
  ℕ, zero, suc, ◌+◌, ◌-◌, ◌≤◌, ◌<◌, min, ◌≡◌, refl, sym, ap, ◌∙◌, inl, inr, [], ◌∷◌, ◌++◌, arith,
  ltb, leb, if◌then◌else◌, Bool-cases, tests, length, get_or, take, drop, replicate, u64_max,
  saturating_add,
}
use gas_analyzer.Prelude.Bytes.{Bytes}

-- `n` bytes from an offset on.
unfoldable pub window : Bytes → ℕ → ℕ → Bytes
window memory offset zero = []
window memory offset (suc n) = get_or memory offset 0 ∷ window memory (suc offset) n

pub length-window : (memory : Bytes) (offset n : ℕ) → length (window memory offset n) ≡ n
unfolding window
length-window memory offset zero = refl
length-window memory offset (suc n) = ap suc (length-window memory (suc offset) n)

get_or-past : (memory : Bytes) (offset : ℕ) → length memory ≤ offset → get_or memory offset 0 ≡ 0
get_or-past [] offset h = refl
get_or-past (b ∷ memory) zero h = absurd (omega arith)
get_or-past (b ∷ memory) (suc offset) h = get_or-past memory offset (omega arith)

drop_one :
    (memory : Bytes) (offset : ℕ)
    → offset < length memory
    → drop offset memory ≡ get_or memory offset 0 ∷ drop (suc offset) memory
drop_one [] offset h = elim h [ ]
drop_one (b ∷ memory) zero h = refl
drop_one (b ∷ memory) (suc offset) h = drop_one memory offset (omega arith)

window-past :
    (memory : Bytes) (offset n : ℕ)
    → length memory ≤ offset
    → window memory offset n ≡ replicate n 0
unfolding window
window-past memory offset zero h = refl
window-past memory offset (suc n) h =
    rw (get_or-past memory offset h, window-past memory (suc offset) n (omega arith))

window-inside :
    (memory : Bytes) (offset n : ℕ)
    → offset + n ≤ length memory
    → take n (drop offset memory) ≡ window memory offset n
unfolding window
window-inside memory offset zero h = refl
window-inside memory offset (suc n) h =
    rw (drop_one memory offset (omega arith), window-inside memory (suc offset) n (omega arith))

window-add :
    (memory : Bytes) (offset m n : ℕ)
    → window memory offset (m + n) ≡ window memory offset m ++ window memory (offset + m) n
unfolding window
window-add memory offset zero n = rw (zero-add n, add-zero offset)
window-add memory offset (suc m) n =
    let e : suc offset + m ≡ offset + suc m = omega arith in
    rw (suc-add m n) (ap (◌∷◌ (get_or memory offset 0)) (window-add memory (suc offset) m n ∙ rw e))

-- What is there of the range, and zeros for the rest.
window-cut :
    (memory : Bytes) (offset m n : ℕ)
    → offset + m ≡ length memory
    → take m (drop offset memory) ++ replicate n 0 ≡ window memory offset (m + n)
window-cut memory offset m n e = rw (
  window-add memory offset m n,
  window-inside memory offset m (omega arith),
  window-past memory (offset + m) n (omega arith),
)

-- Whatever the offset and the length, the copy holds just the bytes that the EVM would read there.
pub copy_memory-window :
    (memory : Bytes) (offset len : ℕ)
    → length memory < u64_max
    → copy_memory memory offset len ≡ window memory offset len
unfolding copy_memory
copy_memory-window memory offset len h =
    elim (Bool-cases (leb (saturating_add offset len) (length memory))) [
      | inl fits ↦
          let all_there : offset + len ≤ length memory = omega (tests, fits) in
          let count : saturating_add offset len - offset ≡ len = omega arith in
          rw (fits, count) (window-inside memory offset len all_there)
      | inr over ↦ rw over (cut (ground (arith, over)))
    ]
  where
    have : ℕ
    have = min (length memory - offset) len

    cut :
        length memory < offset + len
        → (if ltb offset (length memory)
            then take have (drop offset memory) ++ replicate (len - have) 0
            else replicate len 0)
          ≡ window memory offset len
    cut short = elim (Bool-cases (ltb offset (length memory))) [
      | inl some_there ↦
          let within : offset < length memory = omega (tests, some_there) in
          let whole : have + (len - have) ≡ len = omega arith in
          rw some_there (
            window-cut memory offset have (len - have) (omega arith)
            ∙ ap (window memory offset) whole)
      | inr none_there ↦
          rw none_there (sym (window-past memory offset len (ground (arith, none_there))))
    ]
