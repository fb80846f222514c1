-- ===== src/FrameTree/Depth.antt =====
-- How deep a program stands (crates/core/src/nested.rs, `depth_of`).
use gas_analyzer.FrameTree.{ProgramState, depth_from, depth_of}
use gas_analyzer.FrameTree.Drop.{ParentsBefore, present, parent_here}
use gas_analyzer.Prelude.Results.{Result, ok}
use gas_analyzer.Prelude.{
  ℕ, zero, suc, ◌+◌, ◌≤◌, ◌<◌, ◌≡◌, refl, ap, ◌∙◌, Option, none, some, List, arith, length, u64_mod,
  ◌+64◌,
}
use gas_analyzer.Failure.{Failure}

module _ (programs : List ProgramState) (ordered : ParentsBefore programs) where
  abbrev EndsWithin : Result Failure ℕ → ℕ → ℕ → Type 0
  EndsWithin result low high = (d : ℕ) × (result ≡ ok d) × (low ≤ d) × (d ≤ high)

  -- One round of the loop, before the rounds `next`.
  on_parent :
      (next : ℕ → ℕ → Result Failure ℕ) (id depth : ℕ) (o : Option ℕ)
      → depth + id < u64_mod
      → ((q : ℕ) → o ≡ some q → q < id)
      → ((q : ℕ) → q < id → EndsWithin (next q (depth + 1)) (depth + 1) (depth + 1 + q))
      → EndsWithin (elim o [ none ↦ ok depth | some q ↦ next q (depth +64 1) ]) depth (depth + id)
  on_parent next id depth none u below go = (depth, refl, omega arith, omega arith)
  on_parent next id depth (some q) u below go =
      let up : q < id = below q refl in
      let exact : depth +64 1 ≡ depth + 1 = omega (arith, up) in
      let (d, found, low, high) = go q up in
      (d, ap (next q) exact ∙ found, omega (arith, low), omega (arith, high, up))

  depth_from-bound :
      (fuel id depth : ℕ)
      → id < fuel
      → id < length programs
      → depth + id < u64_mod
      → EndsWithin (depth_from fuel programs id depth) depth (depth + id)
  unfolding depth_from
  depth_from-bound zero id depth f i u = absurd (omega arith)
  depth_from-bound (suc fuel) id depth f i u =
      let (p, here) = present programs id i in
      rw here (
        on_parent (depth_from fuel programs) id depth p.parent u
          (λ q e. ordered id q (parent_here programs id here ∙ e))
          (λ q up.
            depth_from-bound fuel q (depth + 1) (omega (arith, up)) (omega (arith, up))
              (omega (arith, up))))

-- Where parents stand before their children, the loop ends for every program, and its depth is at
-- most its number.
pub depth_of-bound :
    (programs : List ProgramState) (id : ℕ)
    → ParentsBefore programs
    → id < length programs
    → length programs < u64_mod
    → (d : ℕ) × (depth_of programs id ≡ ok d) × (d ≤ id)
unfolding depth_of
depth_of-bound programs id ordered i u =
    let (d, found, low, high) =
      depth_from-bound programs ordered (length programs) id 0 i i (omega arith) in
    (d, found, omega (arith, high))
