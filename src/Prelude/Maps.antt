-- ===== src/Prelude/Maps.antt =====
-- A `BTreeMap` with numbers for keys: an association list in ascending order.
use Prim.Native.Nat.{ℕ, ◌+◌, ◌≤◌, ◌<◌}
use mathlib.Core.Path.{◌≡◌, refl, ◌∙◌}
use mathlib.Core.Logic.{inl, inr}
use mathlib.Core.List.{List, [], ◌∷◌}
use mathlib.Core.Option.{Option, none, some}
use native.Mathlib.Omega.{arith}
use gas_analyzer.Prelude.Tests.{◌==◌, ltb, if◌then◌else◌, Bool-cases}
use gas_analyzer.Prelude.Assoc.{lookup}

abbrev pub or_else {ℓ} : {A : Type ℓ} → Option A → Option A → Option A
or_else none o = o
or_else (some a) o = some a

module _ {ℓ} {V : Type ℓ} where
  -- `insert`
  unfoldable pub put : ℕ → V → List (ℕ × V) → List (ℕ × V)
  put k v [] = (k, v) ∷ []
  put k v ((j, w) ∷ m) =
      let rest = put k v m in
      if ltb k j then (k, v) ∷ (j, w) ∷ m else (if k == j then (k, v) ∷ m else (j, w) ∷ rest)

  -- `extend`
  unfoldable pub extend : List (ℕ × V) → List (ℕ × V) → List (ℕ × V)
  extend m [] = m
  extend m ((k, v) ∷ entries) = extend (put k v m) entries

  -- `get_mut`, and what is done to the value behind it.
  unfoldable pub modify : ℕ → (V → V) → List (ℕ × V) → List (ℕ × V)
  modify k f [] = []
  modify k f ((j, v) ∷ m) = if j == k then (j, f v) ∷ m else (j, v) ∷ modify k f m

  abbrev pub Ascending : ℕ → List (ℕ × V) → Type 0
  Ascending n [] = Unit
  Ascending n ((k, v) ∷ m) = (n ≤ k) × Ascending (k + 1) m

  pub lookup-put :
      (k j : ℕ) (v : V) (m : List (ℕ × V))
      → lookup j (put k v m) ≡ (if k == j then some v else lookup j m)
  unfolding lookup put
  lookup-put k j v [] = refl
  lookup-put k j v ((i, w) ∷ m) = ground (arith, lookup-put k j v m)

  pub lookup-modify :
      (k j : ℕ) (f : V → V) (m : List (ℕ × V))
      → lookup j (modify k f m)
        ≡ (if k == j then elim (lookup j m) [ none ↦ none | some v ↦ some (f v) ] else lookup j m)
  unfolding lookup modify
  lookup-modify k j f [] = ground arith
  lookup-modify k j f ((i, w) ∷ m) = ground (arith, lookup-modify k j f m)

  pub put-Ascending :
      (n k : ℕ) (v : V) (m : List (ℕ × V)) → n ≤ k → Ascending n m → Ascending n (put k v m)
  unfolding put
  put-Ascending n k v [] h a = (h, tt)
  put-Ascending n k v ((j, w) ∷ m) h a = ground (arith, put-Ascending (j + 1) k v m)

  pub extend-Ascending : (m entries : List (ℕ × V)) → Ascending 0 m → Ascending 0 (extend m entries)
  unfolding extend
  extend-Ascending m [] a = a
  extend-Ascending m ((k, v) ∷ entries) a =
      extend-Ascending (put k v m) entries (put-Ascending 0 k v m (omega arith) a)

  pub lookup-below : (n j : ℕ) (m : List (ℕ × V)) → Ascending n m → j < n → lookup j m ≡ none
  unfolding lookup
  lookup-below n j [] a h = refl
  lookup-below n j ((k, v) ∷ m) a h = ground (arith, lookup-below (k + 1) j m a.1)

  -- The entries that are added win.
  pub lookup-extend :
      (n j : ℕ) (m entries : List (ℕ × V))
      → Ascending n entries
      → lookup j (extend m entries) ≡ or_else (lookup j entries) (lookup j m)
  unfolding lookup extend
  lookup-extend n j m [] a = refl
  lookup-extend n j m ((k, v) ∷ entries) a =
      lookup-extend (k + 1) j (put k v m) entries a.1
      ∙ rw (lookup-put k j v m) (elim (Bool-cases (k == j)) [
        | inl e ↦ rw (e, lookup-below (k + 1) j entries a.1 (ground (arith, e))) refl
        | inr e ↦ rw e refl
      ])
