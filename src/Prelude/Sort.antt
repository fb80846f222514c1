-- ===== src/Prelude/Sort.antt =====
-- Sets of numbers as ascending lists, and the stable sort by a key.
use Prim.Native.Nat.{ℕ, ◌+◌, ◌≤◌}
use mathlib.Core.Path.{◌≡◌, refl}
use mathlib.Core.Bool.{Bool, true, false, ◌||◌}
use mathlib.Core.List.{List, [], ◌∷◌, Perm}
use mathlib.Core.List.Perm
use mathlib.Core.Logic.{inl, inr}
use native.Mathlib.Omega.{arith}
use gas_analyzer.Prelude.Tests.{ltb, leb, ◌==◌, if◌then◌else◌, Bool-cases}

-- `BTreeSet::insert`
unfoldable pub insert_key : ℕ → List ℕ → List ℕ
insert_key k [] = k ∷ []
insert_key k (j ∷ ks) =
    if ltb k j then k ∷ j ∷ ks else (if k == j then j ∷ ks else j ∷ insert_key k ks)

abbrev pub contains : ℕ → List ℕ → Bool
contains k [] = false
contains k (j ∷ ks) = (j == k) || contains k ks

pub contains-insert_key :
    (j k : ℕ) (ks : List ℕ) → contains j (insert_key k ks) ≡ ((k == j) || contains j ks)
unfolding insert_key
contains-insert_key j k [] = refl
contains-insert_key j k (i ∷ ks) = ground (arith, contains-insert_key j k ks)

-- Each element is above the bound and below the next.
abbrev pub AscendsFrom : ℕ → List ℕ → Type 0
AscendsFrom n [] = Unit
AscendsFrom n (k ∷ ks) = (n ≤ k) × AscendsFrom (k + 1) ks

pub AscendsFrom-mono : (m n : ℕ) (ks : List ℕ) → m ≤ n → AscendsFrom n ks → AscendsFrom m ks
AscendsFrom-mono m n [] h a = tt
AscendsFrom-mono m n (k ∷ ks) h a = (omega arith, a.1)

pub insert_key-AscendsFrom :
    (n k : ℕ) (ks : List ℕ) → n ≤ k → AscendsFrom n ks → AscendsFrom n (insert_key k ks)
unfolding insert_key
insert_key-AscendsFrom n k [] h a = (h, tt)
insert_key-AscendsFrom n k (j ∷ ks) h a = ground (arith, insert_key-AscendsFrom (j + 1) k ks)

module _ {ℓ} {A : Type ℓ} (key : A → ℕ) where
  unfoldable pub insert_by_key : A → List A → List A
  insert_by_key x [] = x ∷ []
  insert_by_key x (y ∷ ys) = if leb (key x) (key y) then x ∷ y ∷ ys else y ∷ insert_by_key x ys

  -- `sort_by_key`: equal keys keep their order.
  unfoldable pub sort_by_key : List A → List A
  sort_by_key [] = []
  sort_by_key (x ∷ xs) = insert_by_key x (sort_by_key xs)

  insert_by_key-perm : (x : A) (xs : List A) → Perm (insert_by_key x xs) (x ∷ xs)
  unfolding insert_by_key
  insert_by_key-perm x [] = Perm.refl _
  insert_by_key-perm x (y ∷ ys) =
      elim (leb (key x) (key y))
        as (λ b. Perm (if b then x ∷ y ∷ ys else y ∷ insert_by_key x ys) (x ∷ y ∷ ys)) [
          | true ↦ Perm.refl _
          | false ↦ Perm.trans (Perm.cons y (insert_by_key-perm x ys)) (Perm.swap x y ys)
        ]

  pub sort_by_key-perm : (xs : List A) → Perm (sort_by_key xs) xs
  unfolding sort_by_key
  sort_by_key-perm [] = Perm.refl _
  sort_by_key-perm (x ∷ xs) =
      Perm.trans (insert_by_key-perm x (sort_by_key xs)) (Perm.cons x (sort_by_key-perm xs))

  -- The keys do not fall along the list.
  abbrev pub KeysFrom : ℕ → List A → Type 0
  KeysFrom n [] = Unit
  KeysFrom n (x ∷ xs) = (n ≤ key x) × KeysFrom (key x) xs

  insert_by_key-KeysFrom :
      (n : ℕ) (x : A) (xs : List A) → n ≤ key x → KeysFrom n xs → KeysFrom n (insert_by_key x xs)
  unfolding insert_by_key
  insert_by_key-KeysFrom n x [] h a = (h, tt)
  insert_by_key-KeysFrom n x (y ∷ ys) h a = elim (Bool-cases (leb (key x) (key y))) [
    | inl e ↦ rw e (h, (ground (arith, e), a.1))
    | inr e ↦ rw e (a.0, insert_by_key-KeysFrom (key y) x ys (ground (arith, e)) a.1)
  ]

  pub sort_by_key-KeysFrom : (xs : List A) → KeysFrom 0 (sort_by_key xs)
  unfolding sort_by_key
  sort_by_key-KeysFrom [] = tt
  sort_by_key-KeysFrom (x ∷ xs) =
      insert_by_key-KeysFrom 0 x (sort_by_key xs) (omega arith) (sort_by_key-KeysFrom xs)
