-- ===== src/Split/Programs.antt =====
-- The walk keeps the first program and the order of the programs
-- (crates/core/src/nested.rs, `split_frame_tree`).
use gas_analyzer.Split.Agree.{ProgramsOk, place_of, place_at}
use gas_analyzer.Split.Close.{amend, add_child_call_gas, charge_program, drop_all, drop_since}
use gas_analyzer.FrameTree.{ProgramState, program_at}
use gas_analyzer.FrameTree.Drop.{parent_at, ParentsBefore}
use gas_analyzer.Failure.{panic}
use gas_analyzer.Prelude.Results.{IfOk, IfOk-bind, IfOk-after, IfOk-mono, ok_or-ok, ok}
use gas_analyzer.Prelude.{
  ℕ, zero, suc, ◌<◌, ◌≡◌, refl, sym, ap, ◌∙◌, ◌⊎◌, inl, inr, Option, none, some, List, [], ◌∷◌,
  ◌++◌, arith, length, get_elem?, set,
}

pub ProgramsOk-same :
    (root : ℕ) (programs programs' : List ProgramState)
    → ((id : ℕ) → place_at programs' id ≡ place_at programs id)
    → ProgramsOk root programs
    → ProgramsOk root programs'
ProgramsOk-same root programs programs' same k = record {
  here = same 0 ∙ k.here;
  ordered = λ id target q e. k.ordered id target q (sym (same id) ∙ e);
}

-- A change that leaves a program where it stands.
abbrev pub Stays : (ProgramState → ProgramState) → Type 0
Stays change = (p : ProgramState) → (change p).target ≡ p.target × ((change p).parent ≡ p.parent)

pub place_at-set :
    (programs : List ProgramState) (id j : ℕ) (p q : ProgramState)
    → get_elem? programs id ≡ some p
    → q.target ≡ p.target
    → q.parent ≡ p.parent
    → place_at (set programs id q) j ≡ place_at programs j
place_at-set [] id j p q e t u = refl
place_at-set (x ∷ programs) zero zero p q e t u =
    ap some (ap (λ a. (a, q.parent)) t ∙ ap (λ b. (p.target, b)) u) ∙ ap place_of (sym e)
place_at-set (x ∷ programs) zero (suc j) p q e t u = refl
place_at-set (x ∷ programs) (suc id) zero p q e t u = refl
place_at-set (x ∷ programs) (suc id) (suc j) p q e t u = place_at-set programs id j p q e t u

pub ProgramsOk-amend :
    (root : ℕ) (programs : List ProgramState) (id : ℕ) (change : ProgramState → ProgramState)
    → Stays change
    → ProgramsOk root programs
    → IfOk (ProgramsOk root) (amend programs id change)
unfolding amend
ProgramsOk-amend root programs id change stays k =
    IfOk-after (ProgramsOk root) (program_at programs id) (λ p. ok (set programs id (change p)))
      λ p e.
        ProgramsOk-same root programs (set programs id (change p))
          (λ j.
            place_at-set programs id j p (change p) (ok_or-ok (get_elem? programs id) panic e)
              (stays p).0 (stays p).1)
          k

pub ProgramsOk-charge :
    (root : ℕ) (programs : List ProgramState) (o : Option ℕ) (gas : ℕ)
    → ProgramsOk root programs
    → IfOk (ProgramsOk root) (charge_program programs o gas)
ProgramsOk-charge root programs none gas k = k
ProgramsOk-charge root programs (some id) gas k =
    ProgramsOk-amend root programs id (add_child_call_gas gas) (λ p. (refl, refl)) k

place_at-drop_all :
    (programs : List ProgramState) (j : ℕ) → place_at (drop_all programs) j ≡ place_at programs j
place_at-drop_all [] j = refl
place_at-drop_all (p ∷ programs) zero = refl
place_at-drop_all (p ∷ programs) (suc j) = place_at-drop_all programs j

SamePlaces : List ProgramState → List ProgramState → Type 0
SamePlaces programs programs' = (j : ℕ) → place_at programs' j ≡ place_at programs j

SamePlaces-cons :
    (p : ProgramState) (programs programs' : List ProgramState)
    → SamePlaces programs programs'
    → SamePlaces (p ∷ programs) (p ∷ programs')
unfolding SamePlaces
SamePlaces-cons p programs programs' h zero = refl
SamePlaces-cons p programs programs' h (suc j) = h j

drop_since-SamePlaces :
    (n : ℕ) (programs : List ProgramState) → IfOk (SamePlaces programs) (drop_since n programs)
unfolding drop_since SamePlaces
drop_since-SamePlaces zero programs = place_at-drop_all programs
drop_since-SamePlaces (suc n) [] = tt
drop_since-SamePlaces (suc n) (p ∷ programs) =
    IfOk-bind (SamePlaces programs) (SamePlaces (p ∷ programs)) (drop_since n programs)
      (λ rest. ok (p ∷ rest)) (drop_since-SamePlaces n programs)
      (λ rest h. SamePlaces-cons p programs rest h)

pub ProgramsOk-drop_since :
    (root n : ℕ) (programs : List ProgramState)
    → ProgramsOk root programs
    → IfOk (ProgramsOk root) (drop_since n programs)
unfolding SamePlaces
ProgramsOk-drop_since root n programs k =
    IfOk-mono (SamePlaces programs) (ProgramsOk root) (drop_since n programs)
      (λ rest h. ProgramsOk-same root programs rest h k) (drop_since-SamePlaces n programs)

place_at-push :
    (programs : List ProgramState) (p : ProgramState) (id : ℕ)
    → (place_at (programs ++ (p ∷ [])) id ≡ place_at programs id)
      ⊎ ((id ≡ length programs) × (place_at (programs ++ (p ∷ [])) id ≡ some (p.target, p.parent)))
place_at-push [] p zero = inr (refl, refl)
place_at-push [] p (suc id) = inl refl
place_at-push (x ∷ programs) p zero = inl refl
place_at-push (x ∷ programs) p (suc id) = elim (place_at-push programs p id) [
  | inl e ↦ inl e
  | inr (e, f) ↦ inr (ap suc e, f)
]

-- A new program behind its parent.
pub ProgramsOk-push :
    (root : ℕ) (programs : List ProgramState) (p : ProgramState) (parent : ℕ)
    → p.parent ≡ some parent
    → parent < length programs
    → ProgramsOk root programs
    → ProgramsOk root (programs ++ (p ∷ []))
ProgramsOk-push root programs p parent up low k = record {
  here = elim (place_at-push programs p 0) [
    | inl e ↦ e ∙ k.here
    | inr (e, f) ↦ absurd (omega (arith, low, e))
  ];
  ordered = λ id target q e. elim (place_at-push programs p id) [
    | inl d ↦ k.ordered id target q (sym d ∙ e)
    | inr (here, d) ↦
        let both : place_of (some p) ≡ some (target, some q) = sym d ∙ e in
        let same : parent ≡ q = cc in omega (arith, low, same, here)
  ];
}

parent_at-place_at :
    (programs : List ProgramState) (id q : ℕ)
    → parent_at programs id ≡ some q
    → (target : ℕ) × (place_at programs id ≡ some (target, some q))
parent_at-place_at [] id q e = cc
parent_at-place_at (p ∷ programs) zero q e = (p.target, ap (λ o. some (p.target, o)) e)
parent_at-place_at (p ∷ programs) (suc id) q e = parent_at-place_at programs id q e

pub ProgramsOk-ParentsBefore :
    (root : ℕ) (programs : List ProgramState) → ProgramsOk root programs → ParentsBefore programs
ProgramsOk-ParentsBefore root programs k id q e =
    let (target, there) = parent_at-place_at programs id q e in k.ordered id target q there

pub ProgramsOk-first :
    (root : ℕ) (programs : List ProgramState)
    → ProgramsOk root programs
    → (p : ProgramState) × (get_elem? programs 0 ≡ some p) × (p.target ≡ root)
ProgramsOk-first root [] k = let e : place_of none ≡ some (root, none) = k.here in cc
ProgramsOk-first root (p ∷ programs) k =
    let e : place_of (some p) ≡ some (root, none) = k.here in (p, refl, cc)
