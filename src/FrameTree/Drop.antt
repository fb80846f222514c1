-- ===== src/FrameTree/Drop.antt =====
-- What the pass over the programs drops (crates/core/src/nested.rs,
-- `drop_descendants_of_dropped`).
use gas_analyzer.FrameTree.{ProgramState, drop_below, drop_from, drop_descendants_of_dropped}
use gas_analyzer.Prelude.Results.{◌>>=◌, Result, ok}
use gas_analyzer.Prelude.{
  ℕ, zero, suc, ◌+◌, ◌-◌, ◌≤◌, ◌<◌, ◌≡◌, refl, sym, ap, ◌∙◌, subst, inl, inr, Bool, true, false,
  ◌||◌, Option, none, some, List, [], ◌∷◌, arith, ltb, ◌==◌, if◌then◌else◌, ==_iff, Bool-cases,
  Option-cases, tests, length, get_elem?, set,
}
use gas_analyzer.Failure.{Failure}

-- A program that is not there is not dropped and has no parent.
abbrev pub dropped_at : List ProgramState → ℕ → Bool
dropped_at programs id = elim (get_elem? programs id) [ none ↦ false | some p ↦ p.dropped ]

abbrev pub parent_at : List ProgramState → ℕ → Option ℕ
parent_at programs id = elim (get_elem? programs id) [ none ↦ none | some p ↦ p.parent ]

abbrev pub is_dropped : List ProgramState → Option ℕ → Bool
is_dropped programs none = false
is_dropped programs (some id) = dropped_at programs id

-- Pre-order: every parent stands before its children.
abbrev pub ParentsBefore : List ProgramState → Type 0
ParentsBefore programs = (id q : ℕ) → parent_at programs id ≡ some q → q < id

pub get_elem?-set :
    (xs : List ProgramState) (i j : ℕ) (v : ProgramState) {old : ProgramState}
    → get_elem? xs i ≡ some old
    → get_elem? (set xs i v) j ≡ (if i == j then some v else get_elem? xs j)
get_elem?-set [] i j v e = cc
get_elem?-set (x ∷ xs) zero zero v e = refl
get_elem?-set (x ∷ xs) zero (suc j) v e = ground arith
get_elem?-set (x ∷ xs) (suc i) zero v e = ground arith
get_elem?-set (x ∷ xs) (suc i) (suc j) v e = get_elem?-set xs i j v e ∙ ground arith

pub length-set :
    (xs : List ProgramState) (i : ℕ) (v : ProgramState) → length (set xs i v) ≡ length xs
length-set [] i v = refl
length-set (x ∷ xs) zero v = refl
length-set (x ∷ xs) (suc i) v = ap suc (length-set xs i v)

pub present :
    (xs : List ProgramState) (i : ℕ)
    → i < length xs
    → (p : ProgramState) × (get_elem? xs i ≡ some p)
present [] i h = absurd (omega arith)
present (x ∷ xs) zero h = (x, refl)
present (x ∷ xs) (suc i) h = present xs i (omega arith)

pub dropped_here :
    (ps : List ProgramState) (id : ℕ) {p : ProgramState}
    → get_elem? ps id ≡ some p
    → dropped_at ps id ≡ p.dropped
dropped_here ps id here = ap (λ o. elim o [ none ↦ false | some p ↦ p.dropped ]) here

pub parent_here :
    (ps : List ProgramState) (id : ℕ) {p : ProgramState}
    → get_elem? ps id ≡ some p
    → parent_at ps id ≡ p.parent
parent_here ps id here = ap (λ o. elim o [ none ↦ none | some p ↦ p.parent ]) here

pub absent :
    (ps : List ProgramState) (id : ℕ)
    → length ps ≤ id
    → (dropped_at ps id ≡ false) × (parent_at ps id ≡ none)
absent [] id h = (refl, refl)
absent (p ∷ ps) zero h = absurd (omega arith)
absent (p ∷ ps) (suc id) h = absent ps id (omega arith)

module _ (ps : List ProgramState) (id : ℕ) (p : ProgramState)
    (here : get_elem? ps id ≡ some p) where
  abbrev changed : List ProgramState
  changed = set ps id (record p { dropped = true })

  dropped_at-changed : (j : ℕ) → dropped_at changed j ≡ (if id == j then true else dropped_at ps j)
  dropped_at-changed j =
      ap (λ o. elim o [ none ↦ false | some p ↦ p.dropped ]) (get_elem?-set ps id j _ here)
      ∙ elim (Bool-cases (id == j)) [ inl e ↦ rw e | inr e ↦ rw e ]

  parent_at-changed : (j : ℕ) → parent_at changed j ≡ parent_at ps j
  parent_at-changed j =
      ap (λ o. elim o [ none ↦ none | some p ↦ p.parent ]) (get_elem?-set ps id j _ here)
      ∙ elim (Bool-cases (id == j)) [
        | inl e ↦
            let same : id ≡ j = (==_iff id j).0 e in
            rw e (
              ap (λ o. elim o [ none ↦ none | some p ↦ p.parent ])
                (sym here ∙ ap (get_elem? ps) same))
        | inr e ↦ rw e
      ]

  is_dropped-changed :
      (o : Option ℕ) → ((q : ℕ) → o ≡ some q → q < id) → is_dropped changed o ≡ is_dropped ps o
  is_dropped-changed none h = refl
  is_dropped-changed (some q) h = ground (arith, dropped_at-changed q, h q refl)

module _ (programs : List ProgramState) where
  -- The programs before `id` are settled, and those from it on are as they were.
  record Settled (id : ℕ) (ps : List ProgramState) : Type 0 where
    size : length ps ≡ length programs
    parents : (j : ℕ) → parent_at ps j ≡ parent_at programs j
    before :
        (j : ℕ)
        → j < id
        → dropped_at ps j ≡ (dropped_at programs j || is_dropped ps (parent_at programs j))
    after : (j : ℕ) → id ≤ j → dropped_at ps j ≡ dropped_at programs j

  module _ (ordered : ParentsBefore programs) where
    settle_same :
        (id : ℕ) (ps : List ProgramState)
        → Settled id ps
        → is_dropped ps (parent_at programs id) ≡ false
        → Settled (id + 1) ps
    settle_same id ps s none_above = record {
      size = s.size;
      parents = s.parents;
      before = λ j h. elim (Bool-cases (ltb j id)) [
        | inl e ↦ s.before j (omega (tests, e))
        | inr e ↦ ground (arith, s.after j, none_above)
      ];
      after = λ j h. s.after j (omega arith);
    }

    settle_set :
        (id : ℕ) (ps : List ProgramState) (p : ProgramState)
        → Settled id ps
        → get_elem? ps id ≡ some p
        → is_dropped ps (parent_at programs id) ≡ true
        → Settled (id + 1) (set ps id (record p { dropped = true }))
    settle_set id ps p s here above = record {
      size = length-set ps id _ ∙ s.size;
      parents = λ j. parent_at-changed ps id p here j ∙ s.parents j;
      before = λ j h.
          let kept =
            is_dropped-changed ps id p here (parent_at programs j)
              (λ q e. omega (arith, ordered j q e, h)) in
          elim (Bool-cases (id == j)) [
            | inl e ↦ ground (arith, dropped_at-changed ps id p here j, kept, above)
            | inr e ↦ ground (arith, dropped_at-changed ps id p here j, kept, s.before j)
          ];
      after = λ j h. ground (arith, dropped_at-changed ps id p here j, s.after j);
    }

    -- One round of the loop, before the rounds `next`.
    drop_below-Settled :
        (next : List ProgramState → Result Failure (List ProgramState)) (id : ℕ)
        (ps : List ProgramState) (p : ProgramState) (o : Option ℕ)
        → id < length programs
        → Settled id ps
        → get_elem? ps id ≡ some p
        → parent_at programs id ≡ o
        → ((qs : List ProgramState)
            → Settled (id + 1) qs
            → (ps' : List ProgramState) × (next qs ≡ ok ps') × Settled (length programs) ps')
        → (ps' : List ProgramState) × ((drop_below ps id p o >>= next) ≡ ok ps')
          × Settled (length programs) ps'
    drop_below-Settled next id ps p none inside s here up go =
        go ps (settle_same id ps s (ap (is_dropped ps) up))
    drop_below-Settled next id ps p (some q) inside s here up go =
        let (above, there) = present ps q (omega (arith, s.size, inside, ordered id q up)) in
        rw there (elim (Bool-cases above.dropped) [
          | inl d ↦ rw d (
              go _
                (settle_set id ps p s here (ap (is_dropped ps) up ∙ (dropped_here ps q there ∙ d))))
          | inr d ↦
              rw d (
                go ps (settle_same id ps s (ap (is_dropped ps) up ∙ (dropped_here ps q there ∙ d))))
        ])

    drop_from-Settled :
        (count id : ℕ) (ps : List ProgramState)
        → id + count ≡ length programs
        → Settled id ps
        → (ps' : List ProgramState) × (drop_from count id ps ≡ ok ps')
          × Settled (length programs) ps'
    unfolding drop_from
    drop_from-Settled zero id ps e s = (ps, refl, subst (λ n. Settled n ps) (omega arith) s)
    drop_from-Settled (suc count) id ps e s =
        let (p, here) = present ps id (omega (arith, s.size, e)) in
        let up : parent_at programs id ≡ p.parent = sym (s.parents id) ∙ parent_here ps id here in
        rw here (
          drop_below-Settled (drop_from count (id + 1)) id ps p p.parent (omega arith) s here up
            (λ qs t. drop_from-Settled count (id + 1) qs (omega arith) t))

    start-Settled : Settled 1 programs
    start-Settled = record {
      size = refl;
      parents = λ j. refl;
      before = λ j h. elim (Option-cases (parent_at programs j)) [
        | inl e ↦ ground (arith, e)
        | inr (q, e) ↦ absurd (omega (arith, ordered j q e, h))
      ];
      after = λ j h. refl;
    }

-- Where parents stand before their children, the pass drops exactly the programs that were dropped
-- before or whose parent it drops, and moves no program to another parent.
pub drop_descendants_of_dropped-dropped_at :
    (programs : List ProgramState) (id : ℕ)
    → 0 < length programs
    → ParentsBefore programs
    → (ps : List ProgramState) × (drop_descendants_of_dropped programs ≡ ok ps)
      × (parent_at ps id ≡ parent_at programs id)
      × (dropped_at ps id ≡ (dropped_at programs id || is_dropped ps (parent_at programs id)))
unfolding drop_descendants_of_dropped
drop_descendants_of_dropped-dropped_at programs id h ordered =
    let (ps, e, s) =
      drop_from-Settled programs ordered (length programs - 1) 1 programs (omega arith)
        (start-Settled programs ordered) in
    (
      ps,
      e,
      s.parents id,
      elim (Bool-cases (ltb id (length programs))) [
        | inl i ↦ s.before id (omega (tests, i))
        | inr o ↦
            let out : length programs ≤ id = ground (arith, o) in
            ground (arith, absent ps id (omega (arith, out, s.size)), absent programs id out)
      ],
    )
