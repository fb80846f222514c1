-- ===== src/FrameTree/Compact.antt =====
-- Compacting keeps the tree that the kept programs form (crates/core/src/nested.rs, `compact`).
use gas_analyzer.FrameTree.{
  FrameProgram, ProgramState, places, remap_children, frame_of, collect_frames, compact,
}
use gas_analyzer.Prelude.Results.{ok_or, >>=-eq-ok, ok-injective, ok_or-ok, ok}
use gas_analyzer.Prelude.{
  ℕ, zero, suc, ◌+◌, ◌<◌, ◌≡◌, refl, sym, ap, ◌∙◌, subst, ◌⊎◌, inl, inr, true, false, some, List,
  [], ◌∷◌, map, arith, if◌then◌else◌, Bool-cases, length, get_elem?, All, get_elem?-inside,
}
use gas_analyzer.Failure.{panic, never_returned}
use gas_analyzer.Types.{StateUpdate}

-- The number of kept programs before a program.
abbrev pub rank : List ProgramState → ℕ → ℕ
rank [] id = 0
rank (p ∷ programs) zero = 0
rank (p ∷ programs) (suc id) =
    let before = rank programs id in if p.dropped then before else suc before

abbrev pub kept_count : List ProgramState → ℕ
kept_count [] = 0
kept_count (p ∷ programs) =
    let others = kept_count programs in if p.dropped then others else suc others

-- The program of that number is there and is not dropped.
pub record IsKept (programs : List ProgramState) (id : ℕ) : Type 0 where
  pub program : ProgramState
  pub here : get_elem? programs id ≡ some program
  pub kept : program.dropped ≡ false

get_elem?-places :
    (next : ℕ) (programs : List ProgramState) (id : ℕ) {p : ProgramState}
    → get_elem? programs id ≡ some p
    → p.dropped ≡ false
    → get_elem? (places next programs) id ≡ some (next + rank programs id)
unfolding places
get_elem?-places next [] id e k = cc
get_elem?-places next (p ∷ programs) zero e k = ground arith
get_elem?-places next (p ∷ programs) (suc id) e k = elim (Bool-cases p.dropped) [
  | inl d ↦ rw d (get_elem?-places next programs id e k ∙ ap some (omega arith))
  | inr d ↦ rw d (get_elem?-places (next + 1) programs id e k ∙ ap some (omega arith))
]

module _ (programs : List ProgramState) where
  remap_children-rank :
      (children : List ℕ) {ranks : List ℕ}
      → All (IsKept programs) children
      → remap_children (places 0 programs) children ≡ ok ranks
      → ranks ≡ map (rank programs) children
  unfolding remap_children
  remap_children-rank [] k h = cc
  remap_children-rank (c ∷ children) (k, ks) h =
      let found = get_elem?-places 0 programs c k.here k.kept in
      let (place, e, g) = >>=-eq-ok (ok_or (get_elem? (places 0 programs) c) panic) _ h in
      let (rest, e', g') = >>=-eq-ok (remap_children (places 0 programs) children) _ g in
      ground (arith, found, remap_children-rank children ks e')

-- What a frame takes over from its program.
pub record Carries (p : ProgramState) (f : FrameProgram) : Type 0 where
  pub target : f.target ≡ p.target
  pub caller : f.caller ≡ p.caller
  pub value : f.value ≡ p.value
  pub calldata_hash : f.calldata_hash ≡ p.calldata_hash
  pub transition_index : f.transition_index ≡ p.transition_index
  pub updates : p.updates ≡ some f.updates

-- A kept program gives its frame, and the rest of the programs theirs.
collect_frames-kept :
    (remap : List ℕ) (p : ProgramState) (programs : List ProgramState) {frames : List FrameProgram}
    → p.dropped ≡ false
    → collect_frames remap (p ∷ programs) ≡ ok frames
    → (f : FrameProgram) × (rest : List FrameProgram) × (frame_of remap p ≡ ok f)
      × (collect_frames remap programs ≡ ok rest)
      × (frames ≡ f ∷ rest)
unfolding collect_frames
collect_frames-kept remap p programs k h =
    let (f, e, g) = >>=-eq-ok (frame_of remap p) _ (rw k at h) in
    let (rest, e', g') = >>=-eq-ok (collect_frames remap programs) _ g in
    (f, rest, e, e', sym (ok-injective g'))

collect_frames-dropped :
    (remap : List ℕ) (p : ProgramState) (programs : List ProgramState)
    → p.dropped ≡ true
    → collect_frames remap (p ∷ programs) ≡ collect_frames remap programs
unfolding collect_frames
collect_frames-dropped remap p programs k = rw k

collect_frames-rank :
    (remap : List ℕ) (programs : List ProgramState) (id : ℕ) {p : ProgramState}
    {frames : List FrameProgram}
    → collect_frames remap programs ≡ ok frames
    → get_elem? programs id ≡ some p
    → p.dropped ≡ false
    → (f : FrameProgram) × (get_elem? frames (rank programs id) ≡ some f)
      × (frame_of remap p ≡ ok f)
collect_frames-rank remap [] id h e k = cc
collect_frames-rank remap (p ∷ programs) zero h e k =
    let k' : p.dropped ≡ false = cc in
    let (f, rest, g, _, split) = collect_frames-kept remap p programs k' h in (f, cc, cc)
collect_frames-rank remap (p ∷ programs) (suc id) h e k = elim (Bool-cases p.dropped) [
  | inl d ↦
      let h' = sym (collect_frames-dropped remap p programs d) ∙ h in
      rw d (collect_frames-rank remap programs id h' e k)
  | inr d ↦
      let (f, rest, _, g, split) = collect_frames-kept remap p programs d h in
      rw (d, split) (collect_frames-rank remap programs id g e k)
]

length-collect_frames :
    (remap : List ℕ) (programs : List ProgramState) {frames : List FrameProgram}
    → collect_frames remap programs ≡ ok frames
    → length frames ≡ kept_count programs
unfolding collect_frames
length-collect_frames remap [] h = cc
length-collect_frames remap (p ∷ programs) h = elim (Bool-cases p.dropped) [
  | inl d ↦
      rw d
        (length-collect_frames remap programs (sym (collect_frames-dropped remap p programs d) ∙ h))
  | inr d ↦
      let (f, rest, _, g, split) = collect_frames-kept remap p programs d h in
      rw (d, split) (ap suc (length-collect_frames remap programs g))
]

frame_of-Carries :
    (remap : List ℕ) (p : ProgramState) {f : FrameProgram}
    → frame_of remap p ≡ ok f
    → Carries p f × (remap_children remap p.children ≡ ok f.children)
frame_of-Carries remap p {f} h =
    let (updates, e, g) = >>=-eq-ok (ok_or p.updates never_returned) _ h in
    let (children, e', g') = >>=-eq-ok (remap_children remap p.children) _ g in
    let same : f ≡ _ = sym (ok-injective g') in
    (
      record {
        target = ap (λ x. x.target) same;
        caller = ap (λ x. x.caller) same;
        value = ap (λ x. x.value) same;
        calldata_hash = ap (λ x. x.calldata_hash) same;
        transition_index = ap (λ x. x.transition_index) same;
        updates = ok_or-ok p.updates never_returned e ∙ ap (λ x. some x.updates) (sym same);
      },
      e' ∙ ap (λ x. ok x.children) (sym same),
    )

-- When compacting succeeds, there are as many frames as kept programs, and each kept program's frame
-- stands at its rank among them, carries what the program holds, and has for its children the ranks
-- of the program's children, where these are kept too.
pub compact-rank :
    (programs : List ProgramState) (id : ℕ) (k : IsKept programs id) {frames : List FrameProgram}
    → All (IsKept programs) k.program.children
    → compact programs ≡ ok frames
    → (length frames ≡ kept_count programs)
      × ((f : FrameProgram) × (get_elem? frames (rank programs id) ≡ some f)
          × Carries k.program f
          × (f.children ≡ map (rank programs) k.program.children))
unfolding compact
compact-rank programs id k inner h =
    let (f, there, made) = collect_frames-rank (places 0 programs) programs id h k.here k.kept in
    let (carried, placed) = frame_of-Carries (places 0 programs) k.program made in
    (
      length-collect_frames (places 0 programs) programs h,
      (f, there, carried, remap_children-rank programs k.program.children inner placed),
    )

length-places :
    (next : ℕ) (programs : List ProgramState) → length (places next programs) ≡ length programs
unfolding places
length-places next [] = refl
length-places next (p ∷ programs) = elim (Bool-cases p.dropped) [
  | inl d ↦ rw d (ap suc (length-places next programs))
  | inr d ↦ rw d (ap suc (length-places (next + 1) programs))
]

remap_children-total :
    (remap : List ℕ) (children : List ℕ)
    → All (λ c. c < length remap) children
    → (ranks : List ℕ) × (remap_children remap children ≡ ok ranks)
unfolding remap_children
remap_children-total remap [] h = ([], refl)
remap_children-total remap (c ∷ children) (h, hs) =
    let (place, e) = get_elem?-inside remap c h in
    let (ranks, e') = remap_children-total remap children hs in (place ∷ ranks, rw (e, e') refl)

-- A program that is kept has returned, and its children are among the programs.
abbrev pub IsFinished : ℕ → ProgramState → Type 0
IsFinished count p =
    (p.dropped ≡ true)
    ⊎ (((updates : List StateUpdate) × (p.updates ≡ some updates))
        × All (λ c. c < count) p.children)

collect_frames-total :
    (remap : List ℕ) (programs : List ProgramState)
    → All (IsFinished (length remap)) programs
    → (frames : List FrameProgram) × (collect_frames remap programs ≡ ok frames)
unfolding collect_frames
collect_frames-total remap [] h = ([], refl)
collect_frames-total remap (p ∷ programs) (inl d, hs) =
    rw d (collect_frames-total remap programs hs)
collect_frames-total remap (p ∷ programs) (inr ((updates, e), inside), hs) =
    let (ranks, e') = remap_children-total remap p.children inside in
    let (frames, e'') = collect_frames-total remap programs hs in
    elim (Bool-cases p.dropped) [
      | inl d ↦ rw d (frames, e'')
      | inr d ↦ rw (d, e, e', e'') (_, refl)
    ]

-- Compacting succeeds when every kept program has returned and names no child beyond the programs.
pub compact_total :
    (programs : List ProgramState)
    → All (IsFinished (length programs)) programs
    → (frames : List FrameProgram) × (compact programs ≡ ok frames)
unfolding compact
compact_total programs h =
    let fits : All (IsFinished (length (places 0 programs))) programs =
      subst (λ n. All (IsFinished n) programs) (sym (length-places 0 programs)) h in
    collect_frames-total (places 0 programs) programs fits
