-- ===== src/Allocation/Bounds.antt =====
-- The hard category constraints of packages/compiler/src/budget-allocator.ts hold of what a
-- successful run includes.
use ctxalloc.Shared.{
  ℕ, suc, ◌+◌, ◌≤◌, ◌≡◌, ◌∙◌, inl, inr, true, false, some, List, [], ◌∷◌, arith, ltb, Bool-cases,
  Option-cases, Text, text_eq_iff, sort-SameItems, one, length-select, get, tally, text_key,
}
use ctxalloc.Candidates.{ScoredCandidate, ScoredCandidateSet, tokens_of, category_of}
use ctxalloc.Allocation.Policy.{Allocator, constrained_categories}
use ctxalloc.Allocation.State.{
  AllocationCandidate, in_category, compare_required, InclusionReason, included_score_order,
  excluded_category_maximum, excluded_budget_exhausted, State,
}
use ctxalloc.Allocation.Passes.{
  count_of, of_category, needed, at_maximum, consider, allocate_optional,
}
use ctxalloc.Allocation.Allocate.{required_views, optional_views}
use ctxalloc.Allocation.Ledger.{IsLedger, taken, start-IsLedger, taken-include, taken-exclude}
use ctxalloc.Allocation.Moves.{consider-Decides}
use ctxalloc.Allocation.Categories.{held, held-picks, length-picks_of, length-picks_of-none}
use ctxalloc.Allocation.Feasible.{
  constrained_of_min, constrained_of_max, required-le-max, needed-le-optional,
}
use ctxalloc.Allocation.Run.{union_of, leftover_of, Run}
use ctxalloc.Allocation.Accounting.{final_pass}

-- No minimum is over the maximum of its category.
pub record IsConsistent (a : Allocator) : Type 0 where
  pub bounds :
      (c : Text) (m n : ℕ) → get c a.min_blocks ≡ some m → get c a.max_blocks ≡ some n → m ≤ n

-- How many included blocks have a category.
abbrev pub chosen : Text → State → ℕ
chosen c = taken (λ _ x. one (in_category c (category_of x)))

-- A candidate whose category has room may be taken.
room_at_maximum :
    (a : Allocator) (e : AllocationCandidate) (s : State) (c : Text) (n : ℕ)
    → at_maximum a e s ≡ false
    → get c a.max_blocks ≡ some n
    → in_category c (category_of e.scored) ≡ true
    → suc (tally c s.selected_by_category) ≤ n
unfolding at_maximum
room_at_maximum a e s c n room bound same = elim (Option-cases (category_of e.scored)) [
  | inl none_given ↦ absurd (ground arith)
  | inr (k, given) ↦ ground (arith, text_eq_iff c k)
]

chosen-consider :
    (a : Allocator) (e : AllocationCandidate) (s : State) (c : Text) (n available : ℕ)
    → get c a.max_blocks ≡ some n
    → IsLedger available s
    → chosen c s ≤ n
    → chosen c (consider a e s) ≤ n
unfolding consider
chosen-consider a e s c n available bound l h = elim (Bool-cases (at_maximum a e s)) [
  | inl full ↦ rw full (omega (arith, taken-exclude e excluded_category_maximum s f))
  | inr room ↦ elim (Bool-cases (ltb s.remaining (tokens_of e.scored))) [
    | inl over ↦ rw (room, over) (omega (arith, taken-exclude e excluded_budget_exhausted s f))
    | inr fits ↦
        rw (room, fits)
          (ground (
            arith,
            taken-include e included_score_order s f,
            room_at_maximum a e s c n room bound,
            l.tallies c,
          ))
  ]
]
  where
    f : InclusionReason → ScoredCandidate → ℕ
    f _ x = one (in_category c (category_of x))

chosen-allocate_optional :
    (a : Allocator) (es : List AllocationCandidate) (s : State) (c : Text) (n available : ℕ)
    → get c a.max_blocks ≡ some n
    → IsLedger available s
    → chosen c s ≤ n
    → chosen c (allocate_optional a es s) ≤ n
unfolding allocate_optional
chosen-allocate_optional a [] s c n available bound l h = h
chosen-allocate_optional a (e ∷ es) s c n available bound l h =
    chosen-allocate_optional a es (consider a e s) c n available bound
      ((consider-Decides a e s).keeps available l) (chosen-consider a e s c n available bound l h)

module _ {a : Allocator} {input : ScoredCandidateSet} {available : ℕ} {t : State}
    (r : Run a input available t) (c : Text) where
  -- What the first two passes take of a category.
  chosen-after_minimums :
      chosen c r.after_minimums ≡ count_of c (required_views input) + held c (union_of a input)
  chosen-after_minimums = omega (
    arith,
    r.minimum_pass.takes (λ _ x. one (in_category c (category_of x))),
    r.required_pass.takes (λ _ x. one (in_category c (category_of x))),
    sort-SameItems compare_required (required_views input) (λ e. one (of_category c e)),
    length-select (of_category c) (required_views input),
  )

  pub minimums-IsLedger : IsLedger available r.after_minimums
  minimums-IsLedger =
      r.minimum_pass.keeps available (r.required_pass.keeps available (start-IsLedger available))

  -- The picks of a category are as many as its minimum still needs.
  held-union :
      (m : ℕ)
      → get c a.min_blocks ≡ some m
      → held c (union_of a input) ≡ needed m (count_of c (required_views input))
  held-union m e =
      held-picks a (required_views input) (optional_views input) c (constrained_categories a)
        (constrained_of_min a c m e)
      ∙ length-picks_of a (required_views input) (optional_views input) c m e
          (needed-le-optional a (required_views input) (optional_views input) c m r.no_failures e)

  pub run-max : (n : ℕ) → IsConsistent a → get c a.max_blocks ≡ some n → chosen c t ≤ n
  run-max n ok bound = rw r.final (
      chosen-allocate_optional a (leftover_of a input) r.after_minimums c n available bound
        minimums-IsLedger before)
    where
      required_fits : count_of c (required_views input) ≤ n
      required_fits =
          required-le-max a (required_views input) (optional_views input) c n r.no_failures bound

      before : chosen c r.after_minimums ≤ n
      before = elim (Option-cases (get c a.min_blocks)) [
        | inl free ↦ omega (
          arith,
          chosen-after_minimums,
          required_fits,
          held-picks a (required_views input) (optional_views input) c (constrained_categories a)
              (constrained_of_max a c n bound),
          length-picks_of-none a (required_views input) (optional_views input) c free,
        )
        | inr (m, least) ↦ omega (
          arith,
          chosen-after_minimums,
          required_fits,
          held-union m least,
          ok.bounds c m n least bound,
        )
      ]

  pub run-min : (m : ℕ) → get c a.min_blocks ≡ some m → m ≤ chosen c t
  run-min m least = omega (
    arith,
    chosen-after_minimums,
    held-union m least,
    (final_pass r).grows (λ x. one (in_category c (category_of x))),
  )
