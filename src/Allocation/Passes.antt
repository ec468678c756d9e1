-- ===== src/Allocation/Passes.antt =====
-- The passes of `BudgetAllocator` in packages/compiler/src/budget-allocator.ts, in the order in
-- which `allocate` makes them.
use ctxalloc.Shared.{
  ℕ, ◌+◌, ◌-◌, Bool, true, false, Option, none, some, List, [], ◌∷◌, ◌++◌, Text, ltb, leb, ◌==◌,
  if◌then◌else◌, select, take, length, sort, Table, get, put, tally, text_key,
}
use ctxalloc.Candidates.{ScoredCandidate, id_of, tokens_of, category_of}
use ctxalloc.Allocation.Issue.{
  Issue, required_content_exceeds_budget, required_category_maximum_exceeded,
  category_minimum_unreachable, category_minimums_exceed_content_budget, Result, ok, err,
}
use ctxalloc.Allocation.Policy.{Allocator}
use ctxalloc.Allocation.State.{
  AllocationCandidate, in_category, compare_minimum_cost, included_required,
  included_category_minimum, included_score_order, excluded_category_maximum,
  excluded_budget_exhausted, State, include, exclude,
}

-- `entry.category === category`
abbrev pub of_category : Text → AllocationCandidate → Bool
of_category c e = in_category c (category_of e.scored)

-- `entries.filter((entry) => entry.category === category).length`
abbrev pub count_of : Text → List AllocationCandidate → ℕ
count_of c es = length (select (of_category c) es)

-- How many blocks a minimum still needs: `Math.max(0, minBlocks - requiredCount)`.
abbrev pub needed : ℕ → ℕ → ℕ
needed min_blocks required_count = min_blocks - required_count

module _ (a : Allocator) (required optional : List AllocationCandidate) where
  unfoldable pub maximum_issues : Text → List Issue
  maximum_issues c = elim (get c a.max_blocks) [
    | none ↦ []
    | some m ↦
        if ltb m (count_of c required)
        then required_category_maximum_exceeded c m (count_of c required) ∷ []
        else []
  ]

  unfoldable pub minimum_issues : Text → List Issue
  minimum_issues c = elim (get c a.min_blocks) [
    | none ↦ []
    | some m ↦
        if ltb (count_of c optional) (needed m (count_of c required))
        then category_minimum_unreachable c m (count_of c required) (count_of c optional) ∷ []
        else []
  ]

  unfoldable pub detect_count_failures : List Text → List Issue
  detect_count_failures [] = []
  detect_count_failures (c ∷ cs) =
      maximum_issues c ++ (minimum_issues c ++ detect_count_failures cs)

  -- The cheapest blocks that make up what one category's minimum still needs.
  unfoldable pub picks_of : Text → List AllocationCandidate
  picks_of c = elim (get c a.min_blocks) [
    | none ↦ []
    | some m ↦
        take (needed m (count_of c required))
          (sort compare_minimum_cost (select (of_category c) optional))
  ]

  -- `union`
  unfoldable pub picks : List Text → List AllocationCandidate
  picks [] = []
  picks (c ∷ cs) = picks_of c ++ picks cs

-- The loop of `#allocateRequired`, over the sorted blocks.
unfoldable pub allocate_required : ℕ → List AllocationCandidate → State → Result State
allocate_required available [] s = ok s
allocate_required available (e ∷ es) s =
    let rest = allocate_required available es (include e included_required s) in
    if ltb s.remaining (tokens_of e.scored)
    then err (
        required_content_exceeds_budget (id_of e.scored) (tokens_of e.scored) s.remaining available
        ∷ [])
    else rest

-- The loop of `#allocateCategoryMinimums` over the union of `needs` picks, with the handles of the
-- set `reserved`.
unfoldable pub reserve : ℕ → ℕ → List AllocationCandidate → State → List ℕ → Result (State × List ℕ)
reserve available needs [] s reserved = ok (s, reserved)
reserve available needs (e ∷ es) s reserved =
    let rest =
      reserve available needs es (include e included_category_minimum s) (e.handle ∷ reserved) in
    if ltb s.remaining (tokens_of e.scored)
    then err (
        category_minimums_exceed_content_budget s.remaining available needs (id_of e.scored)
          (tokens_of e.scored)
        ∷ [])
    else rest

-- `reserved.has(entry)`
unfoldable pub has : List ℕ → AllocationCandidate → Bool
has [] e = false
has (h ∷ hs) e = let rest = has hs e in if h == e.handle then true else rest

-- A category maximum is met: `selectedCount >= maxBlocks`.
unfoldable pub at_maximum : Allocator → AllocationCandidate → State → Bool
at_maximum a e s = elim (category_of e.scored) [
  | none ↦ false
  | some c ↦ (elim (get c a.max_blocks) [
    | none ↦ false
    | some m ↦ leb m (tally c s.selected_by_category)
  ])
]

-- One candidate of `#allocateOptional`.
unfoldable pub consider : Allocator → AllocationCandidate → State → State
unfolding at_maximum
consider a e s =
    if at_maximum a e s
    then exclude e excluded_category_maximum s
    else if ltb s.remaining (tokens_of e.scored)
    then exclude e excluded_budget_exhausted s
    else include e included_score_order s

unfoldable pub allocate_optional : Allocator → List AllocationCandidate → State → State
allocate_optional a [] s = s
allocate_optional a (e ∷ es) s = allocate_optional a es (consider a e s)

-- Whether the correction loop may give a block back: the counts after it did, or `none`.
-- `count - 1 < minBlocks` on integers is `count < minBlocks + 1`.
unfoldable pub give_back : Allocator → ScoredCandidate → Table Text ℕ → Option (Table Text ℕ)
give_back a c counts = elim (category_of c) [
  | none ↦ some counts
  | some t ↦ (elim (get t a.min_blocks) [
    | none ↦ some counts
    | some m ↦
        if ltb (tally t counts) (m + 1) then none else some (put t (tally t counts - 1) counts)
  ])
]

-- The loop of `#evictionOrder`, over the sorted optional inclusions.
unfoldable pub evict : Allocator → List ScoredCandidate → Table Text ℕ → List ScoredCandidate
evict a [] counts = []
evict a (c ∷ cs) counts = elim (give_back a c counts) [
  | none ↦ evict a cs counts
  | some counts' ↦ c ∷ evict a cs counts'
]
