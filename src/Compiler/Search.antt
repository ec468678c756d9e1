-- ===== src/Compiler/Search.antt =====
-- `subsetsOfSize` of packages/compiler/src/context-compiler.ts. A generator is the list of what it
-- yields, in order; `chosen` is pushed and popped, so a call has it as an argument.
use ctxalloc.Shared.{
  ℕ, ◌+◌, ◌-◌, Bool, true, ◌&&◌, Option, none, some, List, [], ◌∷◌, ◌++◌, if◌then◌else◌, ltb, leb,
  ◌==◌, length, Text, Table, get, put, tally, text_key,
}
use Prim.Native.Nat.{max}
use ctxalloc.Candidates.{ScoredCandidate, category_of}

pub record CategoryBudget : Type 0 where
  pub category : Text
  pub deficit : ℕ
  pub capacity : ℕ
  pub start : ℕ
  pub stop : ℕ

-- `constrained.get(candidate.category)`
unfoldable pub budget_for : Table Text CategoryBudget → ScoredCandidate → Option CategoryBudget
budget_for constrained c = elim (category_of c) [ none ↦ none | some t ↦ get t constrained ]

unfoldable pub is_satisfied : List CategoryBudget → Table Text ℕ → Bool
is_satisfied [] counts = true
is_satisfied (b ∷ bs) counts = leb b.deficit (tally b.category counts) && is_satisfied bs counts

-- The slots that the unmet minimums need, or `none` where a category has too few candidates ahead.
unfoldable pub owed_of : List CategoryBudget → Table Text ℕ → ℕ → ℕ → Option ℕ
owed_of [] counts from owed = some owed
owed_of (b ∷ bs) counts from owed =
    let unmet = b.deficit - tally b.category counts in
    let met = owed_of bs counts from owed in
    let more = owed_of bs counts from (owed + unmet) in
    if leb b.deficit (tally b.category counts)
    then met
    else if ltb (b.stop - max from b.start) unmet
    then none
    else more

module _ (budgets : List CategoryBudget) (constrained : Table Text CategoryBudget) (size : ℕ) where
  -- What `walk` does before its loop, whose yield is `rest`; `size` is the pool's.
  unfoldable pub gate :
      ℕ
      → ℕ
      → Table Text ℕ
      → List ScoredCandidate
      → List (List ScoredCandidate)
      → List (List ScoredCandidate)
  unfolding is_satisfied owed_of
  gate from remaining counts chosen rest =
      if remaining == 0
      then (if is_satisfied budgets counts then chosen ∷ [] else [])
      else if ltb (size - from) remaining
      then []
      else elim (owed_of budgets counts from 0) [
        | none ↦ []
        | some owed ↦ if ltb remaining owed then [] else rest
      ]

  -- The loop of `walk`, over the candidates from an index on.
  unfoldable pub walk :
      List ScoredCandidate
      → ℕ
      → ℕ
      → Table Text ℕ
      → List ScoredCandidate
      → List (List ScoredCandidate)
  unfolding gate budget_for
  walk [] index remaining counts chosen = []
  walk (c ∷ cs) index remaining counts chosen =
      let next = walk cs (index + 1) remaining counts chosen in
      let bare = walk cs (index + 1) (remaining - 1) counts (chosen ++ c ∷ []) in
      elim (budget_for constrained c) [
        | none ↦ gate (index + 1) (remaining - 1) counts (chosen ++ c ∷ []) bare ++ next
        | some b ↦
            let counted = put b.category (tally b.category counts + 1) counts in
            let deeper = walk cs (index + 1) (remaining - 1) counted (chosen ++ c ∷ []) in
            if leb b.capacity (tally b.category counts)
            then next
            else gate (index + 1) (remaining - 1) counted (chosen ++ c ∷ []) deeper ++ next
      ]

unfoldable pub subsets_of_size :
    List ScoredCandidate
    → ℕ
    → List CategoryBudget
    → Table Text CategoryBudget
    → List (List ScoredCandidate)
unfolding walk gate
subsets_of_size pool size budgets constrained =
    gate budgets constrained (length pool) 0 size [] []
      (walk budgets constrained (length pool) pool 0 size [] [])
