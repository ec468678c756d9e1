-- ===== src/Correction/Deficits.antt =====
-- `compareMinimumPreference` and `#categoryDeficits` of packages/compiler/src/context-compiler.ts.
use ctxalloc.Shared.{
  ℕ, zero, suc, ◌+◌, ◌-◌, Bool, true, false, Option, none, some, List, [], ◌∷◌, ◌++◌, map,
  if◌then◌else◌, ltb, ◌==◌, length, select, Text, text_eq, compare, Ordering, ◌orelse◌,
  compare_code_units, sort,
}
use ctxalloc.Shared.Outcome.{Outcome, returned, thrown, after}
use ctxalloc.Candidates.{ScoredCandidate, id_of, tokens_of, total_of, category_of}
use ctxalloc.Allocation.Policy.{CategoryConstraint}
use ctxalloc.Allocation.State.{in_category}
use ctxalloc.Compiler.Budgets.{members_of}
use ctxalloc.Compiler.Enumerate.{combinations}
use ctxalloc.Correction.Measure.{CorrectionFailure, unreachable_minimum}

unfoldable pub compare_minimum_preference : ScoredCandidate → ScoredCandidate → Ordering
compare_minimum_preference a b =
    compare (tokens_of a) (tokens_of b)
    orelse (compare (total_of b) (total_of a) orelse compare_code_units (id_of a) (id_of b))

abbrev pub is_some {ℓ} : {A : Type ℓ} → Option A → Bool
is_some none = false
is_some (some _) = true

-- `constraints.find((constraint) => constraint.category === category)?.minBlocks`
unfoldable pub minimum_of : Text → List CategoryConstraint → Option ℕ
minimum_of t [] = none
minimum_of t (k ∷ ks) =
    let rest = minimum_of t ks in if text_eq k.category t then k.min_blocks else rest

unfoldable pub minimum_categories : List CategoryConstraint → List Text
minimum_categories constraints =
    sort compare_code_units (map (λ k. k.category) (select (λ k. is_some k.min_blocks) constraints))

-- How many rounds the loop of `combinations` makes: the number of subsets.
unfoldable pub rounds : ℕ → ℕ → ℕ
rounds zero n = 1
rounds (suc k) zero = 0
rounds (suc k) (suc n) = rounds k n + rounds (suc k) n

-- A category that is short of its minimum, and what its factory yields.
pub record CategoryDeficit : Type 0 where
  pub category : Text
  pub combinations : List (List ScoredCandidate)

-- The optional candidates of a category in the allocator's preference.
unfoldable pub preferred : Text → List ScoredCandidate → List ScoredCandidate
unfolding compare_minimum_preference
preferred t optional =
    sort compare_minimum_preference (select (λ c. in_category t (category_of c)) optional)

-- One category of the `flatMap`.
unfoldable pub category_deficit :
    Text → ℕ → List ScoredCandidate → Outcome CorrectionFailure (List CategoryDeficit)
unfolding rounds
category_deficit t deficit pool =
    if deficit == 0
    then returned []
    else if ltb (length pool) deficit
    then thrown (unreachable_minimum t deficit (length pool) ∷ [])
    else returned (
        record {
          category = t;
          combinations = combinations (rounds deficit (length pool)) pool deficit;
        }
        ∷ [])

unfoldable pub deficits_of :
    List CategoryConstraint
    → List ScoredCandidate
    → List ScoredCandidate
    → List Text
    → Outcome CorrectionFailure (List CategoryDeficit)
unfolding category_deficit minimum_of preferred
deficits_of constraints required optional [] = returned []
deficits_of constraints required optional (t ∷ ts) =
    let rest = deficits_of constraints required optional ts in
    elim (minimum_of t constraints) [
      | none ↦ rest
      | some least ↦
          after (category_deficit t (least - members_of t required) (preferred t optional))
            (λ here. after rest (λ others. returned (here ++ others)))
    ]

unfoldable pub category_deficits :
    List CategoryConstraint
    → List ScoredCandidate
    → List ScoredCandidate
    → Outcome CorrectionFailure (List CategoryDeficit)
unfolding deficits_of minimum_categories
category_deficits constraints required optional =
    deficits_of constraints required optional (minimum_categories constraints)
