-- ===== src/Compiler/Tests.antt =====
-- The theorems about the search of packages/compiler/src/context-compiler.ts at a pool of three
-- candidates, of which the first two share a category that wants exactly one.
use ctxalloc.Shared.{
  ◌≡◌, ◌≤◌, length, arith, refl, none, some, List, [], ◌∷◌, map, units, text_eq, select, get, put,
  text_key, IsKeyed, IsSorted, compare_code_units,
}
use ctxalloc.Candidates.{ScoredCandidate, id_of}
use ctxalloc.Allocation.Fixture.{block, scored}
use ctxalloc.Compiler.Enumerate.{combinations, policy_valid_optional_selections}
use ctxalloc.Compiler.Valid.{keeps}
use ctxalloc.Compiler.Odometer.{combinations-eq-combos}
use ctxalloc.Compiler.Sizes.{subsets, policy_valid_optional_selections-eq-subsets}
use ctxalloc.Compiler.Search.{
  CategoryBudget, budget_for, is_satisfied, owed_of, gate, walk, subsets_of_size,
}
use ctxalloc.Compiler.Reference.{combos, completes}
use ctxalloc.Compiler.Prune.{pairs}
use ctxalloc.Allocation.Policy.{CategoryConstraint}
use ctxalloc.Compiler.Budgets.{
  compare_rescue_order, start_of, capacity_of, category_budget, category_budgets, index_budgets,
}
use ctxalloc.Compiler.Grouping.{constraint_pairs, subsets_of_size-eq-combos}

abbrev pool : List ScoredCandidate
pool =
    scored 0 (block (units "a") 1 none (some (units "facts"))) 0
    ∷ scored 1 (block (units "b") 1 none (some (units "facts"))) 0
    ∷ scored 2 (block (units "c") 1 none none) 0
    ∷ []

abbrev budgets : List CategoryBudget
budgets = record { category = units "facts"; deficit = 1; capacity = 1; start = 0; stop = 2 } ∷ []

found :
    map (map id_of) (subsets_of_size pool 2 budgets (pairs budgets))
    ≡ (units "a" ∷ units "c" ∷ []) ∷ (units "b" ∷ units "c" ∷ []) ∷ []
unfolding subsets_of_size walk gate is_satisfied owed_of budget_for get put text_eq
found = refl

abbrev constraints : List CategoryConstraint
constraints = record { category = units "facts"; min_blocks = some 1; max_blocks = some 1 } ∷ []

resolved : category_budgets pool [] constraints ≡ some budgets
unfolding category_budgets category_budget capacity_of start_of text_eq
resolved = refl

sorted : IsSorted compare_rescue_order pool
unfolding compare_rescue_order compare_code_units
sorted = (((refl, (refl, tt)), ((refl, tt), (tt, tt))))

distinct : IsKeyed (constraint_pairs constraints)
unfolding get
distinct = (refl, tt)

subsets_of_size-eq-combos_example :
    subsets_of_size pool 2 budgets (index_budgets budgets [])
    ≡ select (completes budgets []) (combos 2 pool)
subsets_of_size-eq-combos_example =
    subsets_of_size-eq-combos pool [] constraints budgets 2 sorted distinct resolved

few : length (combos 2 pool) ≤ 3
unfolding combos
few = ground arith

combinations-eq-combos_example : combinations 3 pool 2 ≡ combos 2 pool
combinations-eq-combos_example = combinations-eq-combos 3 pool 2 few

policy_valid_optional_selections-eq-subsets_example :
    policy_valid_optional_selections pool [] constraints
    ≡ select (keeps constraints []) (subsets pool)
policy_valid_optional_selections-eq-subsets_example =
    policy_valid_optional_selections-eq-subsets pool [] constraints sorted distinct
