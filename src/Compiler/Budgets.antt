-- ===== src/Compiler/Budgets.antt =====
-- `compareRescueOrder` and `categoryBudgets` of packages/compiler/src/context-compiler.ts.
use ctxalloc.Shared.{
  ℕ, ◌+◌, ◌-◌, ◌||◌, Option, none, some, List, [], ◌∷◌, if◌then◌else◌, ltb, length, select, Text,
  compare, Ordering, ◌orelse◌, compare_code_units, or_zero, Table, put, text_key,
}
use ctxalloc.Candidates.{ScoredCandidate, id_of, category_of}
use ctxalloc.Allocation.Policy.{CategoryConstraint}
use ctxalloc.Allocation.State.{in_category}
use ctxalloc.Compiler.Search.{CategoryBudget}

-- `a.category === undefined ? 1 : 0`
abbrev pub presence : Option Text → ℕ
presence none = 1
presence (some _) = 0

-- `a.category ?? ''`
abbrev pub or_empty : Option Text → Text
or_empty none = []
or_empty (some t) = t

unfoldable pub compare_rescue_order : ScoredCandidate → ScoredCandidate → Ordering
compare_rescue_order a b =
    compare (presence (category_of a)) (presence (category_of b))
    orelse (compare_code_units (or_empty (category_of a)) (or_empty (category_of b))
        orelse compare_code_units (id_of a) (id_of b))

-- How many candidates come before the first of a category, all of them where there is none:
-- `start === -1 ? pool.length : start`.
unfoldable pub start_of : Text → List ScoredCandidate → ℕ
start_of t [] = 0
start_of t (c ∷ cs) =
    let rest = start_of t cs in if in_category t (category_of c) then 0 else rest + 1

-- `candidates.filter((candidate) => candidate.category === category).length`
abbrev pub members_of : Text → List ScoredCandidate → ℕ
members_of t cs = length (select (λ c. in_category t (category_of c)) cs)

-- The capacity, or `none` where it is negative.
unfoldable pub capacity_of : Option ℕ → ℕ → ℕ → Option ℕ
capacity_of none size required_count = some size
capacity_of (some bound) size required_count =
    if ltb bound required_count then none else some (bound - required_count)

-- One round of the loop, `none` for the early return.
unfoldable pub category_budget :
    List ScoredCandidate → List ScoredCandidate → CategoryConstraint → Option CategoryBudget
unfolding capacity_of start_of
category_budget pool required k =
    elim (capacity_of k.max_blocks (length pool) (members_of k.category required)) [
      | none ↦ none
      | some capacity ↦
          let deficit = or_zero k.min_blocks - members_of k.category required in
          if ltb (members_of k.category pool) deficit || ltb capacity deficit
          then none
          else some (record {
            category = k.category;
            deficit = deficit;
            capacity = capacity;
            start = start_of k.category pool;
            stop = start_of k.category pool + members_of k.category pool;
          })
    ]

unfoldable pub category_budgets :
    List ScoredCandidate
    → List ScoredCandidate
    → List CategoryConstraint
    → Option (List CategoryBudget)
unfolding category_budget
category_budgets pool required [] = some []
category_budgets pool required (k ∷ ks) = elim (category_budget pool required k) [
  | none ↦ none
  | some b ↦ (elim (category_budgets pool required ks) [ none ↦ none | some bs ↦ some (b ∷ bs) ])
]

-- `new Map(budgets.map((budget) => [budget.category, budget]))`
unfoldable pub index_budgets :
    List CategoryBudget → Table Text CategoryBudget → Table Text CategoryBudget
index_budgets [] m = m
index_budgets (b ∷ bs) m = index_budgets bs (put b.category b m)
