-- ===== src/Compiler/Enumerate.antt =====
-- `combinations`, `cartesian` and `policyValidOptionalSelections` of
-- packages/compiler/src/context-compiler.ts. A generator is the list of what it yields, in order.
use ctxalloc.Shared.{
  ℕ, zero, suc, ◌+◌, ◌-◌, Option, none, some, List, [], ◌∷◌, ◌++◌, map, if◌then◌else◌, ltb, ◌==◌,
  Bool, length, select, weigh, Text, Table, get, text_key,
}
use Prim.Native.Nat.{min}
use ctxalloc.Candidates.{ScoredCandidate, category_of}
use ctxalloc.Allocation.Policy.{CategoryConstraint}
use ctxalloc.Compiler.Search.{CategoryBudget, subsets_of_size}
use ctxalloc.Compiler.Budgets.{category_budgets, index_budgets}

-- `n` indices that follow one another, from a given one on.
unfoldable pub run_from : ℕ → ℕ → List ℕ
run_from zero from = []
run_from (suc n) from = from ∷ run_from n (suc from)

-- The indices after these. The cursor comes from the right and stops at the last index that is not
-- the largest its place admits; that one grows by one and those to its right follow on. A suffix is
-- worked off before the index to its left is looked at, and `none` says that the cursor went past it.
unfoldable pub advance : ℕ → List ℕ → Option (List ℕ)
unfolding run_from
advance n [] = none
advance n (i ∷ is) = elim (advance n is) [
  | some later ↦ some (i ∷ later)
  | none ↦ if i + suc (length is) == n then none else some (run_from (suc (length is)) (suc i))
]

-- `pool[index]`, for an index of the pool.
unfoldable pub pick {ℓ} : {A : Type ℓ} → List A → ℕ → List A
pick [] i = []
pick (x ∷ xs) zero = x ∷ []
pick (x ∷ xs) (suc i) = pick xs i

-- `indices.map((index) => pool[index])`
unfoldable pub picks_at {ℓ} : {A : Type ℓ} → List A → List ℕ → List A
unfolding pick
picks_at pool [] = []
picks_at pool (i ∷ is) = pick pool i ++ picks_at pool is

-- The loop, on fuel: each round yields one tuple of indices.
unfoldable pub odometer : ℕ → ℕ → List ℕ → List (List ℕ)
unfolding advance
odometer zero n indices = []
odometer (suc fuel) n indices = elim (advance n indices) [
  | none ↦ indices ∷ []
  | some later ↦ indices ∷ odometer fuel n later
]

unfoldable pub combinations {ℓ} : {A : Type ℓ} → ℕ → List A → ℕ → List (List A)
unfolding odometer run_from picks_at
combinations fuel pool size =
    if size == 0
    then [] ∷ []
    else if ltb (length pool) size
    then []
    else map (picks_at pool) (odometer fuel (length pool) (run_from size 0))

-- `[item, ...tail]` for each item of the first sequence and each tuple of the others.
unfoldable pub prefix_each {ℓ} : {A : Type ℓ} → List A → List (List A) → List (List A)
prefix_each [] tails = []
prefix_each (item ∷ items) tails = map (λ tail. item ∷ tail) tails ++ prefix_each items tails

unfoldable pub cartesian {ℓ} : {A : Type ℓ} → List (List A) → List (List A)
unfolding prefix_each
cartesian [] = [] ∷ []
cartesian (first ∷ rest) = prefix_each first (cartesian rest)

-- No budget is of the candidate's category.
unfoldable pub is_unconstrained : Table Text CategoryBudget → ScoredCandidate → Bool
is_unconstrained constrained c = elim (category_of c) [
  | none ↦ Bool.true
  | some t ↦ (elim (get t constrained) [ none ↦ Bool.true | some _ ↦ Bool.false ])
]

-- `for (let size = ...; size <= last; size += 1) yield* ...`, with the rounds left.
unfoldable pub sizes_from :
    ℕ
    → ℕ
    → List ScoredCandidate
    → List CategoryBudget
    → Table Text CategoryBudget
    → List (List ScoredCandidate)
sizes_from zero size pool budgets constrained = []
sizes_from (suc rounds) size pool budgets constrained =
    subsets_of_size pool size budgets constrained
    ++ sizes_from rounds (suc size) pool budgets constrained

abbrev pub min_cardinality : List CategoryBudget → ℕ
min_cardinality budgets = weigh (λ b. b.deficit) budgets

abbrev pub max_cardinality :
    List ScoredCandidate → List CategoryBudget → Table Text CategoryBudget → ℕ
max_cardinality pool budgets constrained =
    length (select (is_unconstrained constrained) pool)
    + weigh (λ b. min (b.stop - b.start) b.capacity) budgets

unfoldable pub policy_valid_optional_selections :
    List ScoredCandidate
    → List ScoredCandidate
    → List CategoryConstraint
    → List (List ScoredCandidate)
unfolding sizes_from
policy_valid_optional_selections pool required constraints =
    elim (category_budgets pool required constraints) [
      | none ↦ []
      | some budgets ↦
          let constrained = index_budgets budgets [] in
          sizes_from (suc (max_cardinality pool budgets constrained) - min_cardinality budgets)
            (min_cardinality budgets) pool budgets constrained
    ]
