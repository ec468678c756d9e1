-- ===== src/Allocation/Policy.antt =====
-- The allocation policy of packages/compiler/src/budget-allocator.ts, its validation, and the
-- lookups that the constructor of `BudgetAllocator` compiles from it.
use ctxalloc.Shared.{
  contains, ℕ, ◌+◌, Bool, true, false, ◌&&◌, Option, none, some, List, [], ◌∷◌, ◌++◌, map, Text,
  compare_code_units, sort, leb, if◌then◌else◌, Table, get, put, text_key,
}
use ctxalloc.Domain.Unicode.{is_policy_string, is_category_string}
use ctxalloc.Allocation.Issue.{
  Issue, invalid_policy, duplicate_category_constraint, Result, ok, err, ◌>>=◌,
}

pub record CategoryConstraint : Type 0 where
  pub category : Text
  pub min_blocks : Option ℕ
  pub max_blocks : Option ℕ

-- `schemaVersion` and `optionalSelection` admit one literal each.
pub record Policy : Type 0 where
  pub policy_id : Text
  pub policy_version : Text
  pub category_constraints : Option (List CategoryConstraint)

-- `policy.categoryConstraints ?? []`
abbrev pub constraints_of : Policy → List CategoryConstraint
constraints_of p = elim p.category_constraints [ none ↦ [] | some cs ↦ cs ]

-- At least one bound, and the lower one not over the upper one.
unfoldable pub has_valid_bounds : Option ℕ → Option ℕ → Bool
has_valid_bounds none none = false
has_valid_bounds none (some max) = true
has_valid_bounds (some min) none = true
has_valid_bounds (some min) (some max) = leb min max

unfoldable pub is_valid_constraint : CategoryConstraint → Bool
unfolding has_valid_bounds
is_valid_constraint c = is_category_string c.category && has_valid_bounds c.min_blocks c.max_blocks

unfoldable pub all_valid : List CategoryConstraint → Bool
all_valid [] = true
all_valid (c ∷ cs) = is_valid_constraint c && all_valid cs

-- What the schema accepts of a value of the right shape.
unfoldable pub is_accepted : Policy → Bool
unfolding all_valid
is_accepted p =
    is_policy_string p.policy_id
    && is_policy_string p.policy_version
    && all_valid (constraints_of p)

-- The categories seen so far, each with the index of its first constraint.
unfoldable pub duplicates_from : ℕ → Table Text ℕ → List CategoryConstraint → List Issue
duplicates_from index seen [] = []
duplicates_from index seen (c ∷ cs) = elim (get c.category seen) [
  | none ↦ duplicates_from (index + 1) (put c.category index seen) cs
  | some first ↦
      duplicate_category_constraint index c.category first ∷ duplicates_from (index + 1) seen cs
]

unfoldable pub detect_duplicate_categories : Policy → List Issue
unfolding duplicates_from
detect_duplicate_categories p = duplicates_from 0 [] (constraints_of p)

unfoldable pub parse_policy : Policy → Result Policy
unfolding is_accepted detect_duplicate_categories
parse_policy p =
    if is_accepted p
    then (elim (detect_duplicate_categories p) [ [] ↦ ok p | i ∷ is ↦ err (i ∷ is) ])
    else err (invalid_policy ∷ [])

-- A bound that is given enters the lookup.
unfoldable pub put_bound : Text → Option ℕ → Table Text ℕ → Table Text ℕ
put_bound category none m = m
put_bound category (some n) m = put category n m

-- `new Map(constraints.flatMap(...))`, one entry for each bound that is given.
unfoldable pub min_lookup : List CategoryConstraint → Table Text ℕ → Table Text ℕ
min_lookup [] m = m
min_lookup (c ∷ cs) m = min_lookup cs (put_bound c.category c.min_blocks m)

unfoldable pub max_lookup : List CategoryConstraint → Table Text ℕ → Table Text ℕ
max_lookup [] m = m
max_lookup (c ∷ cs) m = max_lookup cs (put_bound c.category c.max_blocks m)

-- `BudgetAllocator`: the validated policy and its two lookups.
pub record Allocator : Type 0 where
  pub policy : Policy
  pub min_blocks : Table Text ℕ
  pub max_blocks : Table Text ℕ

unfoldable pub construct : Policy → Result Allocator
unfolding parse_policy min_lookup max_lookup put_bound
construct p = do
  validated ← parse_policy p
  ok (record {
    policy = validated;
    min_blocks = min_lookup (constraints_of validated) [];
    max_blocks = max_lookup (constraints_of validated) [];
  })

-- `[...new Set(keys)]`: each key once, at its first occurrence.
unfoldable pub distinct_from : List Text → List Text → List Text
distinct_from seen [] = []
distinct_from seen (t ∷ ts) = elim (contains seen t) [
  | true ↦ distinct_from seen ts
  | false ↦ t ∷ distinct_from (t ∷ seen) ts
]

-- `[...m.keys()]`
abbrev pub keys : Table Text ℕ → List Text
keys m = map (λ e. e.0) m

-- Every configured category, in code-unit order.
unfoldable pub constrained_categories : Allocator → List Text
unfolding contains distinct_from
constrained_categories a =
    sort compare_code_units (distinct_from [] (keys a.min_blocks ++ keys a.max_blocks))
