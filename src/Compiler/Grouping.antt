-- ===== src/Compiler/Grouping.antt =====
-- The budgets that `categoryBudgets` of packages/compiler/src/context-compiler.ts resolves are what
-- the pruned search asks for.
use ctxalloc.Shared.{
  ℕ, ◌≡◌, refl, subst, ap, ◌∙◌, inl, inr, none, some, List, [], ◌∷◌, map, arith, Option-cases,
  some-injective, select, Text, text_eq_iff, IsSorted, Table, get, put, get-put, text_key, IsKeyed,
}
use ctxalloc.Candidates.{ScoredCandidate}
use ctxalloc.Allocation.Policy.{CategoryConstraint}
use ctxalloc.Compiler.Search.{CategoryBudget, subsets_of_size}
use ctxalloc.Compiler.Reference.{combos, completes}
use ctxalloc.Compiler.Prune.{pairs}
use ctxalloc.Compiler.Budgets.{
  compare_rescue_order, category_budget, category_budgets, index_budgets,
}
use ctxalloc.Compiler.Subsets.{IsGrouped, subsets_of_size-pruned}
use ctxalloc.Compiler.Contiguous.{budget-spans}

-- The constraints by category.
abbrev pub constraint_pairs : List CategoryConstraint → Table Text CategoryConstraint
constraint_pairs ks = map (λ k. (k.category, k)) ks

-- Budgets of different categories, each spanning its own.
pub record IsBudgeted (pool : List ScoredCandidate) (ks : List CategoryConstraint)
    (bs : List CategoryBudget) : Type 0 where
  pub fresh : (t : Text) → get t (constraint_pairs ks) ≡ none → get t (pairs bs) ≡ none
  pub keyed : IsKeyed (pairs bs)
  pub grouped : IsGrouped bs pool

pub category_budgets-IsBudgeted :
    (pool required : List ScoredCandidate) (ks : List CategoryConstraint) (bs : List CategoryBudget)
    → IsSorted compare_rescue_order pool
    → IsKeyed (constraint_pairs ks)
    → category_budgets pool required ks ≡ some bs
    → IsBudgeted pool ks bs
unfolding category_budgets get
category_budgets-IsBudgeted pool required [] bs s keyed h =
    subst (IsBudgeted pool []) (some-injective h)
      (record { fresh = λ t _. refl; keyed = tt; grouped = λ i. tt })
category_budgets-IsBudgeted pool required (k ∷ ks) bs s keyed h =
    elim (Option-cases (category_budget pool required k)) [
      | inl missing ↦ absurd (ground (arith, missing, h))
      | inr (b, found) ↦ elim (Option-cases (category_budgets pool required ks)) [
        | inl stopped ↦ absurd (ground (arith, found, stopped, h))
        | inr (rest, others) ↦
            let below = category_budgets-IsBudgeted pool required ks rest s keyed.1 others in
            let spans = budget-spans pool required k b s found in
            subst (IsBudgeted pool (k ∷ ks))
              (some-injective (rw (category_budgets, found, others) at h))
              (record {
                fresh = λ t unseen. ground (arith, spans.0, unseen, below.fresh t);
                keyed = (
                  ap (λ u. get u (pairs rest)) spans.0 ∙ below.fresh k.category keyed.0,
                  below.keyed,
                );
                grouped = λ i. (spans.1 i, below.grouped i);
              })
      ]
    ]

-- The map has the budgets by category.
index_budgets-get :
    (bs : List CategoryBudget) (m : Table Text CategoryBudget) (t : Text)
    → IsKeyed (pairs bs)
    → get t (index_budgets bs m) ≡ elim (get t (pairs bs)) [ none ↦ get t m | some b ↦ some b ]
unfolding index_budgets get
index_budgets-get [] m t k = refl
index_budgets-get (b ∷ bs) m t k = ground (
  arith,
  index_budgets-get bs (put b.category b m) t k.1,
  get-put b.category t b m,
  text_eq_iff b.category t,
  k.0,
)

pub indexed :
    (bs : List CategoryBudget) (t : Text)
    → IsKeyed (pairs bs)
    → get t (index_budgets bs []) ≡ get t (pairs bs)
unfolding get
indexed bs t k = elim (Option-cases (get t (pairs bs))) [
  | inl absent ↦ ground (arith, index_budgets-get bs [] t k, absent)
  | inr (b, found) ↦ ground (arith, index_budgets-get bs [] t k, found)
]

-- For a pool in the rescue order and constraints of different categories, whose budgets are those
-- that `categoryBudgets` resolves, the search yields exactly the subsets of the size that keep every
-- budget's minimum and maximum, in lexicographic order: the tests that cut branches off lose none of
-- them, and let no other through.
pub subsets_of_size-eq-combos :
    (pool required : List ScoredCandidate) (constraints : List CategoryConstraint)
    (budgets : List CategoryBudget) (size : ℕ)
    → IsSorted compare_rescue_order pool
    → IsKeyed (constraint_pairs constraints)
    → category_budgets pool required constraints ≡ some budgets
    → subsets_of_size pool size budgets (index_budgets budgets [])
      ≡ select (completes budgets []) (combos size pool)
subsets_of_size-eq-combos pool required constraints budgets size sorted distinct resolved =
    let facts =
      category_budgets-IsBudgeted pool required constraints budgets sorted distinct resolved in
    subsets_of_size-pruned budgets (index_budgets budgets []) pool size facts.keyed facts.grouped
      (λ t. indexed budgets t facts.keyed)
