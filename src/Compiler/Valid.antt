-- ===== src/Compiler/Valid.antt =====
-- What a selection of optional candidates owes the policy, beside the required ones, and that the
-- budgets of packages/compiler/src/context-compiler.ts ask for exactly that.
use ctxalloc.Shared.{
  some-injective, ℕ, ◌+◌, ◌≤◌, ◌≡◌, refl, inl, inr, Bool, true, false, ◌&&◌, Option, none, some,
  List, [], ◌∷◌, arith, Option-cases, leb, or_zero, length, length-select, Text, text_key, get,
  subst,
}
use ctxalloc.Candidates.{ScoredCandidate, category_of}
use ctxalloc.Allocation.Policy.{CategoryConstraint}
use ctxalloc.Allocation.State.{in_category}
use ctxalloc.Compiler.Search.{CategoryBudget}
use ctxalloc.Compiler.Reference.{held, completes}
use ctxalloc.Compiler.Budgets.{capacity_of, category_budget, category_budgets}

abbrev pub at_most : Option ℕ → ℕ → Bool
at_most none n = true
at_most (some bound) n = leb n bound

-- A number of blocks keeps the bounds of a constraint.
abbrev pub in_bounds : CategoryConstraint → ℕ → Bool
in_bounds k n = leb (or_zero k.min_blocks) n && at_most k.max_blocks n

-- The required candidates and a selection keep the bounds of every constraint.
unfoldable pub keeps : List CategoryConstraint → List ScoredCandidate → List ScoredCandidate → Bool
keeps [] required s = true
keeps (k ∷ ks) required s =
    in_bounds k (held k.category required + held k.category s) && keeps ks required s

held-le-length : (t : Text) (cs : List ScoredCandidate) → held t cs ≤ length cs
held-le-length t [] = omega arith
held-le-length t (c ∷ cs) = ground (arith, held-le-length t cs)

module _ (pool required : List ScoredCandidate) where
  -- A budget asks for what its constraint asks for.
  budget-bounds :
      (k : CategoryConstraint) (b : CategoryBudget) (s : List ScoredCandidate)
      → category_budget pool required k ≡ some b
      → held k.category s ≤ held k.category pool
      → (leb b.deficit (held b.category s) && leb (held b.category s) b.capacity)
        ≡ in_bounds k (held k.category required + held k.category s)
  unfolding category_budget capacity_of
  budget-bounds k b s h few = ground (
    arith,
    length-select (λ c. in_category k.category (category_of c)) pool,
    length-select (λ c. in_category k.category (category_of c)) required,
    held-le-length k.category pool,
  )

  -- Where there is no budget, the constraint cannot be kept.
  no_budget-bounds :
      (k : CategoryConstraint) (s : List ScoredCandidate)
      → category_budget pool required k ≡ none
      → held k.category s ≤ held k.category pool
      → in_bounds k (held k.category required + held k.category s) ≡ false
  unfolding category_budget capacity_of
  no_budget-bounds k s h few = ground (
    arith,
    length-select (λ c. in_category k.category (category_of c)) pool,
    length-select (λ c. in_category k.category (category_of c)) required,
    held-le-length k.category pool,
  )

  -- A selection completes the budgets exactly when it keeps the bounds of the constraints.
  pub completes-keeps :
      (ks : List CategoryConstraint) (bs : List CategoryBudget) (s : List ScoredCandidate)
      → category_budgets pool required ks ≡ some bs
      → ((t : Text) → held t s ≤ held t pool)
      → completes bs [] s ≡ keeps ks required s
  unfolding category_budgets completes keeps get
  completes-keeps [] bs s h few = subst (λ bs. completes bs [] s ≡ true) (some-injective h) refl
  completes-keeps (k ∷ ks) bs s h few = elim (Option-cases (category_budget pool required k)) [
    | inl missing ↦ absurd (ground (arith, missing, h))
    | inr (b, found) ↦ elim (Option-cases (category_budgets pool required ks)) [
      | inl stopped ↦ absurd (ground (arith, found, stopped, h))
      | inr (rest, others) ↦
          subst (λ bs. completes bs [] s ≡ keeps (k ∷ ks) required s)
            (some-injective (rw (category_budgets, found, others) at h))
            (ground (
              arith,
              budget-bounds k b s found (few k.category),
              completes-keeps ks rest s others few,
            ))
    ]
  ]

  -- Where a constraint cannot be kept, no selection keeps them all.
  pub none-keeps :
      (ks : List CategoryConstraint) (s : List ScoredCandidate)
      → category_budgets pool required ks ≡ none
      → ((t : Text) → held t s ≤ held t pool)
      → keeps ks required s ≡ false
  unfolding category_budgets keeps
  none-keeps [] s h few = absurd (ground (arith, h))
  none-keeps (k ∷ ks) s h few = elim (Option-cases (category_budget pool required k)) [
    | inl missing ↦ ground (arith, no_budget-bounds k s missing (few k.category))
    | inr (b, found) ↦ elim (Option-cases (category_budgets pool required ks)) [
      | inl stopped ↦ ground (arith, none-keeps ks s stopped few)
      | inr (rest, others) ↦ absurd (ground (arith, found, others, h))
    ]
  ]
