-- ===== src/Compilation/Bounds.antt =====
-- The bounds that the constructor of `BudgetAllocator` in packages/compiler/src/budget-allocator.ts
-- compiles are those of the constraints, which the allocation therefore keeps.
use ctxalloc.Shared.{
  ℕ, ◌≤◌, ◌≡◌, refl, sym, subst, ap, ◌∙◌, inl, inr, true, none, Option, Option-cases, or_zero, List,
  [], ◌∷◌, ◌++◌, arith, All, All-map, All-both, weigh, weigh-append, one, Text, text_eq_iff, Table,
  get, text_key, IsKeyed,
}
use ctxalloc.Domain.TokenBudget.{TokenBudget}
use ctxalloc.Candidates.{ScoredCandidate, ScoredCandidateSet, category_of}
use ctxalloc.Allocation.Issue.{ok, Halves-ok, ok-injective}
use ctxalloc.Allocation.Policy.{
  CategoryConstraint, Policy, constraints_of, put_bound, min_lookup, max_lookup, parse_policy,
  Allocator, construct,
}
use ctxalloc.Allocation.State.{in_category}
use ctxalloc.Allocation.Allocate.{allocate}
use ctxalloc.Allocation.Reconcile.{Allocated}
use ctxalloc.Allocation.Guarantees.{
  included_candidates, allocate-respects_min, allocate-respects_max,
}
use ctxalloc.Allocation.Consistent.{get-put_bound, accepted_parts}
use ctxalloc.Allocation.Surplus.{IsSurplus}
use ctxalloc.Compiler.Grouping.{constraint_pairs}
use ctxalloc.Compiler.Reference.{held}
use ctxalloc.Compiler.Valid.{at_most}
use ctxalloc.Correction.Bounded.{KeepsBounds, AreSpare, absent_category}
use ctxalloc.Compilation.Inputs.{construct-IsKeyed}

-- A lookup of one of the bounds.
module _ (bound : CategoryConstraint → Option ℕ)
    (lookup : List CategoryConstraint → Table Text ℕ → Table Text ℕ)
    (nothing : (m : Table Text ℕ) → lookup [] m ≡ m)
    (step : (k : CategoryConstraint) (ks : List CategoryConstraint) (m : Table Text ℕ)
      → lookup (k ∷ ks) m ≡ lookup ks (put_bound k.category (bound k) m)) where
  untouched :
      (ks : List CategoryConstraint) (m : Table Text ℕ) (t : Text)
      → get t (constraint_pairs ks) ≡ none
      → get t (lookup ks m) ≡ get t m
  unfolding get
  untouched [] m t h = ap (get t) (nothing m)
  untouched (k ∷ ks) m t h =
      ap (get t) (step k ks m)
      ∙ ground (
        arith,
        h,
        untouched ks (put_bound k.category (bound k) m) t,
        get-put_bound k.category t (bound k) m,
      )

  -- Of constraints of different categories the lookup has the bounds.
  lookup-own :
      (ks : List CategoryConstraint) (m : Table Text ℕ)
      → IsKeyed (constraint_pairs ks)
      → All (λ k. get k.category m ≡ none) ks
      → All (λ k. get k.category (lookup ks m) ≡ bound k) ks
  lookup-own [] m h free = tt
  lookup-own (k ∷ ks) m h free =
      let m' = put_bound k.category (bound k) m in
      subst (λ l. All (λ j. get j.category l ≡ bound j) (k ∷ ks)) (sym (step k ks m))
        (
          ground (
            arith,
            untouched ks m' k.category h.0,
            get-put_bound k.category k.category (bound k) m,
            text_eq_iff k.category k.category,
            free.0,
          ),
          lookup-own ks m' h.1 (
              All-map ks
                (λ j both.
                  ground (arith, both.0, both.1, get-put_bound k.category j.category (bound k) m))
                (All-both _ _ ks (absent_category ks k.category h.0) free.1)),
        )

abbrev empty : Table Text ℕ
empty = []

none_yet : (ks : List CategoryConstraint) → All (λ k. get k.category empty ≡ none) ks
unfolding get
none_yet [] = tt
none_yet (k ∷ ks) = (refl, none_yet ks)

-- An allocator that is constructed has the bounds of the constraints.
abbrev HasBounds : Allocator → List CategoryConstraint → Type 0
HasBounds a ks =
    All
      (λ k.
        (get k.category a.min_blocks ≡ k.min_blocks) × (get k.category a.max_blocks ≡ k.max_blocks))
      ks

construct-HasBounds :
    (p : Policy) {a : Allocator} → construct p ≡ ok a → HasBounds a (constraints_of p)
unfolding construct min_lookup max_lookup
construct-HasBounds p {a} h =
    let record { value = q; first = parsed; second = built } = Halves-ok (parse_policy p) _ h in
    let same = (accepted_parts p q parsed).0 in
    let ks = constraints_of p in
    let keyed = construct-IsKeyed p h in
    subst (λ a. HasBounds a ks) (ok-injective built)
      (subst
        (λ r.
          HasBounds
            (record {
              policy = r;
              min_blocks = min_lookup (constraints_of r) [];
              max_blocks = max_lookup (constraints_of r) [];
            })
            ks)
        same
        (All-both _ _ ks
          (lookup-own (λ k. k.min_blocks) min_lookup (λ m. refl) (λ k ks m. refl) ks [] keyed
            (none_yet ks))
          (lookup-own (λ k. k.max_blocks) max_lookup (λ m. refl) (λ k ks m. refl) ks [] keyed
            (none_yet ks))))

-- What an allocation includes keeps every category's bounds.
pub allocate-KeepsBounds :
    (p : Policy) (a : Allocator) (input : ScoredCandidateSet) (budget : TokenBudget) {r : Allocated}
    → construct p ≡ ok a
    → allocate a input budget ≡ ok r
    → KeepsBounds (constraints_of p) (included_candidates r)
allocate-KeepsBounds p a input budget {r} built h =
    All-map (constraints_of p) (λ k own. ground (arith, at_least k own.0, at_most_of k own.1))
      (construct-HasBounds p built)
  where
    at_least :
        (k : CategoryConstraint)
        → get k.category a.min_blocks ≡ k.min_blocks
        → or_zero k.min_blocks ≤ held k.category (included_candidates r)
    at_least k own = elim (Option-cases k.min_blocks) [
      | inl free ↦ ground (arith, free)
      | inr (m, given) ↦
          ground (arith, given, allocate-respects_min a input budget h k.category m (own ∙ given))
    ]

    at_most_of :
        (k : CategoryConstraint)
        → get k.category a.max_blocks ≡ k.max_blocks
        → at_most k.max_blocks (held k.category (included_candidates r)) ≡ true
    at_most_of k own = elim (Option-cases k.max_blocks) [
      | inl free ↦ ground (arith, free)
      | inr (n, given) ↦
          ground (
            arith,
            given,
            allocate-respects_max p a input budget built h k.category n (own ∙ given),
          )
    ]

-- Without a beginning of the eviction order every minimum is still kept.
pub IsSurplus-AreSpare {κ} :
    (P : ScoredCandidate → Type κ) (p : Policy) (a : Allocator) {r : Allocated}
    (es gone rest : List ScoredCandidate)
    → construct p ≡ ok a
    → IsSurplus P a r es
    → gone ++ rest ≡ es
    → AreSpare (constraints_of p) (included_candidates r) gone
IsSurplus-AreSpare P p a {r} es gone rest built surplus parts =
    All-map (constraints_of p)
      (λ k own. elim (Option-cases k.min_blocks) [
        | inl free ↦
            let f = λ (c : ScoredCandidate). one (in_category k.category (category_of c)) in
            ground (arith, free, surplus.within f, ap (weigh f) parts, weigh-append f gone rest)
        | inr (m, given) ↦
            ground (arith, given, surplus.spare gone rest parts k.category m (own.0 ∙ given))
      ])
      (construct-HasBounds p built)
