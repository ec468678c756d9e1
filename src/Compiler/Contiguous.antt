-- ===== src/Compiler/Contiguous.antt =====
-- In the order of `compareRescueOrder` of packages/compiler/src/context-compiler.ts each category is
-- contiguous, where its budget says.
use ctxalloc.Shared.{
  ℕ, zero, suc, ◌+◌, ◌-◌, ◌≡◌, refl, subst, inl, inr, true, false, ◌||◌, some, List, [], ◌∷◌, arith,
  Bool-cases, Option-cases, some-injective, ltb, or_zero, length, drop, length-select, All, All-map,
  All-drop, Text, text_eq_iff, in_order, compare_code_units-eq, compare_code_units-flip, IsSorted,
  text_key,
}
use Prim.Native.Nat.{max}
use ctxalloc.Candidates.{ScoredCandidate, category_of}
use ctxalloc.Allocation.Policy.{CategoryConstraint}
use ctxalloc.Allocation.State.{in_category}
use ctxalloc.Compiler.Search.{CategoryBudget}
use ctxalloc.Compiler.Reference.{held}
use ctxalloc.Compiler.Budgets.{
  compare_rescue_order, start_of, members_of, capacity_of, category_budget,
}

-- A candidate between two of a category is of it.
between :
    (t : Text) (x y z : ScoredCandidate)
    → in_category t (category_of x) ≡ true
    → in_category t (category_of z) ≡ true
    → in_order (compare_rescue_order x y) ≡ true
    → in_order (compare_rescue_order y z) ≡ true
    → in_category t (category_of y) ≡ true
unfolding compare_rescue_order
between t x y z first last low high = elim (Option-cases (category_of x)) [
  | inl none_x ↦ absurd (ground (arith, none_x, first))
  | inr (a, given_x) ↦ elim (Option-cases (category_of z)) [
    | inl none_z ↦ absurd (ground (arith, none_z, last))
    | inr (c, given_z) ↦ elim (Option-cases (category_of y)) [
      | inl none_y ↦ absurd (ground (arith, none_y, given_z, high))
      | inr (b, given_y) ↦ ground (
        arith,
        given_x,
        given_y,
        given_z,
        text_eq_iff t a,
        text_eq_iff t b,
        text_eq_iff t c,
        text_eq_iff a t,
        text_eq_iff c t,
        compare_code_units-flip a b,
        compare_code_units-flip t b,
        compare_code_units-eq a b,
        compare_code_units-eq t b,
        low,
        high,
      )
    ]
  ]
]

held-none :
    (t : Text) (cs : List ScoredCandidate)
    → All (λ c. in_category t (category_of c) ≡ false) cs
    → held t cs ≡ 0
held-none t [] h = refl
held-none t (c ∷ cs) h = ground (arith, h.0, held-none t cs h.1)

-- After one of a category, those of it come first.
after_first :
    (t : Text) (x : ScoredCandidate) (xs : List ScoredCandidate)
    → in_category t (category_of x) ≡ true
    → IsSorted compare_rescue_order (x ∷ xs)
    → (i : ℕ) → held t xs - i ≡ held t (drop i xs)
after_first t x xs here s zero = omega arith
after_first t x [] here s (suc i) = omega arith
after_first t x (y ∷ ys) here s (suc i) = elim (Bool-cases (in_category t (category_of y))) [
  | inl too ↦ ground (arith, too, after_first t y ys too s.1 i)
  | inr other ↦
      let out =
        All-map ys
          (λ z above. elim (Bool-cases (in_category t (category_of z))) [
            | inl inside ↦ absurd (ground (arith, other, between t x y z here inside s.0.0 above))
            | inr outside ↦ outside
          ])
          s.1.0 in
      ground (arith, other, held-none t ys out, held-none t (drop i ys) (All-drop _ i ys out))
]

contiguous :
    (t : Text) (pool : List ScoredCandidate)
    → IsSorted compare_rescue_order pool
    → (i : ℕ) → (start_of t pool + held t pool) - max i (start_of t pool) ≡ held t (drop i pool)
unfolding start_of
contiguous t [] s zero = omega arith
contiguous t [] s (suc i) = omega arith
contiguous t (x ∷ xs) s zero = ground arith
contiguous t (x ∷ xs) s (suc i) = elim (Bool-cases (in_category t (category_of x))) [
  | inl here ↦ ground (arith, here, after_first t x xs here s i)
  | inr other ↦ ground (arith, other, contiguous t xs s.1 i)
]

-- The bounds of a budget and of its category's constraint agree, and it spans its category.
pub budget-spans :
    (pool required : List ScoredCandidate) (k : CategoryConstraint) (b : CategoryBudget)
    → IsSorted compare_rescue_order pool
    → category_budget pool required k ≡ some b
    → (b.category ≡ k.category) × ((i : ℕ) → b.stop - max i b.start ≡ held b.category (drop i pool))
unfolding category_budget
budget-spans pool required k b s h =
    elim (Option-cases (capacity_of k.max_blocks (length pool) (members_of k.category required))) [
      | inl negative ↦ absurd (ground (arith, negative, h))
      | inr (capacity, sized) ↦
          elim (Bool-cases (
            ltb (members_of k.category pool) (or_zero k.min_blocks - members_of k.category required)
            || ltb capacity (or_zero k.min_blocks - members_of k.category required))) [
              | inl beyond ↦ absurd (ground (arith, sized, beyond, h))
              | inr fits ↦
                  subst
                    (λ b.
                      (b.category ≡ k.category)
                      × ((i : ℕ) → b.stop - max i b.start ≡ held b.category (drop i pool)))
                    (some-injective (rw (category_budget, sized, fits) at h))
                    (
                      refl,
                      λ i. omega (
                        arith,
                        contiguous k.category pool s i,
                        length-select (λ c. in_category k.category (category_of c)) pool,
                      ),
                    )
            ]
    ]
