-- ===== src/Compiler/Sizes.antt =====
-- The sizes that `policyValidOptionalSelections` of packages/compiler/src/context-compiler.ts leaves
-- out have no valid selection.
use ctxalloc.Shared.{
  ℕ, zero, suc, ◌+◌, ◌-◌, ◌≤◌, ◌<◌, ◌≡◌, refl, sym, ap, ◌∙◌, inl, inr, Bool, true, false, Option,
  none, some, List, [], ◌∷◌, ◌++◌, arith, Bool-cases, Option-cases, length, select, length-select,
  weigh, weigh-zero, weigh_add, weigh_cong_All, count, one, All, All-map, Text, text_eq,
  text_eq_iff, Table, get, text_key, IsSorted, IsKeyed,
}
use Prim.Native.Nat.{min}
use ctxalloc.Compiler.Over.{over, over-window, select-over, over_cong, select_cong_All}
use ctxalloc.Candidates.{ScoredCandidate, category_of}
use ctxalloc.Allocation.Policy.{CategoryConstraint}
use ctxalloc.Allocation.State.{in_category}
use ctxalloc.Compiler.Search.{CategoryBudget, subsets_of_size}
use ctxalloc.Compiler.Reference.{held, combos, combos-weigh, completes, select-nothing}
use ctxalloc.Compiler.Prune.{pairs, no_budget, counted, counted-le, combos-short}
use ctxalloc.Compiler.Budgets.{compare_rescue_order, category_budgets, index_budgets}
use ctxalloc.Compiler.Grouping.{
  constraint_pairs, IsBudgeted, category_budgets-IsBudgeted, indexed, subsets_of_size-eq-combos,
}
use ctxalloc.Compiler.Valid.{keeps, completes-keeps, none-keeps}
use ctxalloc.Compiler.Enumerate.{
  is_unconstrained, sizes_from, min_cardinality, max_cardinality, policy_valid_optional_selections,
}

-- Over budgets of different categories, those that count a category are the one that the map has.
exactly_once :
    (bs : List CategoryBudget) (t : Text)
    → IsKeyed (pairs bs)
    → weigh (λ b. one (text_eq b.category t)) bs ≡ elim (get t (pairs bs)) [ none ↦ 0 | some _ ↦ 1 ]
unfolding get
exactly_once [] t k = refl
exactly_once (b ∷ bs) t k = elim (Bool-cases (text_eq b.category t)) [
  | inl here ↦ ground (
    arith,
    here,
    weigh_cong_All (λ (b : CategoryBudget). one (text_eq b.category t)) (λ _. 0) bs
        (All-map bs (λ b' other. rw other refl)
          (no_budget bs t (ground (arith, k.0, text_eq_iff b.category t, here)))),
    weigh-zero bs,
  )
  | inr gone ↦ ground (arith, gone, exactly_once bs t k.1)
]

module _ (bs : List CategoryBudget) (constrained : Table Text CategoryBudget)
    (keyed : IsKeyed (pairs bs)) (indexed : (t : Text) → get t constrained ≡ get t (pairs bs)) where
  counted_or_not :
      (o : Option Text)
      → weigh (λ b. one (in_category b.category o)) bs
          + one (elim o [
            | none ↦ true
            | some t ↦ (elim (get t constrained) [ none ↦ true | some _ ↦ false ])
          ])
        ≡ 1
  counted_or_not none = omega (arith, weigh-zero bs)
  counted_or_not (some t) = elim (Option-cases (get t (pairs bs))) [
    | inl absent ↦ ground (arith, exactly_once bs t keyed, indexed t, absent)
    | inr (b, found) ↦ ground (arith, exactly_once bs t keyed, indexed t, found)
  ]

  -- The members of a selection are those that a budget counts and those that none does.
  length-counted :
      (s : List ScoredCandidate) → length s ≡ counted bs s + count (is_unconstrained constrained) s
  unfolding is_unconstrained
  length-counted [] = omega (arith, weigh-zero bs)
  length-counted (c ∷ s) = omega (
    arith,
    weigh_add (λ (b : CategoryBudget). one (in_category b.category (category_of c)))
        (λ b. held b.category s) bs,
    counted_or_not (category_of c),
    length-counted s,
  )

deficits-counted :
    (bs : List CategoryBudget) (s : List ScoredCandidate)
    → completes bs [] s ≡ true
    → min_cardinality bs ≤ counted bs s
unfolding completes get
deficits-counted [] s h = omega arith
deficits-counted (b ∷ bs) s h = ground (arith, deficits-counted bs s)

counted-room :
    (bs : List CategoryBudget) (s pool : List ScoredCandidate)
    → completes bs [] s ≡ true
    → ((t : Text) → held t s ≤ held t pool)
    → All (λ b. b.stop - b.start ≡ held b.category pool) bs
    → counted bs s ≤ weigh (λ b. min (b.stop - b.start) b.capacity) bs
unfolding completes get
counted-room [] s pool h few spans = omega arith
counted-room (b ∷ bs) s pool h few spans =
    ground (arith, few b.category, spans.0, counted-room bs s pool, few, spans.1)

-- Every subset of a list, by size and then in lexicographic order.
abbrev pub subsets {ℓ} : {A : Type ℓ} → List A → List (List A)
subsets xs = over (λ i. combos i xs) 0 (suc (length xs))

abbrev Part : ℕ → List ScoredCandidate → List ScoredCandidate → Type 0
Part i pool s = (length s ≡ i) × ((f : ScoredCandidate → ℕ) → weigh f s ≤ weigh f pool)

Part-held :
    (i : ℕ) (pool s : List ScoredCandidate) → Part i pool s → (t : Text) → held t s ≤ held t pool
Part-held i pool s part t = part.1 (λ c. one (in_category t (category_of c)))

-- No size is found where no subset of it completes the budgets.
refused :
    (bs : List CategoryBudget) (pool : List ScoredCandidate) (i : ℕ)
    → ((s : List ScoredCandidate) → Part i pool s → completes bs [] s ≡ true → ⊥)
    → select (completes bs []) (combos i pool) ≡ []
refused bs pool i h = select-nothing (completes bs []) (combos i pool) (
    All-map (combos i pool)
      (λ s part. elim (Bool-cases (completes bs [] s)) [
        | inl full ↦ absurd (h s part full)
        | inr other ↦ other
      ])
      (combos-weigh i pool))

module _ (bs : List CategoryBudget) (pool : List ScoredCandidate)
    (constraints : List CategoryConstraint) (facts : IsBudgeted pool constraints bs) where
  at_start : All (λ b. b.stop - b.start ≡ held b.category pool) bs
  at_start = All-map bs (λ b h. omega (arith, h)) (facts.grouped 0)

  too_small : (i : ℕ) → i < min_cardinality bs → select (completes bs []) (combos i pool) ≡ []
  too_small i h = refused bs pool i (λ s part full.
      omega (arith, h, part.0, deficits-counted bs s full, counted-le bs s facts.keyed))

  too_large :
      (i : ℕ)
      → suc (max_cardinality pool bs (index_budgets bs [])) ≤ i
      → select (completes bs []) (combos i pool) ≡ []
  too_large i h = refused bs pool i (λ s part full. omega (
    arith,
    h,
    part.0,
    length-counted bs (index_budgets bs []) facts.keyed (λ t. indexed bs t facts.keyed) s,
    counted-room bs s pool full (Part-held i pool s part) at_start,
    part.1 (λ c. one (is_unconstrained (index_budgets bs []) c)),
    length-select (is_unconstrained (index_budgets bs [])) pool,
  ))

  beyond : (i : ℕ) → suc (length pool) ≤ i → select (completes bs []) (combos i pool) ≡ []
  beyond i h = rw (combos-short i pool (omega (arith, h)))

  sizes-completes :
      over
        (λ i. select (completes bs []) (combos i pool))
        (min_cardinality bs)
        (suc (max_cardinality pool bs (index_budgets bs [])) - min_cardinality bs)
      ≡ select (completes bs []) (subsets pool)
  sizes-completes =
      over-window (λ i. select (completes bs []) (combos i pool)) (min_cardinality bs)
        (suc (max_cardinality pool bs (index_budgets bs []))) (suc (length pool)) too_small
        too_large beyond
      ∙ sym (select-over (completes bs []) (λ i. combos i pool) 0 (suc (length pool)))

sizes_from-over :
    (rounds size : ℕ) (pool : List ScoredCandidate) (bs : List CategoryBudget)
    (constrained : Table Text CategoryBudget)
    → sizes_from rounds size pool bs constrained
      ≡ over (λ i. subsets_of_size pool i bs constrained) size rounds
unfolding sizes_from over
sizes_from-over zero size pool bs constrained = refl
sizes_from-over (suc rounds) size pool bs constrained =
    ap (λ xs. subsets_of_size pool size bs constrained ++ xs)
      (sizes_from-over rounds (suc size) pool bs constrained)

select-subsets :
    (p q : List ScoredCandidate → Bool) (pool : List ScoredCandidate)
    → ((s : List ScoredCandidate) → ((t : Text) → held t s ≤ held t pool) → p s ≡ q s)
    → select p (subsets pool) ≡ select q (subsets pool)
select-subsets p q pool same =
    select-over p (λ i. combos i pool) 0 (suc (length pool))
    ∙ over_cong (λ i. select p (combos i pool)) (λ i. select q (combos i pool)) 0
        (suc (length pool))
        (λ i. select_cong_All p q (combos i pool) (
          All-map (combos i pool) (λ s part. same s (Part-held i pool s part))
            (combos-weigh i pool)))
    ∙ sym (select-over q (λ i. combos i pool) 0 (suc (length pool)))

select_none {ℓ} : {A : Type ℓ} (xs : List A) → select (λ _. false) xs ≡ []
select_none [] = refl
select_none (x ∷ xs) = select_none xs

-- For a pool in the rescue order and constraints of different categories, the enumeration yields
-- exactly the subsets of the pool that keep, together with the required candidates, every
-- constraint's minimum and maximum: by size, then in lexicographic order, and none where the
-- constraints cannot be kept. Neither the bounds on the size nor the pruned search nor the early
-- return loses a valid selection.
pub policy_valid_optional_selections-eq-subsets :
    (pool required : List ScoredCandidate) (constraints : List CategoryConstraint)
    → IsSorted compare_rescue_order pool
    → IsKeyed (constraint_pairs constraints)
    → policy_valid_optional_selections pool required constraints
      ≡ select (keeps constraints required) (subsets pool)
unfolding policy_valid_optional_selections
policy_valid_optional_selections-eq-subsets pool required constraints sorted distinct =
    elim (Option-cases (category_budgets pool required constraints)) [
      | inl stopped ↦
          rw (policy_valid_optional_selections, stopped)
            (sym (
              select-subsets (keeps constraints required) (λ _. false) pool
                (λ s few. none-keeps pool required constraints s stopped few)
              ∙ select_none (subsets pool)))
      | inr (bs, resolved) ↦
          let facts =
            category_budgets-IsBudgeted pool required constraints bs sorted distinct resolved in
          rw (policy_valid_optional_selections, resolved)
            (sizes_from-over
                (suc (max_cardinality pool bs (index_budgets bs [])) - min_cardinality bs)
                (min_cardinality bs) pool bs (index_budgets bs [])
              ∙ over_cong _ _ (min_cardinality bs)
                  (suc (max_cardinality pool bs (index_budgets bs [])) - min_cardinality bs)
                  (λ i.
                    subsets_of_size-eq-combos pool required constraints bs i sorted distinct
                      resolved)
              ∙ sizes-completes bs pool constraints facts
              ∙ select-subsets (completes bs []) (keeps constraints required) pool
                  (λ s few. completes-keeps pool required constraints bs s resolved few))
    ]
