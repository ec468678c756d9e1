-- ===== src/Correction/Bases.antt =====
-- The hard bases that `#categoryDeficits` and `cartesian` of packages/compiler/src/context-compiler.ts
-- make up are parts of the optional candidates, with what the minimums ask for.
use ctxalloc.Shared.{
  ℕ, ◌-◌, ◌≤◌, ◌≡◌, refl, subst, or_zero, none, inl, inr, List, [], ◌∷◌, map, arith, tests,
  Bool-cases, Option-cases, ltb, ◌==◌, length, weigh, weigh-append, ◌<◌, All-under, All, All-map,
  All-append, Text, Table, text_key, IsKeyed,
}
use ctxalloc.Shared.Outcome.{Ends, Ends-map, after-Ends}
use ctxalloc.Candidates.{ScoredCandidate}
use ctxalloc.Allocation.Policy.{CategoryConstraint}
use ctxalloc.Compiler.Reference.{held}
use ctxalloc.Compiler.Budgets.{members_of}
use ctxalloc.Compiler.Enumerate.{cartesian}
use ctxalloc.Compiler.Grouping.{constraint_pairs}
use ctxalloc.Correction.Bounded.{owed}
use ctxalloc.Correction.Measure.{CorrectionFailure, unreachable_minimum}
use ctxalloc.Correction.Deficits.{
  minimum_of, minimum_categories, CategoryDeficit, preferred, category_deficit, deficits_of,
  category_deficits,
}
use ctxalloc.Correction.Fallback.{flat}
use ctxalloc.Correction.Keys.{IsOf}
use ctxalloc.Correction.Spans.{
  IsPart, of_category, preferred-parts, owed_at, HasParts, cartesian-Spans,
}
use ctxalloc.Correction.Distinct.{
  categories-le, minimum_categories-AreDistinct, minimum_categories-owed,
}

-- A part that gives every category what is owed, and no other candidate.
abbrev pub IsBase :
    Table Text ScoredCandidate
    → List ScoredCandidate
    → List ScoredCandidate
    → List CategoryConstraint
    → List ScoredCandidate
    → Type 0
IsBase known required optional constraints p =
    IsPart known optional p × ((u : Text) → held u p ≡ owed constraints required u)

module _ (known : Table Text ScoredCandidate) (required optional : List ScoredCandidate)
    (of_known : IsOf known optional) (R : List CorrectionFailure → Type 0)
    (short : (t : Text) (k n : ℕ) → n < k → R (unreachable_minimum t k n ∷ [])) where
  free-owed :
      (constraints : List CategoryConstraint) (t : Text)
      → minimum_of t constraints ≡ none
      → owed constraints required t ≡ 0
  free-owed constraints t free = ground (arith, free)

  -- The deficits have parts of their categories with what is owed, and are of some of the
  -- categories, in turn: of all those to which something is owed.
  abbrev pub AreDeficits : List CategoryConstraint → List Text → List CategoryDeficit → Type 0
  AreDeficits constraints ts ds =
      HasParts known optional (owed constraints required) ds
      × ((g : Text → ℕ) → weigh (λ d. g d.category) ds ≤ weigh g ts)
      × ((g : Text → ℕ)
          → ((t : Text) → owed constraints required t ≡ 0 → g t ≡ 0)
          → weigh (λ d. g d.category) ds ≡ weigh g ts)

  category_deficit-Ends :
      (constraints : List CategoryConstraint) (t : Text)
      → Ends
          (AreDeficits constraints (t ∷ []))
          R
          (category_deficit t (owed constraints required t) (preferred t optional))
  unfolding category_deficit
  category_deficit-Ends constraints t =
      let k = owed constraints required t in
      elim (Bool-cases (k == 0)) [
        | inl met ↦
            rw (category_deficit, met)
              (tt, (λ g. omega arith), λ g h. omega (arith, h t (ground (arith, met))))
        | inr unmet ↦ elim (Bool-cases (ltb (length (preferred t optional)) k)) [
          | inl few ↦
              rw (category_deficit, unmet, few)
                (short t k (length (preferred t optional)) (omega (tests, few)))
          | inr enough ↦
              rw (category_deficit, unmet, enough)
                ((preferred-parts known t k optional of_known, tt), (λ g. omega arith), λ g h. refl)
        ]
      ]

  deficits_of-Ends :
      (constraints : List CategoryConstraint) (ts : List Text)
      → Ends (AreDeficits constraints ts) R (deficits_of constraints required optional ts)
  unfolding deficits_of
  deficits_of-Ends constraints [] = (tt, (λ g. omega arith), λ g h. refl)
  deficits_of-Ends constraints (t ∷ ts) = elim (Option-cases (minimum_of t constraints)) [
    | inl free ↦
        rw (deficits_of, free)
          (Ends-map (AreDeficits constraints ts) (AreDeficits constraints (t ∷ ts)) R
            (deficits_of constraints required optional ts)
            (λ ds h. (
              h.0,
              (λ g. omega (arith, h.1 g)),
              λ g none_owed.
                  omega (arith, h.2 g none_owed, none_owed t (free-owed constraints t free)),
            ))
            (deficits_of-Ends constraints ts))
    | inr (least, found) ↦
        rw (deficits_of, found)
          (after-Ends (AreDeficits constraints (t ∷ [])) (AreDeficits constraints (t ∷ ts)) R
            (category_deficit t (least - members_of t required) (preferred t optional)) _
            (subst
              (λ o.
                Ends (AreDeficits constraints (t ∷ [])) R
                  (category_deficit t (or_zero o - members_of t required) (preferred t optional)))
              found (category_deficit-Ends constraints t))
            (λ here h.
              after-Ends (AreDeficits constraints ts) (AreDeficits constraints (t ∷ ts)) R
                (deficits_of constraints required optional ts) _ (deficits_of-Ends constraints ts)
                (λ others k. (
                  All-append _ here others h.0 k.0,
                  (λ g. omega (
                    arith,
                    weigh-append (λ (d : CategoryDeficit). g d.category) here others,
                    h.1 g,
                    k.1 g,
                  )),
                  λ g none_owed. omega (
                    arith,
                    weigh-append (λ (d : CategoryDeficit). g d.category) here others,
                    h.2 g none_owed,
                    k.2 g none_owed,
                  ),
                ))))
  ]

  -- Each hard base is a part of the optional candidates, with what is owed and no more.
  pub category_deficits-Ends :
      (constraints : List CategoryConstraint)
      → IsKeyed (constraint_pairs constraints)
      → Ends
          (λ ds.
            All
              (IsBase known required optional constraints)
              (map flat (cartesian (map (λ d. d.combinations) ds))))
          R
          (category_deficits constraints required optional)
  unfolding category_deficits
  category_deficits-Ends constraints keyed =
      let ts = minimum_categories constraints in
      Ends-map (AreDeficits constraints ts) _ R (deficits_of constraints required optional ts)
        (λ ds h. All-under _ flat (cartesian (map (λ d. d.combinations) ds)) (
          All-map (cartesian (map (λ d. d.combinations) ds))
            (λ picks spans. (
              (
                (λ f. omega (
                  arith,
                  spans.0 f,
                  h.1 (λ t. weigh f (of_category t optional)),
                  categories-le ts f optional (minimum_categories-AreDistinct constraints keyed),
                )),
                spans.1,
              ),
              λ u. omega (
                arith,
                spans.2 u,
                h.2 (owed_at (owed constraints required) u)
                    (λ t zero_owed. ground (arith, zero_owed)),
                minimum_categories-owed constraints (owed constraints required) u keyed
                    (free-owed constraints u),
              ),
            ))
            (cartesian-Spans known optional (owed constraints required) ds h.0)))
        (deficits_of-Ends constraints ts)
