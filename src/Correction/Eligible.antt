-- ===== src/Correction/Eligible.antt =====
-- The selections that the fallback of packages/compiler/src/context-compiler.ts makes of the eligible
-- candidates: the required ones and a part of the others.
use ctxalloc.Shared.{
  All-selected, ℕ, zero, suc, ◌≤◌, ◌≡◌, refl, not, none, List, [], ◌∷◌, ◌++◌, arith, select, count,
  one, weigh, weigh-append, weigh-partition, length, sort, sort-SameItems, sort-All, sort-IsSorted,
  IsComparator, IsComparator-orelse, IsComparator-by_text, IsComparator-ascending, All, All-map,
  All-both, All-append, Text, text_eq, text_eq_refl, text_eq_iff, compare, compare_code_units, get,
  text_key, IsKeyed,
}
use ctxalloc.Candidates.{ScoredCandidate, id_of, category_of, required_of}
use ctxalloc.Allocation.Policy.{CategoryConstraint}
use ctxalloc.Compiler.Reference.{combos, combos-weigh}
use ctxalloc.Compiler.Budgets.{presence, or_empty, compare_rescue_order}
use ctxalloc.Compiler.Enumerate.{policy_valid_optional_selections}
use ctxalloc.Compiler.Over.{over}
use ctxalloc.Compiler.Valid.{keeps}
use ctxalloc.Compiler.Grouping.{constraint_pairs}
use ctxalloc.Compiler.Sizes.{subsets, policy_valid_optional_selections-eq-subsets}
use ctxalloc.Correction.Keys.{by_ids, IsOf, IsUnique}
use ctxalloc.Correction.Spans.{IsPart, combos-All}
use ctxalloc.Correction.Visits.{IsSelection}

abbrev pub required_among : List ScoredCandidate → List ScoredCandidate
required_among eligible = select required_of eligible

abbrev pub optional_among : List ScoredCandidate → List ScoredCandidate
optional_among eligible = select (λ c. not (required_of c)) eligible

pub by_ids-IsOf : (cs : List ScoredCandidate) → IsKeyed (by_ids cs) → IsOf (by_ids cs) cs
unfolding get
by_ids-IsOf [] k = tt
by_ids-IsOf (c ∷ cs) k = (
  ground (arith, text_eq_refl (id_of c)),
  All-map cs (λ d known. ground (arith, known, text_eq_iff (id_of c) (id_of d), k.0))
      (by_ids-IsOf cs k.1),
)

absent_unique :
    (cs : List ScoredCandidate) (t : Text)
    → get t (by_ids cs) ≡ none
    → count (λ c. text_eq (id_of c) t) cs ≡ 0
unfolding get
absent_unique [] t h = refl
absent_unique (c ∷ cs) t h = ground (arith, absent_unique cs t)

pub by_ids-IsUnique : (cs : List ScoredCandidate) → IsKeyed (by_ids cs) → IsUnique cs
by_ids-IsUnique [] k t = omega arith
by_ids-IsUnique (c ∷ cs) k t = ground (
  arith,
  text_eq_iff (id_of c) t,
  k.0,
  absent_unique cs t,
  absent_unique cs (id_of c),
  by_ids-IsUnique cs k.1 t,
)

compare_rescue_order-IsComparator : IsComparator compare_rescue_order
unfolding compare_rescue_order
compare_rescue_order-IsComparator =
    IsComparator-orelse (λ a b. compare (presence (category_of a)) (presence (category_of b))) _
      (IsComparator-ascending (λ (c : ScoredCandidate). presence (category_of c)))
      (IsComparator-orelse
        (λ a b. compare_code_units (or_empty (category_of a)) (or_empty (category_of b))) _
        (IsComparator-by_text (λ (c : ScoredCandidate). or_empty (category_of c)))
        (IsComparator-by_text id_of))

over-All {ℓ κ} :
    {A : Type ℓ} (P : A → Type κ) (f : ℕ → List A) (from rounds : ℕ)
    → ((i : ℕ) → All P (f i))
    → All P (over f from rounds)
unfolding over
over-All P f from zero h = tt
over-All P f from (suc rounds) h =
    All-append P (f from) (over f (suc from) rounds) (h from) (over-All P f (suc from) rounds h)

module _ (eligible : List ScoredCandidate) (keyed : IsKeyed (by_ids eligible)) where
  -- The required candidates with a part of the others are a selection.
  pub part-IsSelection :
      (picks : List ScoredCandidate)
      → IsPart (by_ids eligible) (optional_among eligible) picks
      → IsSelection (by_ids eligible) (required_among eligible ++ picks)
  part-IsSelection picks part = (
    All-append _ (required_among eligible) picks
        (All-selected _ required_of eligible (by_ids-IsOf eligible keyed)) part.1,
    λ t. omega (
      arith,
      by_ids-IsUnique eligible keyed t,
      weigh-append (λ c. one (text_eq (id_of c) t)) (required_among eligible) picks,
      part.0 (λ c. one (text_eq (id_of c) t)),
      weigh-partition (λ c. one (text_eq (id_of c) t)) required_of eligible,
    ),
  )

  pub optional-IsOf : IsOf (by_ids eligible) (optional_among eligible)
  optional-IsOf = All-selected _ (λ c. not (required_of c)) eligible (by_ids-IsOf eligible keyed)

  -- The optional candidates in the rescue order.
  abbrev pub rescue_pool : List ScoredCandidate
  rescue_pool = sort compare_rescue_order (optional_among eligible)

  -- The parts that keep every constraint together with the required candidates.
  abbrev pub valid_parts : List CategoryConstraint → List (List ScoredCandidate)
  valid_parts constraints =
      select (keeps constraints (required_among eligible)) (subsets rescue_pool)

  pub rescue-valid_parts :
      (constraints : List CategoryConstraint)
      → IsKeyed (constraint_pairs constraints)
      → policy_valid_optional_selections rescue_pool (required_among eligible) constraints
        ≡ valid_parts constraints
  rescue-valid_parts constraints distinct =
      policy_valid_optional_selections-eq-subsets rescue_pool (required_among eligible) constraints
        (sort-IsSorted compare_rescue_order compare_rescue_order-IsComparator
          (optional_among eligible))
        distinct

  pub valid_parts-IsPart :
      (constraints : List CategoryConstraint)
      → All (IsPart (by_ids eligible) (optional_among eligible)) (valid_parts constraints)
  valid_parts-IsPart constraints =
      All-selected _ (keeps constraints (required_among eligible)) (subsets rescue_pool) (
        over-All _ (λ i. combos i rescue_pool) 0 (suc (length rescue_pool))
          (λ i.
            All-both
              (λ s. (f : ScoredCandidate → ℕ) → weigh f s ≤ weigh f (optional_among eligible))
              (IsOf (by_ids eligible)) (combos i rescue_pool)
              (All-map (combos i rescue_pool)
                (λ s part f. omega (
                  arith,
                  part.1 f,
                  sort-SameItems compare_rescue_order (optional_among eligible) f,
                ))
                (combos-weigh i rescue_pool))
              (combos-All _ i rescue_pool
                (sort-All compare_rescue_order _ (optional_among eligible) optional-IsOf))))
