-- ===== src/Allocation/Complete.antt =====
-- `BudgetAllocator.allocate` of packages/compiler/src/budget-allocator.ts finds a selection whenever
-- there is one: the picks for the minimums are the cheapest that there are.
use ctxalloc.Shared.{
  ℕ, ◌+◌, ◌≤◌, ◌≡◌, refl, ap, inl, inr, Bool, true, false, some, List, [], ◌∷◌, arith, compare,
  in_order, if◌then◌else◌, Option-cases, Text, text_eq, sort, sort-SameItems, sort-IsSorted,
  IsSorted, IsComparator, IsComparator-orelse, IsComparator-ascending, IsComparator-descending,
  IsComparator-by_text, select, weigh, count, one, All-map, weigh-append, weigh-select, weigh_cong,
  weigh_add, SameItems-length, get, text_key,
}
use ctxalloc.Candidates.{
  ScoredCandidate, ScoredCandidateSet, id_of, tokens_of, total_of, required_of, category_of,
}
use ctxalloc.Allocation.Policy.{Allocator}
use ctxalloc.Allocation.State.{AllocationCandidate, in_category, compare_minimum_cost}
use ctxalloc.Allocation.Passes.{of_category, count_of, needed, picks_of, picks}
use ctxalloc.Allocation.Allocate.{required_views, optional_views}
use ctxalloc.Allocation.Covered.{in_any, uncovered-cons, uncovered-nil, apart}
use ctxalloc.Allocation.Cheapest.{Ascending, take_cheapest}
use ctxalloc.Allocation.Selection.{
  Selection, on_optional, in_cat, weigh-optional_views, needed-chosen, needed-le,
}

abbrev pub cost : AllocationCandidate → ℕ
cost e = tokens_of e.scored

-- The order of the minimum picks is lawful, and cost comes first in it.
compare_minimum_cost-IsComparator : IsComparator compare_minimum_cost
unfolding compare_minimum_cost
compare_minimum_cost-IsComparator =
    IsComparator-orelse (λ x y. compare (tokens_of x.scored) (tokens_of y.scored)) _
      (IsComparator-ascending (λ x. tokens_of x.scored))
      (IsComparator-orelse (λ x y. compare (total_of y.scored) (total_of x.scored)) _
        (IsComparator-descending (λ x. total_of x.scored))
        (IsComparator-by_text (λ x. id_of x.scored)))

cost_first :
    (x y : AllocationCandidate) → in_order (compare_minimum_cost x y) ≡ true → cost x ≤ cost y
unfolding compare_minimum_cost
cost_first x y h = ground arith

IsSorted→Ascending :
    (es : List AllocationCandidate) → IsSorted compare_minimum_cost es → Ascending cost es
IsSorted→Ascending [] h = tt
IsSorted→Ascending (x ∷ xs) h = (All-map xs (λ y. cost_first x y) h.0, IsSorted→Ascending xs h.1)

-- An optional candidate of one category.
abbrev optional_in : Text → ScoredCandidate → Bool
optional_in c x = if required_of x then false else in_category c (category_of x)

masked :
    (r i : Bool) (n : ℕ)
    → (if r then 0 else (if i then n else 0)) ≡ (if (if r then false else i) then n else 0)
masked true i n = refl
masked false i n = refl

as_one : (i : Bool) → one i ≡ (if i then 1 else 0)
as_one true = refl
as_one false = refl

module _ {a : Allocator} {input : ScoredCandidateSet} {available : ℕ}
    (s : Selection a input available) where
  -- The chosen optional candidates of a category are among those of the batch.
  chosen_among :
      (c : Text) (g : ℕ → ℕ)
      → weigh (λ x. if optional_in c x then g (tokens_of x) else 0) s.chosen
        ≤ weigh
            (λ e. g (cost e))
            (sort compare_minimum_cost (select (of_category c) (optional_views input)))
  chosen_among c g =
      let f =
        λ (x : ScoredCandidate). if in_category c (category_of x) then g (tokens_of x) else 0 in
      omega (
        arith,
        sort-SameItems compare_minimum_cost (select (of_category c) (optional_views input))
            (λ e. g (tokens_of e.scored)),
        weigh-select (λ e. g (tokens_of e.scored)) (of_category c) (optional_views input),
        weigh-optional_views f input,
        s.splits (on_optional f),
        weigh_cong (on_optional f) (λ x. if optional_in c x then g (tokens_of x) else 0) s.chosen
            (λ x. masked (required_of x) (in_category c (category_of x)) (g (tokens_of x))),
      )

  chosen_enough :
      (c : Text) (m : ℕ)
      → get c a.min_blocks ≡ some m
      → needed m (count_of c (required_views input))
        ≤ weigh (λ x. if optional_in c x then 1 else 0) s.chosen
  chosen_enough c m least = omega (
    arith,
    needed-chosen s c m least,
    weigh_cong (on_optional (in_cat c)) (λ x. if optional_in c x then 1 else 0) s.chosen
        (λ x. one_masked (required_of x) (in_category c (category_of x))),
  )
    where
      one_masked :
          (r i : Bool) → (if r then 0 else one i) ≡ (if (if r then false else i) then 1 else 0)
      one_masked true i = refl
      one_masked false i = as_one i

  -- The picks of one category cost no more than what the selection takes of it.
  picks_of-cheapest :
      (c : Text)
      → weigh cost (picks_of a (required_views input) (optional_views input) c)
        ≤ weigh (λ x. if optional_in c x then tokens_of x else 0) s.chosen
  unfolding picks_of
  picks_of-cheapest c = elim (Option-cases (get c a.min_blocks)) [
    | inl free ↦ rw (free, picks_of) (omega arith)
    | inr (m, least) ↦
        rw (least, picks_of)
          (take_cheapest cost tokens_of (optional_in c) s.chosen
            (needed m (count_of c (required_views input)))
            (sort compare_minimum_cost (select (of_category c) (optional_views input)))
            (IsSorted→Ascending _
              (sort-IsSorted compare_minimum_cost compare_minimum_cost-IsComparator _))
            (chosen_among c)
            (omega (
              arith,
              needed-le s c m least,
              SameItems-length _ _ (
                  sort-SameItems compare_minimum_cost
                    (select (of_category c) (optional_views input))),
            ))
            (chosen_enough c m least))
  ]

  -- So do all the picks together, since no candidate is of two categories.
  pub picks-cheapest :
      (cs : List Text)
      → ((t : Text) → count (text_eq t) cs ≤ 1)
      → weigh cost (picks a (required_views input) (optional_views input) cs)
          + weigh (on_optional (λ x. if in_any cs (category_of x) then 0 else tokens_of x)) s.chosen
        ≤ weigh (on_optional tokens_of) s.chosen
  unfolding picks
  picks-cheapest [] once = omega (
    arith,
    weigh_cong (on_optional (λ x. if in_any [] (category_of x) then 0 else tokens_of x))
        (on_optional tokens_of) s.chosen
        (λ x.
          ap (λ n. if required_of x then 0 else n) (uncovered-nil (category_of x) (tokens_of x))),
  )
  picks-cheapest (c ∷ cs) once = omega (
    arith,
    weigh-append cost (picks_of a (required_views input) (optional_views input) c)
        (picks a (required_views input) (optional_views input) cs),
    picks_of-cheapest c,
    picks-cheapest cs (λ t. omega (arith, once t)),
    weigh_cong (on_optional (λ x. if in_any cs (category_of x) then 0 else tokens_of x))
        (λ x.
          on_optional (λ x. if in_any (c ∷ cs) (category_of x) then 0 else tokens_of x) x
          + (if optional_in c x then tokens_of x else 0))
        s.chosen
        (λ x.
          by_requirement _ _ (required_of x) (in_category c (category_of x)) (tokens_of x)
            (uncovered-cons c cs (category_of x) (tokens_of x) (apart c cs once))),
    weigh_add (on_optional (λ x. if in_any (c ∷ cs) (category_of x) then 0 else tokens_of x))
        (λ x. if optional_in c x then tokens_of x else 0) s.chosen,
  )
    where
      by_requirement :
          (u v : ℕ) (r i : Bool) (n : ℕ)
          → u ≡ v + (if i then n else 0)
          → (if r then 0 else u)
            ≡ (if r then 0 else v) + (if (if r then false else i) then n else 0)
      by_requirement u v true i n h = omega arith
      by_requirement u v false i n h = h
