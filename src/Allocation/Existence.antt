-- ===== src/Allocation/Existence.antt =====
-- When `BudgetAllocator.allocate` of packages/compiler/src/budget-allocator.ts returns a result.
use ctxalloc.Shared.{
  ℕ, ◌+◌, ◌-◌, ◌≤◌, ◌≡◌, ◌↔◌, refl, inl, inr, true, List, [], ◌∷◌, arith, le→ltb, Option-cases,
  Text, sort, sort-SameItems, length, weigh, weigh-append, get, text_key,
}
use ctxalloc.Domain.TokenBudget.{TokenBudget, reserves_fit_total, available_input_tokens}
use ctxalloc.Candidates.{ScoredCandidateSet, tokens_of}
use ctxalloc.Allocation.Issue.{Result, ok}
use ctxalloc.Allocation.Policy.{Policy, Allocator, construct, constrained_categories}
use ctxalloc.Allocation.State.{
  AllocationCandidate, compare_required, compare_score_order, State, start, include,
  included_required, included_category_minimum,
}
use ctxalloc.Allocation.Passes.{
  count_of, maximum_issues, minimum_issues, detect_count_failures, allocate_required, reserve,
  allocate_optional,
}
use ctxalloc.Allocation.Allocate.{
  required_views, optional_views, unreserved, run_passes, assemble, allocate,
}
use ctxalloc.Allocation.Reconcile.{Allocated}
use ctxalloc.Allocation.Covered.{constrained_categories-count}
use ctxalloc.Allocation.Run.{union_of}
use ctxalloc.Allocation.SelfCheck.{allocate-eq-passes}
use ctxalloc.Allocation.Selection.{
  Selection, weigh-chosen_required, weigh-both, required-le, needed-le,
}
use ctxalloc.Allocation.Complete.{cost, picks-cheapest}
use ctxalloc.Allocation.Guarantees.{
  included_candidates, excluded_candidates, allocate-decides_once, allocate-within_budget,
  allocate-keeps_required, allocate-respects_max, allocate-respects_min,
}

-- A pass that includes all of its candidates, and what it leaves.
record Fits {A : Type 0} (m : Result A) (left : A → ℕ) (spent before : ℕ) : Type 0 where
  value : A
  returned : m ≡ ok value
  balance : left value + spent ≡ before

remaining_after :
    (e : AllocationCandidate) (s : State)
    → ((include e included_required s).remaining ≡ s.remaining - cost e)
      × ((include e included_category_minimum s).remaining ≡ s.remaining - cost e)
unfolding include
remaining_after e s = (refl, refl)

allocate_required-Fits :
    (available : ℕ) (es : List AllocationCandidate) (s : State)
    → weigh cost es ≤ s.remaining
    → Fits (allocate_required available es s) (λ t. t.remaining) (weigh cost es) s.remaining
unfolding allocate_required
allocate_required-Fits available [] s h = record {
  value = s;
  returned = refl;
  balance = omega arith;
}
allocate_required-Fits available (e ∷ es) s h =
    let step = remaining_after e s in
    let rest = allocate_required-Fits available es (include e included_required s) (omega arith) in
    rw (le→ltb s.remaining (tokens_of e.scored) (omega arith)) (record {
      value = rest.value;
      returned = rest.returned;
      balance = omega (arith, rest.balance, step.0);
    })

reserve-Fits :
    (available needs : ℕ) (es : List AllocationCandidate) (s : State) (hs : List ℕ)
    → weigh cost es ≤ s.remaining
    → Fits (reserve available needs es s hs) (λ r. r.0.remaining) (weigh cost es) s.remaining
unfolding reserve
reserve-Fits available needs [] s hs h = record {
  value = (s, hs);
  returned = refl;
  balance = omega arith;
}
reserve-Fits available needs (e ∷ es) s hs h =
    let step = remaining_after e s in
    let rest =
      reserve-Fits available needs es (include e included_category_minimum s) (e.handle ∷ hs)
        (omega arith) in
    rw (le→ltb s.remaining (tokens_of e.scored) (omega arith)) (record {
      value = rest.value;
      returned = rest.returned;
      balance = omega (arith, rest.balance, step.1);
    })

module _ {a : Allocator} {input : ScoredCandidateSet} {available : ℕ}
    (s : Selection a input available) where
  no_maximum_issue :
      (c : Text) → maximum_issues a (required_views input) (optional_views input) c ≡ []
  unfolding maximum_issues
  no_maximum_issue c = elim (Option-cases (get c a.max_blocks)) [
    | inl free ↦ rw (free, maximum_issues)
    | inr (n, bound) ↦
        rw (bound, maximum_issues)
          (rw (le→ltb n (count_of c (required_views input)) (required-le s c n bound)))
  ]

  no_minimum_issue :
      (c : Text) → minimum_issues a (required_views input) (optional_views input) c ≡ []
  unfolding minimum_issues
  no_minimum_issue c = elim (Option-cases (get c a.min_blocks)) [
    | inl free ↦ rw (free, minimum_issues)
    | inr (m, least) ↦
        rw (least, minimum_issues)
          (rw (le→ltb (count_of c (optional_views input)) _ (needed-le s c m least)))
  ]

  no_count_failures :
      (cs : List Text)
      → detect_count_failures a (required_views input) (optional_views input) cs ≡ []
  unfolding detect_count_failures
  no_count_failures [] = refl
  no_count_failures (c ∷ cs) = rw (no_maximum_issue c, no_minimum_issue c, no_count_failures cs)

  -- The required blocks and the picks are affordable.
  all_needed :
      weigh cost (sort compare_required (required_views input)) + weigh cost (union_of a input)
      ≤ available
  all_needed = omega (
    arith,
    sort-SameItems compare_required (required_views input) cost,
    weigh-chosen_required s tokens_of,
    picks-cheapest s (constrained_categories a) (constrained_categories-count a),
    weigh-both tokens_of s.chosen,
    s.affordable,
  )

  passes_succeed : (t : State) × (run_passes a input available ≡ ok t)
  unfolding run_passes
  passes_succeed =
      let first =
        allocate_required-Fits available (sort compare_required (required_views input))
          (start available) (omega (arith, all_needed)) in
      let second =
        reserve-Fits available (length (union_of a input)) (union_of a input) first.value []
          (omega (arith, all_needed, first.balance)) in
      (
        allocate_optional a
            (sort compare_score_order (unreserved second.value.1 (optional_views input)))
            second.value.0,
        rw (no_count_failures (constrained_categories a), first.returned, second.returned) refl,
      )

-- What a result includes is a selection.
included-Selection :
    (p : Policy) {a : Allocator} (input : ScoredCandidateSet) (budget : TokenBudget) (r : Allocated)
    → construct p ≡ ok a
    → allocate a input budget ≡ ok r
    → Selection a input (available_input_tokens budget)
included-Selection p {a} input budget r built h =
    let cost = allocate-within_budget a input budget h in
    record {
      chosen = included_candidates r;
      unchosen = excluded_candidates r;
      splits = λ f. omega (
        arith,
        weigh-append f (included_candidates r) (excluded_candidates r),
        allocate-decides_once a input budget h f,
      );
      all_required = (allocate-keeps_required a input budget h).1;
      minimums = λ c m least. allocate-respects_min a input budget h c m least;
      maximums = λ c n bound. allocate-respects_max p a input budget built h c n bound;
      affordable = omega (arith, cost.0, cost.2);
    }

-- For an allocator that its constructor returned and an accepted budget, `allocate` returns a
-- result exactly when some part of the batch holds every required candidate, keeps the minimum and
-- the maximum of every category, and costs no more than the available tokens.
pub allocate_iff_Selection :
    (p : Policy) (a : Allocator) (input : ScoredCandidateSet) (budget : TokenBudget)
    → construct p ≡ ok a
    → reserves_fit_total budget ≡ true
    → Selection a input (available_input_tokens budget)
      ↔ ((r : Allocated) × (allocate a input budget ≡ ok r))
allocate_iff_Selection p a input budget built fits = (
  λ s.
      let (t, ran) = passes_succeed s in
      (assemble a input budget t, rw (allocate-eq-passes a input budget fits, ran) refl),
  λ (r, h). included-Selection p input budget r built h,
)
