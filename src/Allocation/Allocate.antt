-- ===== src/Allocation/Allocate.antt =====
-- `BudgetAllocator.allocate` of packages/compiler/src/budget-allocator.ts.
use ctxalloc.Shared.{
  ℕ, ◌-◌, Bool, true, false, not, List, [], ◌∷◌, map, if◌then◌else◌, length, select, sort,
  compare_code_units,
}
use ctxalloc.Domain.ContextBlock.{SourceDocument}
use ctxalloc.Domain.TokenBudget.{TokenBudget, reserves_fit_total, available_input_tokens}
use ctxalloc.Candidates.{ScoredCandidate, ScoredCandidateSet, id_of, required_of}
use ctxalloc.Allocation.Issue.{Issue, invalid_budget, Result, ok, err, ◌>>=◌, ◌>>◌}
use ctxalloc.Allocation.Policy.{Allocator, constrained_categories}
use ctxalloc.Allocation.State.{
  AllocationCandidate, views_from, compare_traversal, compare_required, compare_score_order,
  compare_eviction, included_required, Included, State, start,
}
use ctxalloc.Allocation.Passes.{
  detect_count_failures, picks, allocate_required, reserve, has, allocate_optional, evict,
}
use ctxalloc.Allocation.Reconcile.{Allocated, reconcile}

-- The candidates as the run sees them: in traversal order, each with its view.
unfoldable pub views : ScoredCandidateSet → List AllocationCandidate
views input = views_from 0 (sort compare_traversal input.candidates)

abbrev pub is_required_view : AllocationCandidate → Bool
is_required_view e = required_of e.scored

abbrev pub required_views : ScoredCandidateSet → List AllocationCandidate
required_views input = select is_required_view (views input)

abbrev pub optional_views : ScoredCandidateSet → List AllocationCandidate
optional_views input = select (λ e. not (is_required_view e)) (views input)

-- The optional candidates that no minimum reserved.
abbrev pub unreserved : List ℕ → List AllocationCandidate → List AllocationCandidate
unreserved reserved optional = select (λ e. not (has reserved e)) optional

abbrev pub is_optional_inclusion : Included → Bool
is_optional_inclusion d = elim d.reason [ included_required ↦ false | _ ↦ true ]

unfoldable pub eviction_order : Allocator → State → List ScoredCandidate
eviction_order a s =
    evict a
      (sort compare_eviction (map (λ d. d.candidate) (select is_optional_inclusion s.included)))
      s.selected_by_category

-- A failed list of issues, or nothing.
abbrev pub raise_any : List Issue → Result (Unit {0})
raise_any [] = ok tt
raise_any (i ∷ is) = err (i ∷ is)

-- The three passes, from the state in which nothing is decided.
unfoldable pub run_passes : Allocator → ScoredCandidateSet → ℕ → Result State
run_passes a input available = do
  raise_any (
      detect_count_failures a (required_views input) (optional_views input)
        (constrained_categories a))
  s ← allocate_required available (sort compare_required (required_views input)) (start available)
  let union = picks a (required_views input) (optional_views input) (constrained_categories a)
  reservation ← reserve available (length union) union s []
  ok (
      allocate_optional a
        (sort compare_score_order (unreserved reservation.1 (optional_views input))) reservation.0)

unfoldable pub assemble : Allocator → ScoredCandidateSet → TokenBudget → State → Allocated
assemble a input budget s = record {
  scope = input.scope;
  source_documents =
      sort (λ (x y : SourceDocument). compare_code_units x.id y.id) input.source_documents;
  scoring_policy_id = input.policy_id;
  scoring_policy_version = input.policy_version;
  allocation_policy_id = a.policy.policy_id;
  allocation_policy_version = a.policy.policy_version;
  reference_time = input.reference_time;
  token_budget = budget;
  available_input_tokens = available_input_tokens budget;
  selected_block_content_tokens = available_input_tokens budget - s.remaining;
  unallocated_block_content_tokens = s.remaining;
  included = s.included;
  excluded = s.excluded;
  optional_eviction_order = map id_of (eviction_order a s);
}

unfoldable pub allocate : Allocator → ScoredCandidateSet → TokenBudget → Result Allocated
allocate a input budget =
    if reserves_fit_total budget
    then (do
      s ← run_passes a input (available_input_tokens budget)
      let result = assemble a input budget s
      raise_any (reconcile result (views input) (available_input_tokens budget))
      ok result)
    else err (invalid_budget ∷ [])
