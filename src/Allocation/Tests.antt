-- ===== src/Allocation/Tests.antt =====
-- The theorems about packages/compiler/src/budget-allocator.ts at a batch.
use ctxalloc.Shared.{
  text_key, ◌+◌, ◌≤◌, SameItems, weigh, All, Distinct, ◌↔◌, ◌≢◌, select, count, take, get, ℕ, ◌≡◌,
  refl, true, some, List, [], ◌∷◌, map, units, Text, tally,
}
use ctxalloc.Domain.TokenBudget.{available_input_tokens, reserves_fit_total}
use ctxalloc.Candidates.{ScoredCandidate, id_of, tokens_of, required_of, category_of}
use ctxalloc.Allocation.Issue.{ok, ◌>>=◌}
use ctxalloc.Allocation.State.{in_category, compare_traversal}
use ctxalloc.Allocation.Allocate.{allocate, assemble, run_passes}
use ctxalloc.Allocation.Reconcile.{Allocated, decisions}
use ctxalloc.Allocation.Guarantees.{
  included_candidates, excluded_candidates, is_required_inclusion, included_of,
  allocate-decides_once, allocate-within_budget, allocate-keeps_required, allocate-respects_max,
  allocate-respects_min,
}
use ctxalloc.Allocation.Eviction.{optional_inclusions, allocate-evicts_safely}
use ctxalloc.Shared.{Ordering, arith}
use mathlib.Core.List.{Permᴰ}
use ctxalloc.Allocation.Selection.{Selection}
use ctxalloc.Allocation.Bounds.{IsConsistent}
use ctxalloc.Allocation.Consistent.{construct-IsConsistent}
use ctxalloc.Allocation.Existence.{allocate_iff_Selection}
use ctxalloc.Allocation.SelfCheck.{allocate-eq-passes}
use ctxalloc.Allocation.Exclusions.{Reasoned, allocate-excludes_for_reason}
use ctxalloc.Allocation.Determinism.{reordered, allocate_perm}
use ctxalloc.Allocation.Fixture.{batch, policy, allocator, budget, outcome, code, built, allocated}

allocate-decides_once_example : SameItems (decisions outcome) batch.candidates
allocate-decides_once_example = allocate-decides_once allocator batch budget allocated

allocate-within_budget_example :
    (weigh tokens_of (included_candidates outcome) ≡ outcome.selected_block_content_tokens)
    × (outcome.selected_block_content_tokens + outcome.unallocated_block_content_tokens
        ≡ available_input_tokens budget)
    × (outcome.selected_block_content_tokens ≤ available_input_tokens budget)
allocate-within_budget_example = allocate-within_budget allocator batch budget allocated

allocate-keeps_required_example :
    SameItems
      (map (λ d. d.candidate) (select is_required_inclusion outcome.included))
      (select required_of batch.candidates)
    × (count required_of (excluded_candidates outcome) ≡ 0)
allocate-keeps_required_example = allocate-keeps_required allocator batch budget allocated

maximum : get (units "facts") allocator.max_blocks ≡ some 2
unfolding code
maximum = refl

minimum : get (units "facts") allocator.min_blocks ≡ some 1
unfolding code
minimum = refl

allocate-respects_max_example : included_of (units "facts") outcome ≤ 2
allocate-respects_max_example =
    allocate-respects_max policy allocator batch budget built allocated (units "facts") 2 maximum

allocate-respects_min_example : 1 ≤ included_of (units "facts") outcome
allocate-respects_min_example =
    allocate-respects_min allocator batch budget allocated (units "facts") 1 minimum

allocate-evicts_safely_example :
    (prefix : List ScoredCandidate) × (map id_of prefix ≡ take 1 outcome.optional_eviction_order)
    × ((f : ScoredCandidate → ℕ) → weigh f prefix ≤ weigh f (optional_inclusions outcome.included))
    × (count required_of prefix ≡ 0)
    × ((c : Text)
        → tally c allocator.min_blocks + count (λ x. in_category c (category_of x)) prefix
          ≤ included_of c outcome)
allocate-evicts_safely_example = allocate-evicts_safely allocator batch budget allocated 1

fitting : reserves_fit_total budget ≡ true
unfolding code
fitting = refl

allocate_iff_Selection_example :
    Selection allocator batch (available_input_tokens budget)
    ↔ ((r : Allocated) × (allocate allocator batch budget ≡ ok r))
allocate_iff_Selection_example = allocate_iff_Selection policy allocator batch budget built fitting

allocate-eq-passes_example : allocate allocator batch budget ≡ (
    run_passes allocator batch (available_input_tokens budget) >>= λ s.
    ok (assemble allocator batch budget s))
allocate-eq-passes_example = allocate-eq-passes allocator batch budget fitting

allocate-excludes_for_reason_example :
    All
      (λ d.
        Reasoned allocator
          (λ c. included_of c outcome)
          outcome.unallocated_block_content_tokens
          d.reason
          d.candidate)
      outcome.excluded
allocate-excludes_for_reason_example = allocate-excludes_for_reason allocator batch budget allocated

construct-IsConsistent_example : IsConsistent allocator
construct-IsConsistent_example = construct-IsConsistent policy built

after_not_eq : Ordering.gt ≢ Ordering.eq
after_not_eq t = absurd (ground arith)

distinct : Distinct compare_traversal batch.candidates
unfolding code
distinct = (
  (after_not_eq, (after_not_eq, (after_not_eq, tt))),
  ((after_not_eq, (after_not_eq, tt)), ((after_not_eq, tt), (tt, tt))),
)

abbrev swapped : List ScoredCandidate
swapped = elim batch.candidates [ (x ∷ y ∷ rest) ↦ y ∷ x ∷ rest | xs ↦ xs ]

allocate_perm_example :
    allocate allocator (reordered batch swapped []) budget ≡ allocate allocator batch budget
allocate_perm_example =
    allocate_perm allocator batch budget swapped [] (Permᴰ.swap refl refl) Permᴰ.nil distinct tt
