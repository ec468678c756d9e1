-- ===== src/Allocation/Reconcile.antt =====
-- `reconcile` of packages/compiler/src/budget-allocator.ts: the self-check of an assembled result.
use ctxalloc.Shared.{
  ℕ, ◌+◌, ◌-◌, true, false, not, ◌||◌, List, [], ◌∷◌, ◌++◌, map, Text, ltb, ◌==◌, if◌then◌else◌,
  length, Table, put, tally, sum_values, identity_key,
}
use ctxalloc.Domain.ContextBlock.{Scope, SourceDocument}
use ctxalloc.Domain.TokenBudget.{TokenBudget}
use ctxalloc.Candidates.{ScoredCandidate}
use ctxalloc.Allocation.Issue.{
  Issue, wrong_decisions, wrong_selected, over_available, wrong_unallocated,
}
use ctxalloc.Allocation.State.{AllocationCandidate, Included, Excluded}

-- `AllocatedCandidateSet`
pub record Allocated : Type 0 where
  pub scope : Scope
  pub source_documents : List SourceDocument
  pub scoring_policy_id : Text
  pub scoring_policy_version : Text
  pub allocation_policy_id : Text
  pub allocation_policy_version : Text
  pub reference_time : Text
  pub token_budget : TokenBudget
  pub available_input_tokens : ℕ
  pub selected_block_content_tokens : ℕ
  pub unallocated_block_content_tokens : ℕ
  pub included : List Included
  pub excluded : List Excluded
  pub optional_eviction_order : List Text

-- `outstanding`: how many decisions each scored candidate still owes.
unfoldable pub expect : List AllocationCandidate → Table ℕ ℕ → Table ℕ ℕ
expect [] m = m
expect (e ∷ es) m = expect es (put e.scored.identity (tally e.scored.identity m + 1) m)

-- The decisions in turn: those that nobody owes are counted.
unfoldable pub settle : List ScoredCandidate → Table ℕ ℕ → ℕ → Table ℕ ℕ × ℕ
settle [] m unmatched = (m, unmatched)
settle (c ∷ cs) m unmatched = elim (tally c.identity m == 0) [
  | true ↦ settle cs m (unmatched + 1)
  | false ↦ settle cs (put c.identity (tally c.identity m - 1) m) unmatched
]

-- `let selected = 0; for (...) selected += decision.contentTokens`
unfoldable pub sum_included : ℕ → List Included → ℕ
sum_included acc [] = acc
sum_included acc (d ∷ ds) = sum_included (acc + d.content_tokens) ds

abbrev pub decisions : Allocated → List ScoredCandidate
decisions r = map (λ d. d.candidate) r.included ++ map (λ d. d.candidate) r.excluded

-- `unallocated !== available - selected` is written as a sum, since the difference is negative where
-- the selection is over the ceiling.
unfoldable pub reconcile : Allocated → List AllocationCandidate → ℕ → List Issue
unfolding expect settle sum_included
reconcile r candidates available =
    let (outstanding, unmatched) = settle (decisions r) (expect candidates []) 0 in
    let undecided = sum_values outstanding in
    let decision_count = length r.included + length r.excluded in
    let selected = sum_included 0 r.included in
    (if not (decision_count == length candidates) || ltb 0 unmatched || ltb 0 undecided
      then wrong_decisions (length candidates) decision_count undecided unmatched ∷ []
      else [])
    ++ ((if selected == r.selected_block_content_tokens
          then []
          else wrong_selected selected r.selected_block_content_tokens ∷ [])
        ++ ((if ltb available r.selected_block_content_tokens
              then over_available available r.selected_block_content_tokens ∷ []
              else [])
            ++ (if r.unallocated_block_content_tokens + r.selected_block_content_tokens == available
                then []
                else wrong_unallocated r.unallocated_block_content_tokens ∷ [])))
