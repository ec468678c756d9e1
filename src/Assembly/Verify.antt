-- ===== src/Assembly/Verify.antt =====
-- `verifyResult` of packages/compiler/src/context-compiler.ts. `none` stands for `NaN` in the sums; a
-- count that is not negative is a natural number here, so that the tests for a negative count are met.
use ctxalloc.Shared.{
  ℕ, ◌+◌, Bool, true, false, not, ◌&&◌, ◌||◌, Option, none, some, List, [], ◌∷◌, ◌++◌, map, ltb,
  ◌==◌, length, Text, text_eq, contains, compare_code_units, sort, Table, get, put, tally, text_key,
  identity_key,
}
use ctxalloc.Shared.Json.{array, strings}
use ctxalloc.Canonical.{canonical_json}
use ctxalloc.Domain.ContextBlock.{ContextBlock}
use ctxalloc.Candidates.{ScoredCandidate, required_of, category_of}
use ctxalloc.Allocation.Policy.{CategoryConstraint, constraints_of}
use ctxalloc.Renderer.Records.{render_ordered_candidates}
use ctxalloc.Correction.Measure.{sum_tokens}
use ctxalloc.Correction.Fallback.{flat}
use ctxalloc.Correction.Settle.{CompilationRun, by_id}
use ctxalloc.Assembly.Numbers.{
  difference, same_integer, strictly_equal, minus, is_safe_count, is_safe_integer, is_at_most,
  set_size,
}
use ctxalloc.Assembly.Trace.{
  TraceGroup, TokenizerCoverage, rendering_attempt_only, validation_and_rendering,
}
use ctxalloc.Assembly.Result.{
  ResultUsage, CompilationResult, ResultRun, ResultIssue, compiled_tokens_unsafe,
  compiled_tokens_over_available, unused_tokens_wrong, delta_unsafe, delta_wrong,
  candidate_tokens_unsafe, included_content_wrong, content_over_available, included_twice,
  not_eligible, required_absent, below_minimum, over_maximum, filtered_included, context_differs,
  not_settled, other_compilation_id, wrong_coverage, order_differs, trace_tokens_differ,
  trace_hash_differs, trace_usage_differs, decisions_incomplete, positions_incomplete,
}
use ctxalloc.Assembly.Decisions.{
  FinalDecision, final_filtered, final_included, final_excluded, decided_id,
}

abbrev pub unless : Bool → ResultIssue → List ResultIssue
unless true i = []
unless false i = i ∷ []

-- A loop that reports.
unfoldable pub for_each {ℓ} : {A : Type ℓ} → (A → List ResultIssue) → List A → List ResultIssue
for_each f [] = []
for_each f (x ∷ xs) = f x ++ for_each f xs

abbrev pub ids_of : List ContextBlock → List Text
ids_of blocks = map (λ b. b.id) blocks

-- 1-3, 7, 11: the arithmetic.
unfoldable pub check_usage : ResultUsage → List ContextBlock → List ResultIssue
unfolding strictly_equal minus is_safe_count is_safe_integer is_at_most difference same_integer
check_usage usage blocks =
    let content = sum_tokens (map (λ b. b.token_count) blocks) in
    flat (
      unless (is_safe_count (some usage.compiled_tokens)) compiled_tokens_unsafe
      ∷ unless (not (ltb usage.available_tokens usage.compiled_tokens))
          compiled_tokens_over_available
      ∷ unless
          (same_integer usage.unused_tokens
            (difference usage.available_tokens usage.compiled_tokens))
          unused_tokens_wrong
      ∷ unless (is_safe_integer usage.rendering_token_delta) delta_unsafe
      ∷ unless
          (strictly_equal same_integer usage.rendering_token_delta
            (minus usage.compiled_tokens usage.included_content_tokens))
          delta_wrong
      ∷ unless (is_safe_count usage.candidate_tokens) candidate_tokens_unsafe
      ∷ unless (strictly_equal (λ m n. m == n) usage.included_content_tokens content)
          included_content_wrong
      ∷ unless (is_at_most content usage.available_tokens) content_over_available
      ∷ [])

-- `eligibleById.get(id)`, whether there is one
abbrev pub is_known {ℓ} : {A : Type ℓ} → Option A → Bool
is_known none = false
is_known (some _) = true

abbrev pub category_under : Option ScoredCandidate → Option Text
category_under none = none
category_under (some c) = category_of c

-- `selectedByCategory`
unfoldable pub count_selected : Table Text ScoredCandidate → List Text → Table Text ℕ → Table Text ℕ
count_selected eligible [] m = m
count_selected eligible (t ∷ ts) m = elim (category_under (get t eligible)) [
  | none ↦ count_selected eligible ts m
  | some category ↦ count_selected eligible ts (put category (tally category m + 1) m)
]

abbrev pub check_minimum : Text → Option ℕ → ℕ → List ResultIssue
check_minimum category none n = []
check_minimum category (some least) n = unless (not (ltb n least)) (below_minimum category)

abbrev pub check_maximum : Text → Option ℕ → ℕ → List ResultIssue
check_maximum category none n = []
check_maximum category (some most) n = unless (not (ltb most n)) (over_maximum category)

unfoldable pub check_constraint : Table Text ℕ → CategoryConstraint → List ResultIssue
check_constraint selected k =
    check_minimum k.category k.min_blocks (tally k.category selected)
    ++ check_maximum k.category k.max_blocks (tally k.category selected)

-- 4-6, 8, 10, 18-20: the selection.
unfoldable pub check_selection : CompilationRun → List Text → List ResultIssue
unfolding set_size for_each count_selected check_constraint by_id
check_selection run ids =
    let eligible = by_id run.filtered.eligible.candidates [] in
    flat (
      unless (set_size ids == length ids) included_twice
      ∷ for_each (λ t. unless (is_known (get t eligible)) (not_eligible t)) ids
      ∷ for_each (λ e. unless (not (required_of e.1) || contains ids e.0) (required_absent e.0))
          (sort (λ a b. compare_code_units a.0 b.0) eligible)
      ∷ for_each (check_constraint (count_selected eligible ids [])) (
          sort (λ a b. compare_code_units a.category b.category)
            (constraints_of run.allocation_policy))
      ∷ [])

-- The positions of the included decisions.
unfoldable pub positions_of : List FinalDecision → List ℕ
positions_of [] = []
positions_of (final_filtered _ _ ∷ ds) = positions_of ds
positions_of (final_included _ _ position ∷ ds) = position ∷ positions_of ds
positions_of (final_excluded _ _ _ ∷ ds) = positions_of ds

unfoldable pub all_below : ℕ → List ℕ → Bool
all_below n [] = true
all_below n (p ∷ ps) = ltb p n && all_below n ps

unfoldable pub all_decided : List TraceGroup → List Text → Bool
all_decided [] decided = true
all_decided (g ∷ gs) decided = contains decided g.block_id && all_decided gs decided

abbrev pub check_filtered : List Text → FinalDecision → List ResultIssue
check_filtered ids (final_filtered t _) = unless (not (contains ids t)) (filtered_included t)
check_filtered ids (final_included _ _ _) = []
check_filtered ids (final_excluded _ _ _) = []

-- 19-20: one decision for each group, each position once.
unfoldable pub check_decisions : List TraceGroup → List FinalDecision → List Text → List ResultIssue
unfolding set_size positions_of all_below all_decided for_each
check_decisions groups decisions ids =
    let decided = map decided_id decisions in
    let positions = positions_of decisions in
    flat (
      unless
        (length decided == length groups
          && set_size decided == length decided
          && all_decided groups decided)
        decisions_incomplete
      ∷ unless
          (length positions == length ids
            && set_size positions == length ids
            && all_below (length ids) positions)
          positions_incomplete
      ∷ for_each (check_filtered ids) decisions
      ∷ [])

abbrev pub is_full_coverage : TokenizerCoverage → Bool
is_full_coverage rendering_attempt_only = false
is_full_coverage validation_and_rendering = true

module _ (hash_rendered_context : Text → Text) where
  -- 9, 12-17: the text and the trace.
  unfoldable pub check_trace : CompilationResult → List ResultIssue
  unfolding strictly_equal same_integer
  check_trace result =
      let settlement = result.trace.settlement in
      flat (
        unless (text_eq (render_ordered_candidates result.included_blocks) result.compiled_context)
          context_differs
        ∷ unless result.trace.settled not_settled
        ∷ unless (text_eq result.trace.compilation_id result.compilation_id) other_compilation_id
        ∷ unless (is_full_coverage result.trace.tokenizer_coverage) wrong_coverage
        ∷ unless
            (text_eq (canonical_json (array (strings settlement.ordered_block_ids)))
              (canonical_json (array (strings (ids_of result.included_blocks)))))
            order_differs
        ∷ unless (settlement.compiled_tokens == result.usage.compiled_tokens) trace_tokens_differ
        ∷ unless
            (text_eq settlement.rendered_context_hash
              (hash_rendered_context result.compiled_context))
            trace_hash_differs
        ∷ unless
            (settlement.usage.available_input_tokens == result.usage.available_tokens
              && strictly_equal (λ m n. m == n) settlement.usage.included_content_tokens
                  result.usage.included_content_tokens
              && same_integer settlement.usage.unused_tokens result.usage.unused_tokens
              && strictly_equal same_integer settlement.usage.rendering_token_delta
                  result.usage.rendering_token_delta)
            trace_usage_differs
        ∷ [])

  unfoldable pub verify_result : ResultRun → CompilationResult → List ResultIssue
  unfolding check_usage check_selection check_trace check_decisions
  verify_result run result = flat (
      check_usage result.usage result.included_blocks
      ∷ check_selection run.stages (ids_of result.included_blocks)
      ∷ check_trace result
      ∷ check_decisions run.snapshot.groups result.trace.settlement.decisions
          (ids_of result.included_blocks)
      ∷ [])
