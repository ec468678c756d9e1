-- ===== src/Assembly/Decisions.antt =====
-- `finalDecisions` of packages/compiler/src/context-compiler.ts, and the decisions of a settled trace
-- in packages/compiler/src/compilation-trace.ts.
use ctxalloc.Shared.{
  ℕ, Bool, true, false, Option, none, some, List, [], map, Text, Table, get, text_key,
}
use ctxalloc.Domain.ContextBlock.{ContextBlock}
use ctxalloc.Filter.Policy.{ApplicabilityReason, inapplicable, superseded}
use ctxalloc.Filter.Decide.{
  Verdict, eligible_required, eligible_policy, eligible_incomplete_evidence,
  filtered_score_below_minimum, filtered_applicability,
}
use ctxalloc.Allocation.State.{ExclusionReason}
use ctxalloc.Correction.Fallback.{FinalIncludedReason, included_score_order, Settlement}
use ctxalloc.Assembly.Trace.{AllocationDecision, included, excluded, TraceGroup, positions_from}

pub data FinalFilteredReason : Type 0 where
  filtered_policy filtered_inapplicable filtered_superseded : FinalFilteredReason

pub data FinalExcludedReason : Type 0 where
  excluded_initial_allocation excluded_render_aware_correction : FinalExcludedReason

-- `CompilationTraceFinalDecision`: a filtered block with the reason, an included one with the reason
-- and its position, or an excluded one with the reason and the allocator's.
pub data FinalDecision : Type 0 where
  final_filtered : Text → FinalFilteredReason → FinalDecision
  final_included : Text → FinalIncludedReason → ℕ → FinalDecision
  final_excluded : Text → FinalExcludedReason → Option ExclusionReason → FinalDecision

abbrev pub decided_id : FinalDecision → Text
decided_id (final_filtered t _) = t
decided_id (final_included t _ _) = t
decided_id (final_excluded t _ _) = t

abbrev pub applicability_reason : ApplicabilityReason → FinalFilteredReason
applicability_reason inapplicable = filtered_inapplicable
applicability_reason superseded = filtered_superseded

-- The final reason of a group that was filtered.
abbrev pub filtered_reason : Verdict → Option FinalFilteredReason
filtered_reason eligible_required = none
filtered_reason (eligible_policy _ _) = none
filtered_reason (eligible_incomplete_evidence _ _ _) = none
filtered_reason (filtered_score_below_minimum _ _) = some filtered_policy
filtered_reason (filtered_applicability evidence) = some (applicability_reason evidence.reason)

-- `allocatorExclusion`
abbrev pub allocator_exclusion : Option AllocationDecision → Option ExclusionReason
allocator_exclusion none = none
allocator_exclusion (some (included _)) = none
allocator_exclusion (some (excluded why)) = some why

abbrev pub excluded_reason : Option ExclusionReason → Bool → FinalExcludedReason
excluded_reason none rebuilt = excluded_render_aware_correction
excluded_reason (some why) true = excluded_render_aware_correction
excluded_reason (some why) false = excluded_initial_allocation

-- `settlement.inclusionReasons.get(blockId) ?? 'INCLUDED_SCORE_ORDER'`
abbrev pub or_score_order : Option FinalIncludedReason → FinalIncludedReason
or_score_order none = included_score_order
or_score_order (some why) = why

-- A group that is eligible: included at a position, or excluded.
unfoldable pub placed : Settlement → TraceGroup → Option ℕ → FinalDecision
placed settlement group (some position) =
    final_included group.block_id (or_score_order (get group.block_id settlement.inclusion_reasons))
      position
placed settlement group none =
    final_excluded group.block_id
      (excluded_reason (allocator_exclusion group.allocation) settlement.rebuilt)
      (allocator_exclusion group.allocation)

unfoldable pub final_decision : Settlement → Table Text ℕ → TraceGroup → FinalDecision
unfolding placed
final_decision settlement positions group = elim (filtered_reason group.filtering) [
  | some why ↦ final_filtered group.block_id why
  | none ↦ placed settlement group (get group.block_id positions)
]

unfoldable pub render_positions : List ContextBlock → Table Text ℕ
unfolding positions_from
render_positions blocks = positions_from 0 (map (λ b. b.id) blocks) []

unfoldable pub final_decisions :
    List TraceGroup → Settlement → List ContextBlock → List FinalDecision
unfolding final_decision render_positions
final_decisions groups settlement blocks =
    map (final_decision settlement (render_positions blocks)) groups
