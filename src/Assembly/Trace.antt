-- ===== src/Assembly/Trace.antt =====
-- The groups of packages/compiler/src/compilation-trace.ts, `traceGroup`, and
-- `settleCompilationTrace`. Of a canonical block a group keeps the identifier and the token count
-- here: nothing after the trace reads more.
use ctxalloc.Shared.{
  ℕ, ◌+◌, false, true, Option, none, some, List, [], ◌∷◌, ◌++◌, map, Text, Table, get, put,
  text_key,
}
use ctxalloc.Shared.Outcome.{Outcome, returned, thrown, after}
use ctxalloc.Domain.ContextBlock.{RetrievalScore, Retrieval}
use ctxalloc.Candidates.{
  DuplicateMatchReason, CanonicalSelectionReason, DeduplicatedCandidateMember,
  DeduplicatedCandidate, CandidateScore, id_of,
}
use ctxalloc.Filter.Decide.{Verdict, is_eligible, Decision, FilteredCandidateSet}
use ctxalloc.Allocation.State.{InclusionReason, ExclusionReason, Included, Excluded}
use ctxalloc.Allocation.Reconcile.{Allocated}
use ctxalloc.Renderer.Render.{RenderedContextAttempt}

-- `CompilationTraceAllocationDecision`
pub data AllocationDecision : Type 0 where
  included : InclusionReason → AllocationDecision
  excluded : ExclusionReason → AllocationDecision

pub data Disposition : Type 0 where
  filtered_group included_group excluded_group : Disposition

-- A retrieval record without its metadata.
pub record TraceRetrieval : Type 0 where
  pub provider_id : Text
  pub provider_version : Text
  pub rank : Option ℕ
  pub score : Option RetrievalScore

abbrev pub trace_retrieval : Option Retrieval → Option TraceRetrieval
trace_retrieval none = none
trace_retrieval (some retrieval) = some (record {
  provider_id = retrieval.provider_id;
  provider_version = retrieval.provider_version;
  rank = retrieval.rank;
  score = retrieval.score;
})

pub record TraceMember : Type 0 where
  pub block_id : Text
  pub source_document_id : Text
  pub match_reason : DuplicateMatchReason
  pub retrieval : Option TraceRetrieval

unfoldable pub trace_member : DeduplicatedCandidateMember → TraceMember
trace_member member = record {
  block_id = member.candidate.block.id;
  source_document_id = member.candidate.block.source_document_id;
  match_reason = member.match_reason;
  retrieval = trace_retrieval member.candidate.retrieval;
}

-- A group's `filtering` is the decision without its candidate.
pub record TraceGroup : Type 0 where
  pub block_id : Text
  pub token_count : ℕ
  pub canonical_selection_reason : CanonicalSelectionReason
  pub members : List TraceMember
  pub score : CandidateScore
  pub filtering : Verdict
  pub allocation : Option AllocationDecision
  pub current_disposition : Disposition
  pub render_position : Option ℕ

pub data TraceIssue : Type 0 where
  no_filtering_decision : Text → TraceIssue
  no_allocation_decision : Text → TraceIssue

-- `traceFilteringDecision`
abbrev pub trace_filtering_decision : Decision → Verdict
trace_filtering_decision d = d.verdict

-- The maps that `build` makes.
abbrev pub allocation_entries : Allocated → List (Text × AllocationDecision)
allocation_entries a =
    map (λ (d : Included). (id_of d.candidate, included d.reason)) a.included
    ++ map (λ (d : Excluded). (id_of d.candidate, excluded d.reason)) a.excluded

unfoldable pub enter_entries {ℓ} : {V : Type ℓ} → List (Text × V) → Table Text V → Table Text V
enter_entries [] m = m
enter_entries (e ∷ es) m = enter_entries es (put e.0 e.1 m)

-- `forEach((item, index) => positions.set(id, index))`
unfoldable pub positions_from : ℕ → List Text → Table Text ℕ → Table Text ℕ
positions_from index [] m = m
positions_from index (t ∷ ts) m = positions_from (index + 1) ts (put t index m)

pub record GroupEvidence : Type 0 where
  pub filtering : Table Text Decision
  pub allocation : Table Text AllocationDecision
  pub render_position : Table Text ℕ
  pub score : Table Text CandidateScore

-- What an eligible group got.
unfoldable pub trace_allocated :
    DeduplicatedCandidate
    → CandidateScore
    → Verdict
    → GroupEvidence
    → Option AllocationDecision
    → Outcome TraceIssue TraceGroup
unfolding trace_member
trace_allocated group score verdict evidence none =
    thrown (no_allocation_decision group.canonical_block.id ∷ [])
trace_allocated group score verdict evidence (some (excluded why)) = returned (record {
  block_id = group.canonical_block.id;
  token_count = group.canonical_block.token_count;
  canonical_selection_reason = group.canonical_selection_reason;
  members = map trace_member group.members;
  score = score;
  filtering = verdict;
  allocation = some (excluded why);
  current_disposition = excluded_group;
  render_position = none;
})
trace_allocated group score verdict evidence (some (included why)) = returned (record {
  block_id = group.canonical_block.id;
  token_count = group.canonical_block.token_count;
  canonical_selection_reason = group.canonical_selection_reason;
  members = map trace_member group.members;
  score = score;
  filtering = verdict;
  allocation = some (included why);
  current_disposition = included_group;
  render_position = get group.canonical_block.id evidence.render_position;
})

-- What is known of a group.
unfoldable pub trace_known :
    DeduplicatedCandidate
    → GroupEvidence
    → Option Decision
    → Option CandidateScore
    → Outcome TraceIssue TraceGroup
unfolding trace_allocated trace_member
trace_known group evidence none score = thrown (no_filtering_decision group.canonical_block.id ∷ [])
trace_known group evidence (some d) none =
    thrown (no_filtering_decision group.canonical_block.id ∷ [])
trace_known group evidence (some d) (some score) = elim (is_eligible d.verdict) [
  | false ↦ returned (record {
    block_id = group.canonical_block.id;
    token_count = group.canonical_block.token_count;
    canonical_selection_reason = group.canonical_selection_reason;
    members = map trace_member group.members;
    score = score;
    filtering = trace_filtering_decision d;
    allocation = none;
    current_disposition = filtered_group;
    render_position = none;
  })
  | true ↦
      trace_allocated group score (trace_filtering_decision d) evidence
        (get group.canonical_block.id evidence.allocation)
]

unfoldable pub trace_group : GroupEvidence → DeduplicatedCandidate → Outcome TraceIssue TraceGroup
unfolding trace_known
trace_group evidence group =
    trace_known group evidence (get group.canonical_block.id evidence.filtering)
      (get group.canonical_block.id evidence.score)

-- `deduplicated.candidates.map(...)`, which the first exception ends
unfoldable pub trace_groups :
    GroupEvidence → List DeduplicatedCandidate → Outcome TraceIssue (List TraceGroup)
unfolding trace_group
trace_groups evidence [] = returned []
trace_groups evidence (group ∷ groups) =
    after (trace_group evidence group)
      (λ g. after (trace_groups evidence groups) (λ gs. returned (g ∷ gs)))

-- The evidence that `build` joins onto the groups. The allocation is the one that was rendered.
unfoldable pub evidence_of : FilteredCandidateSet → RenderedContextAttempt → GroupEvidence
unfolding enter_entries positions_from
evidence_of filtered rendered = record {
  filtering = enter_entries (map (λ d. (id_of d.candidate, d)) filtered.decisions) [];
  allocation = enter_entries (allocation_entries rendered.ordered.allocation) [];
  render_position =
      positions_from 0 (map (λ d. id_of d.candidate) rendered.ordered.ordered_included) [];
  score = enter_entries (map (λ c. (id_of c, c.score)) filtered.scored.candidates) [];
}

pub data TokenizerCoverage : Type 0 where
  rendering_attempt_only validation_and_rendering : TokenizerCoverage

-- What the result reads of `UnsettledCompilationTrace`.
pub record UnsettledTrace : Type 0 where
  pub tokenizer_coverage : TokenizerCoverage
  pub groups : List TraceGroup
