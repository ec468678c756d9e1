-- ===== src/Deduplication/Deduplicate.antt =====
-- `CandidateDeduplicator` of packages/compiler/src/candidate-deduplicator.ts.
use ctxalloc.Shared.{
  Option, none, some, List, [], ◌∷◌, map, Ordering, ◌orelse◌, Text, text_eq, compare_code_units,
  if◌then◌else◌, select, sort,
}
use ctxalloc.Canonical.{canonical_json}
use ctxalloc.Domain.ContextBlock.{Scope, SourceDocument, ContextBlock, CandidateBlock, is_required}
use ctxalloc.Domain.Serialized.{candidate_json}
use ctxalloc.Candidates.{
  same_block_id, same_normalized_content, CanonicalSelectionReason, single_block, required_block,
  required_then_stable_block_id, stable_block_id, DeduplicatedCandidateMember,
  DeduplicatedCandidate, DeduplicatedCandidateSet,
}
use ctxalloc.Deduplication.Group.{Group, group_by_exact_content}

-- `ValidatedCandidateSet`
pub record ValidatedCandidateSet : Type 0 where
  pub scope : Scope
  pub source_documents : List SourceDocument
  pub candidates : List CandidateBlock

unfoldable pub compare_block_ids : ContextBlock → ContextBlock → Ordering
compare_block_ids a b = compare_code_units a.id b.id

-- `[...group.blocksById.values()].sort(...)`
unfoldable pub distinct_blocks : Group → List ContextBlock
unfolding compare_block_ids
distinct_blocks g = sort compare_block_ids (map (λ e. e.1) g.blocks_by_id)

-- The choice among the required blocks, where there is one.
unfoldable pub among_required :
    List ContextBlock → ContextBlock → ContextBlock × CanonicalSelectionReason
among_required [] first = (first, stable_block_id)
among_required (r ∷ []) first = (r, required_block)
among_required (r ∷ _ ∷ _) first = (r, required_then_stable_block_id)

-- `none` is the error that the source marks as unreachable.
unfoldable pub choose_canonical :
    List ContextBlock → Option (ContextBlock × CanonicalSelectionReason)
unfolding among_required
choose_canonical [] = none
choose_canonical (b ∷ []) = some (b, single_block)
choose_canonical (b ∷ c ∷ rest) = some (among_required (select is_required (b ∷ c ∷ rest)) b)

unfoldable pub select_canonical : Group → Option (ContextBlock × CanonicalSelectionReason)
unfolding choose_canonical distinct_blocks
select_canonical g = choose_canonical (distinct_blocks g)

-- A group with its canonical block and the reason for it.
pub record Resolved : Type 0 where
  pub group : Group
  pub block : ContextBlock
  pub reason : CanonicalSelectionReason

-- The error, or the canonical block of every group.
unfoldable pub resolve : List Group → Option (List Resolved)
resolve [] = some []
resolve (g ∷ gs) = elim (select_canonical g) [
  | none ↦ none
  | some (block, reason) ↦ (elim (resolve gs) [
    | none ↦ none
    | some rest ↦ some (record { group = g; block = block; reason = reason } ∷ rest)
  ])
]

unfoldable pub compare_resolved : Resolved → Resolved → Ordering
compare_resolved a b =
    compare_code_units a.block.id b.block.id
    orelse compare_code_units a.group.normalized_content b.group.normalized_content

-- `orderMembers`
unfoldable pub compare_members : CandidateBlock → CandidateBlock → Ordering
compare_members a b =
    compare_code_units a.block.id b.block.id
    orelse compare_code_units (canonical_json (candidate_json a))
        (canonical_json (candidate_json b))

unfoldable pub member_of : Text → CandidateBlock → DeduplicatedCandidateMember
member_of canonical c = record {
  candidate = c;
  match_reason = (if text_eq c.block.id canonical then same_block_id else same_normalized_content);
}

unfoldable pub order_members : List CandidateBlock → Text → List DeduplicatedCandidateMember
unfolding compare_members member_of
order_members wrappers canonical = map (member_of canonical) (sort compare_members wrappers)

unfoldable pub finish : Resolved → DeduplicatedCandidate
unfolding order_members
finish r = record {
  canonical_block = r.block;
  canonical_selection_reason = r.reason;
  members = order_members r.group.wrappers r.block.id;
}

-- The result, from the groups with their canonical blocks.
unfoldable pub publish : ValidatedCandidateSet → List Resolved → DeduplicatedCandidateSet
unfolding compare_resolved finish
publish input resolved = record {
  scope = input.scope;
  source_documents =
      sort (λ (x y : SourceDocument). compare_code_units x.id y.id) input.source_documents;
  candidates = map finish (sort compare_resolved resolved);
}

unfoldable pub deduplicate : ValidatedCandidateSet → Option DeduplicatedCandidateSet
unfolding publish
deduplicate input = elim (resolve (group_by_exact_content input.candidates)) [
  | none ↦ none
  | some resolved ↦ some (publish input resolved)
]
