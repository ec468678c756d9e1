-- ===== src/Candidates.antt =====
-- The records that one stage hands to the next: packages/compiler/src/candidate-deduplicator.ts and
-- candidate-scorer.ts. An object that the source keys a `Map` or a `Set` by carries its identity.
use ctxalloc.Shared.{ℕ, List, Option, Text, Bool}
use ctxalloc.Domain.ContextBlock.{Scope, SourceDocument, ContextBlock, CandidateBlock, is_required}

pub data DuplicateMatchReason : Type 0 where
  same_block_id same_normalized_content : DuplicateMatchReason

pub data CanonicalSelectionReason : Type 0 where
  single_block required_block required_then_stable_block_id stable_block_id :
      CanonicalSelectionReason

pub record DeduplicatedCandidateMember : Type 0 where
  pub candidate : CandidateBlock
  pub match_reason : DuplicateMatchReason

pub record DeduplicatedCandidate : Type 0 where
  pub canonical_block : ContextBlock
  pub canonical_selection_reason : CanonicalSelectionReason
  pub members : List DeduplicatedCandidateMember

pub record DeduplicatedCandidateSet : Type 0 where
  pub scope : Scope
  pub source_documents : List SourceDocument
  pub candidates : List DeduplicatedCandidate

-- `SCORING_EVIDENCE_COMPONENTS`
pub data Component : Type 0 where
  retrieval_evidence authored_priority source_priority category_priority recency : Component

pub data Completeness : Type 0 where
  complete incomplete : Completeness

-- One component of `CandidateEvidenceObservation`.
pub record Observed : Type 0 where
  pub component : Component
  pub configured : Bool
  pub present : Bool
  pub completeness : Option Completeness

pub record EvidenceDeclaration : Type 0 where
  pub scope : Scope
  pub completeness : List (Component × Completeness)

-- `total` is a finite double that is at least 0, hence a multiple of 2^-1074: the field holds that
-- multiple. The stages after scoring only compare totals.
pub record CandidateScore : Type 0 where
  pub total : ℕ
  -- the components of `evidence`
  pub evidence : Option (List Observed)
  -- the weight of a component that the score has, in the unit of the total
  pub weight_of : Component → Option ℕ

pub record ScoredCandidate : Type 0 where
  pub identity : ℕ
  pub candidate : DeduplicatedCandidate
  pub score : CandidateScore

pub record ScoredCandidateSet : Type 0 where
  pub scope : Scope
  pub evidence : Option EvidenceDeclaration
  pub source_documents : List SourceDocument
  pub policy_id : Text
  pub policy_version : Text
  pub reference_time : Text
  pub candidates : List ScoredCandidate

-- What a stage reads of a scored group (`viewOf` in budget-allocator.ts).
abbrev pub block_of : ScoredCandidate → ContextBlock
block_of c = c.candidate.canonical_block

abbrev pub id_of : ScoredCandidate → Text
id_of c = (block_of c).id

abbrev pub tokens_of : ScoredCandidate → ℕ
tokens_of c = (block_of c).token_count

abbrev pub required_of : ScoredCandidate → Bool
required_of c = is_required (block_of c)

abbrev pub category_of : ScoredCandidate → Option Text
category_of c = (block_of c).attributes.category

abbrev pub total_of : ScoredCandidate → ℕ
total_of c = c.score.total
