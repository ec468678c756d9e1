-- ===== src/Filter/Policy.antt =====
-- The policies and failures of packages/compiler/src/candidate-filter.ts, with the applicability of
-- packages/compiler/src/candidate-applicability.ts.
use ctxalloc.Shared.{
  ℕ, Bool, true, not, ◌&&◌, if◌then◌else◌, Option, none, some, List, [], ◌∷◌, Text, contains,
}
use ctxalloc.Shared.Outcome.{Outcome, returned, thrown, after}
use ctxalloc.Domain.ContextBlock.{Scope}
use ctxalloc.Domain.Unicode.{is_blank, is_policy_string}

pub data ApplicabilityReason : Type 0 where
  inapplicable superseded : ApplicabilityReason

pub record Exclusion : Type 0 where
  pub block_id : Text
  pub reason : ApplicabilityReason

pub record CandidateApplicability : Type 0 where
  pub scope : Scope
  pub exclusions : List Exclusion

pub data OnIncompleteEvidence : Type 0 where
  admit reject : OnIncompleteEvidence

-- `FilteringPolicyBase`; a threshold is in the unit of a score's total.
pub record FilteringPolicyBase : Type 0 where
  pub policy_id : Text
  pub policy_version : Text
  pub minimum_total_score : Option ℕ

-- Schema versions 1, 2 and 3.
pub data CandidateFilteringPolicy : Type 0 where
  legacy : FilteringPolicyBase → CandidateFilteringPolicy
  with_applicability : FilteringPolicyBase → CandidateApplicability → CandidateFilteringPolicy
  with_evidence :
      FilteringPolicyBase
      → Option CandidateApplicability
      → OnIncompleteEvidence
      → CandidateFilteringPolicy

abbrev pub base_of : CandidateFilteringPolicy → FilteringPolicyBase
base_of (legacy base) = base
base_of (with_applicability base _) = base
base_of (with_evidence base _ _) = base

abbrev pub applicability_of : CandidateFilteringPolicy → Option CandidateApplicability
applicability_of (legacy _) = none
applicability_of (with_applicability _ applicability) = some applicability
applicability_of (with_evidence _ applicability _) = applicability

-- `schemaVersion === EVIDENCE_FILTERING_POLICY_SCHEMA_VERSION`, with the policy on gaps.
abbrev pub evidence_policy : CandidateFilteringPolicy → Option OnIncompleteEvidence
evidence_policy (legacy _) = none
evidence_policy (with_applicability _ _) = none
evidence_policy (with_evidence _ _ on_incomplete) = some on_incomplete

pub data FilteringIssue : Type 0 where
  -- what the schema refuses
  invalid_filtering_policy : FilteringIssue
  incompatible_evidence_policy : FilteringIssue
  evidence_scope_mismatch : FilteringIssue
  applicability_scope_mismatch : FilteringIssue
  missing_applicability_target : FilteringIssue
  required_applicability_conflict : FilteringIssue
  conflicting_applicability_declarations : FilteringIssue
  -- the canonical block
  incomplete_admission_evidence : Text → FilteringIssue

-- An identifier of packages/domain/src/ids.ts and of scope.ts: not blank.
unfoldable pub is_identifier : Text → Bool
is_identifier t = not (is_blank t)

is_optional_identifier : Option Text → Bool
unfolding is_identifier
is_optional_identifier none = true
is_optional_identifier (some t) = is_identifier t

unfoldable pub is_scope : Scope → Bool
unfolding is_optional_identifier
is_scope s =
    is_identifier s.tenant_id && is_identifier s.workspace_id && is_optional_identifier s.project_id

-- The entries name blocks, each once: `seen` has the ones before.
unfoldable pub has_valid_exclusions : List Text → List Exclusion → Bool
unfolding is_identifier
has_valid_exclusions seen [] = true
has_valid_exclusions seen (e ∷ es) =
    is_identifier e.block_id
    && not (contains seen e.block_id)
    && has_valid_exclusions (e.block_id ∷ seen) es

unfoldable pub is_valid_applicability : Option CandidateApplicability → Bool
unfolding is_scope has_valid_exclusions
is_valid_applicability none = true
is_valid_applicability (some a) = is_scope a.scope && has_valid_exclusions [] a.exclusions

-- What `CandidateFilteringPolicySchema` accepts of a value of the right shape, and otherwise issues.
unfoldable pub parse_filtering_policy :
    CandidateFilteringPolicy → Outcome FilteringIssue CandidateFilteringPolicy
unfolding is_valid_applicability
parse_filtering_policy p =
    if is_policy_string (base_of p).policy_id
      && is_policy_string (base_of p).policy_version
      && is_valid_applicability (applicability_of p)
    then returned p
    else thrown (invalid_filtering_policy ∷ [])

-- The constructor of `CandidateFilter`, which holds the policy.
unfoldable pub new_filter :
    CandidateFilteringPolicy → Outcome FilteringIssue CandidateFilteringPolicy
unfolding parse_filtering_policy
new_filter p = after (parse_filtering_policy p) (λ policy. returned policy)
