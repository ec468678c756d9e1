-- ===== src/Filter/Applicability.antt =====
-- `resolveApplicability` of packages/compiler/src/candidate-filter.ts.
use ctxalloc.Shared.{
  ◌&&◌, ◌||◌, Bool, true, false, Option, none, some, List, [], ◌∷◌, ◌++◌, if◌then◌else◌, Text,
  text_eq, compare_code_units, sort, Table, get, put, text_key,
}
use ctxalloc.Shared.Outcome.{Outcome, returned, thrown}
use ctxalloc.Domain.ContextBlock.{Scope, is_required}
use ctxalloc.Candidates.{DeduplicatedCandidateMember, ScoredCandidate, ScoredCandidateSet, id_of}
use ctxalloc.Filter.Policy.{
  ApplicabilityReason, inapplicable, superseded, Exclusion, CandidateApplicability, FilteringIssue,
  applicability_scope_mismatch, missing_applicability_target, required_applicability_conflict,
  conflicting_applicability_declarations,
}

same_project : Option Text → Option Text → Bool
same_project none none = true
same_project none (some _) = false
same_project (some _) none = false
same_project (some a) (some b) = text_eq a b

-- `scopesEqual` of packages/domain/src/scope.ts
unfoldable pub scopes_equal : Scope → Scope → Bool
unfolding same_project
scopes_equal a b =
    text_eq a.tenant_id b.tenant_id
    && text_eq a.workspace_id b.workspace_id
    && same_project a.project_id b.project_id

-- The values of the map `groups`.
pub record Summary : Type 0 where
  pub id : Text
  pub required : Bool

-- `members.some((member) => member.candidate.block.attributes.required === true)`
unfoldable pub some_required : List DeduplicatedCandidateMember → Bool
some_required [] = false
some_required (m ∷ ms) = is_required m.candidate.block || some_required ms

abbrev pub summary_of : ScoredCandidate → Summary
summary_of c = record { id = id_of c; required = some_required c.candidate.members }

unfoldable pub enter_members :
    Summary → List DeduplicatedCandidateMember → Table Text Summary → Table Text Summary
enter_members s [] groups = groups
enter_members s (m ∷ ms) groups = enter_members s ms (put m.candidate.block.id s groups)

unfoldable pub enter_groups : List ScoredCandidate → Table Text Summary → Table Text Summary
unfolding enter_members
enter_groups [] groups = groups
enter_groups (c ∷ cs) groups =
    enter_groups cs (enter_members (summary_of c) c.candidate.members groups)

-- `ApplicabilityExclusionEvidence`
pub record ExclusionEvidence : Type 0 where
  pub reason : ApplicabilityReason
  pub declared_block_ids : List Text

abbrev pub same_reason : ApplicabilityReason → ApplicabilityReason → Bool
same_reason inapplicable inapplicable = true
same_reason inapplicable superseded = false
same_reason superseded inapplicable = false
same_reason superseded superseded = true

pub record Resolution : Type 0 where
  pub resolved : Table Text ExclusionEvidence
  pub issues : List FilteringIssue

abbrev pub report : FilteringIssue → Resolution → Resolution
report issue r = record r { issues = r.issues ++ issue ∷ [] }

-- A declaration for a group that has no required member.
unfoldable pub declare : Exclusion → Text → Resolution → Resolution
declare e id r = elim (get id r.resolved) [
  | none ↦ record r {
    resolved =
        put id (record { reason = e.reason; declared_block_ids = e.block_id ∷ [] }) r.resolved;
  }
  | some previous ↦
      if same_reason previous.reason e.reason
      then record r {
        resolved =
            put id
              (record previous {
                declared_block_ids = previous.declared_block_ids ++ e.block_id ∷ [];
              })
              r.resolved;
      }
      else report conflicting_applicability_declarations r
]

-- One entry of the policy.
unfoldable pub apply_entry : Table Text Summary → Exclusion → Resolution → Resolution
unfolding declare
apply_entry groups e r = elim (get e.block_id groups) [
  | none ↦ report missing_applicability_target r
  | some group ↦
      if group.required then report required_applicability_conflict r else declare e group.id r
]

unfoldable pub apply_entries : Table Text Summary → List Exclusion → Resolution → Resolution
apply_entries groups [] r = r
apply_entries groups (e ∷ es) r = apply_entries groups es (apply_entry groups e r)

-- The resolved map, or the issues where there are any.
abbrev pub settled : Resolution → Outcome FilteringIssue (Table Text ExclusionEvidence)
settled r = elim r.issues [ [] ↦ returned r.resolved | i ∷ is ↦ thrown (i ∷ is) ]

abbrev pub nothing_resolved : Resolution
nothing_resolved = record { resolved = []; issues = [] }

unfoldable pub resolve_applicability :
    CandidateApplicability
    → ScoredCandidateSet
    → Outcome FilteringIssue (Table Text ExclusionEvidence)
unfolding enter_groups apply_entries scopes_equal
resolve_applicability policy input =
    if scopes_equal policy.scope input.scope
    then settled (
        apply_entries (enter_groups input.candidates [])
          (sort (λ (a b : Exclusion). compare_code_units a.block_id b.block_id) policy.exclusions)
          nothing_resolved)
    else thrown (applicability_scope_mismatch ∷ [])
