-- ===== src/Filter/Decide.antt =====
-- `CandidateFilter.filter` and `#decide` of packages/compiler/src/candidate-filter.ts.
use ctxalloc.Shared.{
  ℕ, ◌&&◌, ◌||◌, not, Bool, true, false, Option, none, some, List, [], ◌∷◌, map, if◌then◌else◌,
  select, ltb, leb, Text, Table, get, text_key, or_zero,
}
use ctxalloc.Shared.Outcome.{Outcome, returned, thrown, after}
use ctxalloc.Candidates.{
  Component, Completeness, complete, incomplete, Observed, ScoredCandidate, ScoredCandidateSet,
  id_of, required_of, total_of,
}
use ctxalloc.Filter.Policy.{
  OnIncompleteEvidence, admit, reject, CandidateFilteringPolicy, base_of, applicability_of,
  evidence_policy, FilteringIssue, incompatible_evidence_policy, evidence_scope_mismatch,
  incomplete_admission_evidence,
}
use ctxalloc.Filter.Applicability.{ExclusionEvidence, scopes_equal, resolve_applicability}

-- `CandidateFilteringDecision` without its candidate.
pub data Verdict : Type 0 where
  eligible_required : Verdict
  -- the total, and the threshold where there is one
  eligible_policy : ℕ → Option ℕ → Verdict
  eligible_incomplete_evidence : ℕ → ℕ → List Component → Verdict
  filtered_score_below_minimum : ℕ → ℕ → Verdict
  filtered_applicability : ExclusionEvidence → Verdict

pub record Decision : Type 0 where
  pub candidate : ScoredCandidate
  pub verdict : Verdict

abbrev pub is_eligible : Verdict → Bool
is_eligible eligible_required = true
is_eligible (eligible_policy _ _) = true
is_eligible (eligible_incomplete_evidence _ _ _) = true
is_eligible (filtered_score_below_minimum _ _) = false
is_eligible (filtered_applicability _) = false

abbrev pub is_incomplete : Option Completeness → Bool
is_incomplete none = false
is_incomplete (some complete) = false
is_incomplete (some incomplete) = true

-- An observed component is incomplete and has a positive weight in the score.
abbrev pub is_gap : ScoredCandidate → Observed → Bool
is_gap c o = is_incomplete o.completeness && ltb 0 (or_zero (c.score.weight_of o.component))

-- The gaps of a candidate's evidence, which `filter` has found to be there.
unfoldable pub incomplete_components : ScoredCandidate → List Component
incomplete_components c = elim c.score.evidence [
  | none ↦ []
  | some observed ↦ map (λ o. o.component) (select (is_gap c) observed)
]

-- A candidate below the threshold, under a policy that reads evidence.
unfoldable pub decide_gaps :
    OnIncompleteEvidence → ScoredCandidate → ℕ → List Component → Outcome FilteringIssue Verdict
decide_gaps on_incomplete c minimum [] =
    returned (filtered_score_below_minimum (total_of c) minimum)
decide_gaps reject c minimum (g ∷ gs) = thrown (incomplete_admission_evidence (id_of c) ∷ [])
decide_gaps admit c minimum (g ∷ gs) =
    returned (eligible_incomplete_evidence (total_of c) minimum (g ∷ gs))

-- `#decide` of a candidate that is not required, under a threshold.
unfoldable pub decide_threshold :
    CandidateFilteringPolicy → ScoredCandidate → ℕ → Outcome FilteringIssue Verdict
unfolding decide_gaps
decide_threshold p c minimum =
    if leb minimum (total_of c)
    then returned (eligible_policy (total_of c) (some minimum))
    else elim (evidence_policy p) [
      | none ↦ returned (filtered_score_below_minimum (total_of c) minimum)
      | some on_incomplete ↦ decide_gaps on_incomplete c minimum (incomplete_components c)
    ]

unfoldable pub decide : CandidateFilteringPolicy → ScoredCandidate → Outcome FilteringIssue Verdict
unfolding decide_threshold
decide p c =
    if required_of c then returned eligible_required else elim (base_of p).minimum_total_score [
      | none ↦ returned (eligible_policy (total_of c) none)
      | some minimum ↦ decide_threshold p c minimum
    ]

unfoldable pub verdict_of :
    CandidateFilteringPolicy
    → Table Text ExclusionEvidence
    → ScoredCandidate
    → Outcome FilteringIssue Verdict
unfolding decide
verdict_of p excluded c = elim (get (id_of c) excluded) [
  | none ↦ decide p c
  | some exclusion ↦ returned (filtered_applicability exclusion)
]

-- The map over the candidates, which the first exception ends.
unfoldable pub decide_all :
    CandidateFilteringPolicy
    → Table Text ExclusionEvidence
    → List ScoredCandidate
    → Outcome FilteringIssue (List Decision)
unfolding verdict_of
decide_all p excluded [] = returned []
decide_all p excluded (c ∷ cs) = after (verdict_of p excluded c) (λ v.
    after (decide_all p excluded cs) (λ ds. returned (record { candidate = c; verdict = v } ∷ ds)))

pub record FilteredCandidateSet : Type 0 where
  pub scored : ScoredCandidateSet
  pub filtering_policy_id : Text
  pub filtering_policy_version : Text
  pub eligible : ScoredCandidateSet
  pub decisions : List Decision

abbrev pub is_given {ℓ} : {A : Type ℓ} → Option A → Bool
is_given none = false
is_given (some _) = true

unfoldable pub some_unobserved : List ScoredCandidate → Bool
some_unobserved [] = false
some_unobserved (c ∷ cs) = not (is_given c.score.evidence) || some_unobserved cs

-- The first test of `filter`: the policy and the batch disagree on evidence.
unfoldable pub is_incompatible : CandidateFilteringPolicy → ScoredCandidateSet → Bool
unfolding some_unobserved
is_incompatible p input = elim (is_given (evidence_policy p)) [
  | true ↦ not (is_given input.evidence) || some_unobserved input.candidates
  | false ↦ is_given input.evidence
]

unfoldable pub is_evidence_elsewhere : ScoredCandidateSet → Bool
is_evidence_elsewhere input = elim input.evidence [
  | none ↦ false
  | some declared ↦ not (scopes_equal declared.scope input.scope)
]

unfoldable pub resolve_policy :
    CandidateFilteringPolicy
    → ScoredCandidateSet
    → Outcome FilteringIssue (Table Text ExclusionEvidence)
resolve_policy p input = elim (applicability_of p) [
  | none ↦ returned []
  | some applicability ↦ resolve_applicability applicability input
]

unfoldable pub filtered_set :
    CandidateFilteringPolicy → ScoredCandidateSet → List Decision → FilteredCandidateSet
filtered_set p input ds = record {
  scored = input;
  filtering_policy_id = (base_of p).policy_id;
  filtering_policy_version = (base_of p).policy_version;
  eligible = record input {
    candidates = map (λ d. d.candidate) (select (λ d. is_eligible d.verdict) ds);
  };
  decisions = ds;
}

unfoldable pub filter :
    CandidateFilteringPolicy → ScoredCandidateSet → Outcome FilteringIssue FilteredCandidateSet
unfolding is_incompatible is_evidence_elsewhere resolve_policy decide_all filtered_set
filter p input =
    if is_incompatible p input
    then thrown (incompatible_evidence_policy ∷ [])
    else if is_evidence_elsewhere input
    then thrown (evidence_scope_mismatch ∷ [])
    else after (resolve_policy p input) (λ excluded.
      after (decide_all p excluded input.candidates) (λ ds. returned (filtered_set p input ds)))
