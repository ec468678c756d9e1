-- ===== src/Filter/Tests.antt =====
-- The theorems about packages/compiler/src/candidate-filter.ts at a batch of four candidates: a
-- required one of no score, one that the policy excludes, one below the threshold, and another.
use ctxalloc.Shared.{
  ℕ, ◌+◌, ◌≤◌, ◌≡◌, refl, Bool, true, Option, none, some, List, [], ◌∷◌, map, arith, Text, units,
  text_eq, compare_code_units, sort, insert, get, put, text_key, weigh, count, All, Distinct,
  Ordering, ◌≢◌,
}
use mathlib.Core.List.{Permᴰ}
use ctxalloc.Shared.Outcome.{Outcome, returned, thrown}
use ctxalloc.Candidates.{
  same_block_id, single_block, ScoredCandidate, ScoredCandidateSet, id_of, required_of,
}
use ctxalloc.Allocation.Fixture.{scope, block}
use ctxalloc.Filter.Policy.{
  inapplicable, superseded, CandidateApplicability, Exclusion, CandidateFilteringPolicy,
  with_applicability, FilteringIssue,
}
use ctxalloc.Filter.Applicability.{
  scopes_equal, some_required, enter_members, enter_groups, declare, apply_entry, apply_entries,
  resolve_applicability,
}
use ctxalloc.Filter.Decide.{
  eligible_required, decide_threshold, decide, verdict_of, decide_all, is_incompatible,
  is_evidence_elsewhere, resolve_policy, filtered_set, FilteredCandidateSet, filter,
}
use ctxalloc.Filter.Guarantees.{dropped, Justified, filter-partitions, filter-justifies}
use ctxalloc.Filter.Exclusions.{by_block, filter-keeps_required, resolve_applicability_perm}

abbrev scored : ℕ → Text → Option Bool → ℕ → ScoredCandidate
scored identity id required total = record {
  identity = identity;
  candidate = record {
    canonical_block = block id 1 required none;
    canonical_selection_reason = single_block;
    members =
        record {
          candidate = record { block = block id 1 required none; retrieval = none };
          match_reason = same_block_id;
        }
        ∷ [];
  };
  score = record { total = total; evidence = none; weight_of = λ _. none };
}

abbrev batch : ScoredCandidateSet
batch = record {
  scope = scope;
  evidence = none;
  source_documents = [];
  policy_id = units "scoring";
  policy_version = units "1";
  reference_time = units "2026-01-01T00:00:00.000Z";
  candidates =
      scored 0 (units "a") none 9
      ∷ scored 1 (units "b") none 4
      ∷ scored 2 (units "c") none 2
      ∷ scored 3 (units "d") (some true) 0
      ∷ [];
}

abbrev applicability : CandidateApplicability
applicability = record {
  scope = scope;
  exclusions =
      record { block_id = units "b"; reason = superseded }
      ∷ record { block_id = units "a"; reason = inapplicable }
      ∷ [];
}

abbrev policy : CandidateFilteringPolicy
policy =
    with_applicability
      (record {
        policy_id = units "filter";
        policy_version = units "1";
        minimum_total_score = some 3;
      })
      (record applicability {
        exclusions = record { block_id = units "a"; reason = inapplicable } ∷ [];
      })

code : Unit {0}
unfolding scopes_equal some_required enter_members enter_groups declare apply_entry apply_entries
    resolve_applicability decide_threshold decide verdict_of decide_all is_incompatible
    is_evidence_elsewhere resolve_policy filtered_set filter sort insert text_eq compare_code_units
    get put
code = tt

result_of : Outcome FilteringIssue FilteredCandidateSet → FilteredCandidateSet
unfolding filtered_set
result_of (returned r) = r
result_of (thrown is) = filtered_set policy batch []

abbrev outcome : FilteredCandidateSet
unfolding code result_of
outcome = result_of (filter policy batch)

filtered : filter policy batch ≡ returned outcome
unfolding code result_of
filtered = refl

survivors : map id_of outcome.eligible.candidates ≡ units "b" ∷ units "d" ∷ []
unfolding code result_of
survivors = refl

filter-partitions_example :
    (map (λ d. d.candidate) outcome.decisions ≡ batch.candidates)
    × ((f : ScoredCandidate → ℕ)
        → weigh f outcome.eligible.candidates + weigh f (dropped outcome.decisions)
          ≡ weigh f batch.candidates)
filter-partitions_example = filter-partitions policy batch filtered

filter-justifies_example : All (λ d. Justified policy d.candidate d.verdict) outcome.decisions
filter-justifies_example = filter-justifies policy batch filtered

unique : (t : Text) → count (λ x. text_eq (id_of x) t) batch.candidates ≤ 1
unfolding text_eq
unique [] = omega arith
unique (c ∷ []) = ground arith
unique (c ∷ d ∷ t) = ground arith

coherent :
    All (λ c. required_of c ≡ true → some_required c.candidate.members ≡ true) batch.candidates
unfolding some_required
coherent = ((λ h. h), ((λ h. h), ((λ h. h), ((λ _. refl), tt))))

filter-keeps_required_example :
    All (λ d. required_of d.candidate ≡ true → d.verdict ≡ eligible_required) outcome.decisions
filter-keeps_required_example = filter-keeps_required policy batch unique coherent filtered

abbrev swapped : List Exclusion
swapped = elim applicability.exclusions [ (x ∷ y ∷ rest) ↦ y ∷ x ∷ rest | xs ↦ xs ]

after_not_eq : Ordering.gt ≢ Ordering.eq
after_not_eq t = absurd (ground arith)

distinct : Distinct by_block applicability.exclusions
unfolding code
distinct = ((after_not_eq, tt), (tt, tt))

resolve_applicability_perm_example :
    resolve_applicability (record applicability { exclusions = swapped }) batch
    ≡ resolve_applicability applicability batch
resolve_applicability_perm_example =
    resolve_applicability_perm applicability swapped batch (Permᴰ.swap refl refl) distinct
