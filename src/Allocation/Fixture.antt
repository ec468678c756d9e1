-- ===== src/Allocation/Fixture.antt =====
-- A batch of four candidates for packages/compiler/src/budget-allocator.ts under a policy with one
-- constrained category.
use ctxalloc.Shared.{
  contains, text_key, sort, insert, text_eq, compare_code_units, get, put, ℕ, ◌≡◌, refl, Bool, true,
  Option, none, some, [], ◌∷◌, Text, units,
}
use ctxalloc.Shared.Json.{end}
use ctxalloc.Domain.ContextBlock.{Scope, markdown, ContextBlock}
use ctxalloc.Domain.TokenBudget.{TokenBudget, available_input_tokens, reserves_fit_total}
use ctxalloc.Candidates.{single_block, ScoredCandidate, ScoredCandidateSet}
use ctxalloc.Allocation.Issue.{Result, ok, err}
use ctxalloc.Allocation.Policy.{
  Policy, Allocator, construct, parse_policy, is_accepted, is_valid_constraint, all_valid,
  detect_duplicate_categories, duplicates_from, put_bound, min_lookup, max_lookup,
  constrained_categories, distinct_from,
}
use ctxalloc.Allocation.State.{
  State, start, views_from, compare_traversal, compare_required, compare_minimum_cost,
  compare_score_order, compare_eviction, bump, include, exclude,
}
use ctxalloc.Allocation.Passes.{
  detect_count_failures, maximum_issues, minimum_issues, picks, picks_of, allocate_required,
  reserve, has, at_maximum, consider, allocate_optional, give_back, evict,
}
use ctxalloc.Allocation.Allocate.{allocate, assemble, run_passes, views, eviction_order}
use ctxalloc.Allocation.Reconcile.{Allocated, expect, settle, sum_included, reconcile}
use ctxalloc.Domain.Unicode.{is_policy_string, is_category_string}
use ctxalloc.Domain.Serialized.{block_json}
use ctxalloc.Canonical.{canonical_json}

abbrev pub scope : Scope
scope = record { tenant_id = units "t"; workspace_id = units "w"; project_id = none }

abbrev pub block : Text → ℕ → Option Bool → Option Text → ContextBlock
block id tokens required category = record {
  id = id;
  scope = scope;
  source_document_id = units "doc";
  source_type = markdown;
  source_location = none;
  content = id;
  normalized_content_hash = id;
  token_count = tokens;
  heading_path = none;
  created_at = none;
  updated_at = none;
  attributes = record { required = required; priority = none; category = category };
  metadata = end;
}

abbrev pub scored : ℕ → ContextBlock → ℕ → ScoredCandidate
scored identity b total = record {
  identity = identity;
  candidate = record {
    canonical_block = b;
    canonical_selection_reason = single_block;
    members = [];
  };
  score = record { total = total; evidence = none; weight_of = λ _. none };
}

abbrev pub batch : ScoredCandidateSet
batch = record {
  scope = scope;
  evidence = none;
  source_documents = [];
  policy_id = units "scoring";
  policy_version = units "1";
  reference_time = units "2026-01-01T00:00:00.000Z";
  candidates =
      scored 0 (block (units "d") 4 none none) 9
      ∷ scored 1 (block (units "c") 2 none (some (units "facts"))) 5
      ∷ scored 2 (block (units "b") 3 none (some (units "facts"))) 7
      ∷ scored 3 (block (units "a") 5 (some true) none) 0
      ∷ [];
}

abbrev pub policy : Policy
policy = record {
  policy_id = units "allocation";
  policy_version = units "1";
  category_constraints =
      some (record { category = units "facts"; min_blocks = some 1; max_blocks = some 2 } ∷ []);
}

abbrev pub allocator : Allocator
allocator = record {
  policy = policy;
  min_blocks = (units "facts", 1) ∷ [];
  max_blocks = (units "facts", 2) ∷ [];
}

abbrev pub budget : TokenBudget
budget = record {
  total_tokens = 20;
  reserved_output_tokens = 5;
  reserved_system_tokens = none;
  reserved_tool_tokens = some 2;
  reserved_protocol_tokens = none;
}

-- The code that the tests run.
unfoldable pub code : Unit {0}
unfolding is_policy_string is_category_string text_eq get put construct parse_policy is_accepted
    is_valid_constraint all_valid detect_duplicate_categories duplicates_from put_bound min_lookup
    max_lookup constrained_categories contains distinct_from sort insert compare_code_units views
    views_from compare_traversal compare_required compare_minimum_cost compare_score_order
    compare_eviction bump include exclude detect_count_failures maximum_issues minimum_issues picks
    picks_of allocate_required reserve has at_maximum consider allocate_optional run_passes
    give_back evict eviction_order assemble expect settle sum_included reconcile allocate
    available_input_tokens reserves_fit_total canonical_json block_json
code = tt

pub built : construct policy ≡ ok allocator
unfolding code
built = refl

unfoldable pub final_state : Result State → State
final_state (ok s) = s
final_state (err is) = start 0

-- The tokens left at 13 available: the required a, then c for the minimum, then d, while b is too
-- large.
unfoldable pub outcome : Allocated
unfolding code final_state
outcome = assemble allocator batch budget (final_state (run_passes allocator batch 13))

pub allocated : allocate allocator batch budget ≡ ok outcome
unfolding code final_state outcome
allocated = refl

order : outcome.optional_eviction_order ≡ units "d" ∷ []
unfolding code final_state outcome
order = refl
