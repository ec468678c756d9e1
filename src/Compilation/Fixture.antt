-- ===== src/Compilation/Fixture.antt =====
-- A batch of three candidates that `compile` of packages/compiler/src/context-compiler.ts is tried on.
use ctxalloc.Shared.{ℕ, ◌≡◌, refl, none, units, get, text_key, text_eq, IsKeyed}
use ctxalloc.Shared.Outcome.{returned}
use ctxalloc.Domain.TokenBudget.{TokenBudget}
use ctxalloc.Domain.Unicode.{is_policy_string, is_blank}
use ctxalloc.Candidates.{ScoredCandidateSet}
use ctxalloc.Allocation.Fixture.{budget, batch}
use ctxalloc.Allocation.Fixture as Batch
use ctxalloc.Filter.Policy.{legacy, new_filter, parse_filtering_policy, is_valid_applicability}
use ctxalloc.Filter.Decide.{
  decide_threshold, decide, verdict_of, decide_all, is_incompatible, is_evidence_elsewhere,
  resolve_policy, filtered_set, filter,
}
use ctxalloc.Orderer.Order.{new_orderer, parse_ordering_policy}
use ctxalloc.Renderer.Tokenizer.{collect_tokenizer_port_issues}
use ctxalloc.Renderer.Render.{new_renderer, policy_issues}
use ctxalloc.Correction.Keys.{by_ids}
use ctxalloc.Correction.Fixture.{tokenizer, eligible}
use ctxalloc.Correction.Fixture as Choice
use ctxalloc.Compilation.Compile.{
  CompilationPolicy, Compilation, stage, run_filtering, run_allocation, run_ordering, run_rendering,
  correct, compile,
}

abbrev pub policy : CompilationPolicy
policy = record {
  filtering = legacy (record {
    policy_id = units "filtering";
    policy_version = units "1";
    minimum_total_score = none;
  });
  allocation = Choice.policy;
  ordering = record { policy_id = units "ordering"; policy_version = units "1" };
  rendering = record { policy_id = units "rendering"; policy_version = units "1" };
}

abbrev pub scored : ScoredCandidateSet
scored = record batch { candidates = eligible }

-- Fifteen tokens in all, of which some are reserved.
abbrev pub reserving : ℕ → TokenBudget
reserving n = record budget {
  total_tokens = 15;
  reserved_output_tokens = n;
  reserved_tool_tokens = none;
}

pub keyed : IsKeyed (by_ids scored.candidates)
unfolding get text_eq
keyed = (refl, (refl, (refl, tt)))

-- The definitions that a run of `compile` computes.
unfoldable pub code : Unit {0}
unfolding Batch.code Choice.code new_filter parse_filtering_policy is_valid_applicability
    decide_threshold decide verdict_of decide_all is_incompatible is_evidence_elsewhere
    resolve_policy filtered_set filter new_orderer parse_ordering_policy is_policy_string is_blank
    collect_tokenizer_port_issues new_renderer policy_issues stage run_filtering run_allocation
    run_ordering run_rendering correct compile
code = tt

-- Ten tokens are left for the input: something is settled.
unfoldable pub settles :
    (c : Compilation) × (compile policy tokenizer 10 (reserving 5) scored ≡ returned c)
unfolding code
settles = (_, refl)
