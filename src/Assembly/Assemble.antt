-- ===== src/Assembly/Assemble.antt =====
-- `#assemble` of packages/compiler/src/context-compiler.ts and `settleCompilationTrace` of
-- packages/compiler/src/compilation-trace.ts. The digest of the rendered context is a parameter.
use ctxalloc.Shared.{ℕ, true, Option, List, [], ◌∷◌, map, Text}
use ctxalloc.Shared.Outcome.{Outcome, returned, thrown}
use ctxalloc.Correction.Measure.{sum_tokens}
use ctxalloc.Correction.Fallback.{Settlement}
use ctxalloc.Assembly.Numbers.{difference, minus}
use ctxalloc.Assembly.Trace.{validation_and_rendering, UnsettledTrace}
use ctxalloc.Assembly.Decisions.{final_decisions}
use ctxalloc.Assembly.Result.{
  ResultUsage, TraceSettlement, SettledTrace, CompilationResult, ResultRun, ResultIssue,
}
use ctxalloc.Assembly.Verify.{ids_of, verify_result}

unfoldable pub settle_compilation_trace : UnsettledTrace → Text → TraceSettlement → SettledTrace
settle_compilation_trace snapshot compilation_id settlement = record {
  settled = true;
  compilation_id = compilation_id;
  tokenizer_coverage = validation_and_rendering;
  groups = snapshot.groups;
  settlement = settlement;
}

-- What was verified, or what was found.
abbrev pub unless_found :
    List ResultIssue → CompilationResult → Outcome ResultIssue CompilationResult
unless_found [] result = returned result
unless_found (i ∷ is) result = thrown (i ∷ is)

module _ (hash_rendered_context : Text → Text) (run : ResultRun) (settlement : Settlement) where
  -- `includedContentTokens`
  abbrev pub included_content : Option ℕ
  included_content = sum_tokens (map (λ b. b.token_count) settlement.measurement.blocks)

  unfoldable pub usage_of : ResultUsage
  unfolding difference minus
  usage_of = record {
    candidate_tokens = run.candidate_tokens;
    included_content_tokens = included_content;
    compiled_tokens = settlement.measurement.rendered_tokens;
    available_tokens = run.stages.available_tokens;
    unused_tokens = difference run.stages.available_tokens settlement.measurement.rendered_tokens;
    rendering_token_delta = minus settlement.measurement.rendered_tokens included_content;
  }

  unfoldable pub trace_settlement : TraceSettlement
  unfolding usage_of final_decisions
  trace_settlement = record {
    correction_applied = settlement.correction_applied;
    initial_rendered_tokens = run.stages.rendered.rendered_tokens;
    evicted_block_ids = settlement.evicted_block_ids;
    fallback_search = settlement.search;
    decisions = final_decisions run.snapshot.groups settlement settlement.measurement.blocks;
    ordered_block_ids = ids_of settlement.measurement.blocks;
    rendered_context_hash = hash_rendered_context settlement.measurement.rendered_context;
    compiled_tokens = settlement.measurement.rendered_tokens;
    usage = record {
      available_input_tokens = run.stages.available_tokens;
      included_content_tokens = included_content;
      unused_tokens = usage_of.unused_tokens;
      rendering_token_delta = usage_of.rendering_token_delta;
    };
  }

  unfoldable pub assembled : CompilationResult
  unfolding trace_settlement settle_compilation_trace
  assembled = record {
    compilation_id = run.compilation_id;
    request_id = run.request_id;
    compiled_context = settlement.measurement.rendered_context;
    included_blocks = settlement.measurement.blocks;
    usage = usage_of;
    trace = settle_compilation_trace run.snapshot run.compilation_id trace_settlement;
  }

  unfoldable pub assemble : Outcome ResultIssue CompilationResult
  unfolding assembled verify_result
  assemble = unless_found (verify_result hash_rendered_context run assembled) assembled
