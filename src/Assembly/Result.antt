-- ===== src/Assembly/Result.antt =====
-- The result of packages/compiler/src/context-compiler.ts with its settled trace, and what
-- `verifyResult` can find. `none` stands for `NaN` in the sums.
use ctxalloc.Shared.{ℕ, Bool, Option, List, Text, text_key, identity_key}
use ctxalloc.Domain.ContextBlock.{ContextBlock}
use ctxalloc.Correction.Fallback.{FallbackSearch}
use ctxalloc.Correction.Settle.{CompilationRun}
use ctxalloc.Assembly.Numbers.{ℤ}
use ctxalloc.Assembly.Trace.{TraceGroup, TokenizerCoverage, UnsettledTrace}
use ctxalloc.Assembly.Decisions.{FinalDecision}

pub record ResultUsage : Type 0 where
  pub candidate_tokens : Option ℕ
  pub included_content_tokens : Option ℕ
  pub compiled_tokens : ℕ
  pub available_tokens : ℕ
  pub unused_tokens : ℤ
  pub rendering_token_delta : Option ℤ

pub record SettlementUsage : Type 0 where
  pub available_input_tokens : ℕ
  pub included_content_tokens : Option ℕ
  pub unused_tokens : ℤ
  pub rendering_token_delta : Option ℤ

-- `CompilationTraceSettlement`; its strategy is one literal.
pub record TraceSettlement : Type 0 where
  pub correction_applied : Bool
  pub initial_rendered_tokens : ℕ
  pub evicted_block_ids : List Text
  pub fallback_search : FallbackSearch
  pub decisions : List FinalDecision
  pub ordered_block_ids : List Text
  pub rendered_context_hash : Text
  pub compiled_tokens : ℕ
  pub usage : SettlementUsage

pub record SettledTrace : Type 0 where
  pub settled : Bool
  pub compilation_id : Text
  pub tokenizer_coverage : TokenizerCoverage
  pub groups : List TraceGroup
  pub settlement : TraceSettlement

pub record CompilationResult : Type 0 where
  pub compilation_id : Text
  pub request_id : Text
  pub compiled_context : Text
  pub included_blocks : List ContextBlock
  pub usage : ResultUsage
  pub trace : SettledTrace

-- `CompilationRun`, with what only the result reads.
pub record ResultRun : Type 0 where
  pub compilation_id : Text
  pub request_id : Text
  pub candidate_tokens : Option ℕ
  pub stages : CompilationRun
  pub snapshot : UnsettledTrace

-- What a check can find, each in one of `verifyResult`'s places.
pub data ResultIssue : Type 0 where
  compiled_tokens_unsafe compiled_tokens_over_available unused_tokens_wrong delta_unsafe delta_wrong
        candidate_tokens_unsafe included_content_wrong content_over_available included_twice :
      ResultIssue
  not_eligible required_absent below_minimum over_maximum filtered_included : Text → ResultIssue
  context_differs not_settled other_compilation_id wrong_coverage order_differs trace_tokens_differ
        trace_hash_differs trace_usage_differs decisions_incomplete positions_incomplete :
      ResultIssue
