-- ===== src/Compilation/Compile.antt =====
-- The stages that `compile` of packages/compiler/src/context-compiler.ts runs on a scored batch, each
-- built from its slice of the policy, and the correction of what they render. The trace that is built
-- before the correction is left out, with the errors of its stage: the correction only attaches it to
-- its own errors.
use ctxalloc.Shared.{ℕ, Option, none, some, List, [], ◌∷◌, map}
use ctxalloc.Shared.Outcome.{Outcome, returned, thrown, after}
use ctxalloc.Domain.TokenBudget.{TokenBudget}
use ctxalloc.Candidates.{ScoredCandidateSet}
use ctxalloc.Filter.Policy.{CandidateFilteringPolicy, FilteringIssue, new_filter}
use ctxalloc.Filter.Decide.{FilteredCandidateSet, filter}
use ctxalloc.Allocation.Issue.{Issue, Result, ok, err, ◌>>=◌}
use ctxalloc.Allocation.Policy.{Policy, construct}
use ctxalloc.Allocation.Allocate.{allocate}
use ctxalloc.Allocation.Reconcile.{Allocated}
use ctxalloc.Orderer.Order.{OrderingPolicy, new_orderer, OrderedCandidateSet, order}
use ctxalloc.Renderer.Tokenizer.{Tokenizer}
use ctxalloc.Renderer.Render.{
  RenderingIssue, ContextRenderingPolicy, new_renderer, RenderedContextAttempt, render,
}
use ctxalloc.Correction.Measure.{CorrectionFailure}
use ctxalloc.Correction.Fallback.{Settlement}
use ctxalloc.Correction.Settle.{CompilationRun, settle}

-- The slices of a compilation policy.
pub record CompilationPolicy : Type 0 where
  pub filtering : CandidateFilteringPolicy
  pub allocation : Policy
  pub ordering : OrderingPolicy
  pub rendering : ContextRenderingPolicy

-- `ContextCompilationStage`
pub data CompilationStage : Type 0 where
  configuration_stage request_validation_stage candidate_validation_stage
        evidence_validation_stage :
      CompilationStage
  deduplication_stage scoring_stage filtering_stage allocation_stage ordering_stage
        rendering_stage :
      CompilationStage
  trace_stage correction_stage result_stage : CompilationStage

-- An issue of a stage, with its path below that stage.
pub data CompilationIssue : Type 0 where
  at_filtering : FilteringIssue → CompilationIssue
  at_allocation : Issue → CompilationIssue
  at_rendering : RenderingIssue → CompilationIssue
  at_correction : CorrectionFailure → CompilationIssue

-- What `compile` throws: an error of its own, or the orderer's, which `#stage` lets through as it is.
pub data CompilationException : Type 0 where
  context_compilation_error : CompilationStage → List CompilationIssue → CompilationException
  context_ordering_error : CompilationException

-- `#stage`, where the error of the stage is one that it unwraps. One exception is thrown.
unfoldable pub stage {ℓ} :
    {E : Type 0} {A : Type ℓ}
    → CompilationStage
    → (E → CompilationIssue)
    → Outcome E A
    → Outcome CompilationException A
stage name at (returned a) = returned a
stage name at (thrown issues) = thrown (context_compilation_error name (map at issues) ∷ [])

-- The two ways in which stages are written down here, as one.
abbrev pub of_result {ℓ} : {A : Type ℓ} → Result A → Outcome Issue A
of_result (ok a) = returned a
of_result (err issues) = thrown issues

abbrev pub of_option {ℓ} : {A : Type ℓ} → Option A → Outcome CompilationException A
of_option none = thrown (context_ordering_error ∷ [])
of_option (some a) = returned a

-- What is settled, with what was settled from.
pub record Compilation : Type 0 where
  pub run : CompilationRun
  pub settlement : Settlement

unfoldable pub run_filtering :
    CandidateFilteringPolicy → ScoredCandidateSet → Outcome FilteringIssue FilteredCandidateSet
run_filtering p scored = after (new_filter p) (λ policy. filter policy scored)

unfoldable pub run_allocation : Policy → FilteredCandidateSet → TokenBudget → Result Allocated
run_allocation p filtered budget = construct p >>= (λ a. allocate a filtered.eligible budget)

unfoldable pub run_ordering :
    OrderingPolicy → Allocated → Outcome CompilationException OrderedCandidateSet
run_ordering p allocated =
    after (of_option (new_orderer p)) (λ orderer. returned (order orderer allocated))

unfoldable pub run_rendering :
    ContextRenderingPolicy
    → Tokenizer
    → OrderedCandidateSet
    → Outcome RenderingIssue RenderedContextAttempt
run_rendering p tokenizer ordered =
    after (new_renderer p tokenizer) (λ renderer. render renderer ordered)

module _ (policy : CompilationPolicy) (tokenizer : Tokenizer) (max_selections : ℕ) where
  abbrev pub run_of : FilteredCandidateSet → Allocated → RenderedContextAttempt → CompilationRun
  run_of filtered allocated rendered = record {
    allocation_policy = policy.allocation;
    available_tokens = allocated.available_input_tokens;
    filtered = filtered;
    allocated = allocated;
    rendered = rendered;
  }

  unfoldable pub correct : CompilationRun → Outcome CompilationException Compilation
  unfolding stage
  correct run =
      after (stage correction_stage at_correction (settle tokenizer max_selections run))
        (λ settlement. returned (record { run = run; settlement = settlement }))

  unfoldable pub compile :
      TokenBudget → ScoredCandidateSet → Outcome CompilationException Compilation
  unfolding stage run_filtering run_allocation run_ordering run_rendering correct
  compile budget scored =
      after (stage filtering_stage at_filtering (run_filtering policy.filtering scored))
        (λ filtered.
          after
            (stage allocation_stage at_allocation
              (of_result (run_allocation policy.allocation filtered budget)))
            (λ allocated. after (run_ordering policy.ordering allocated) (λ ordered.
              after
                (stage rendering_stage at_rendering
                  (run_rendering policy.rendering tokenizer ordered))
                (λ rendered. correct (run_of filtered allocated rendered)))))
