-- ===== src/Compilation/Tests.antt =====
-- The theorems about `compile` of packages/compiler/src/context-compiler.ts at a batch of three
-- candidates, under two budgets.
use ctxalloc.Shared.{weigh, ℕ, ◌≡◌, ◌≤◌, refl, List, [], ◌∷◌, text_key}
use ctxalloc.Shared.Outcome.{thrown}
use ctxalloc.Domain.TokenBudget.{available_input_tokens}
use ctxalloc.Candidates.{ScoredCandidate}
use ctxalloc.Allocation.Policy.{constraints_of}
use ctxalloc.Correction.Measure.{CorrectionFailure, rendered_hard_constraints_exceed_budget}
use ctxalloc.Correction.Settle.{CompilationRun, settle}
use ctxalloc.Correction.Keys.{by_ids}
use ctxalloc.Correction.Visits.{Measures, IsSelection, HoldsContent}
use ctxalloc.Correction.Eligible.{required_among}
use ctxalloc.Correction.Bounded.{KeepsBounds}
use ctxalloc.Correction.Explained.{IsBounded, Explains}
use ctxalloc.Correction.Initial.{eligible_of}
use ctxalloc.Correction.Fixture.{tokenizer}
use ctxalloc.Compilation.Compile.{
  CompilationException, context_compilation_error, correction_stage, at_correction, compile,
}
use ctxalloc.Compilation.Runs.{Staged, Failed}
use ctxalloc.Compilation.Fixture.{policy, scored, reserving, keyed, code, settles}
use ctxalloc.Compilation.Promises.{Staged-IsRun, compile-fits, compile-blames}

compile-fits_example :
    let c = settles.0 in
    ((cs : List ScoredCandidate) × (IsSelection (by_ids (eligible_of c.run)) cs
        × Measures tokenizer cs c.settlement.measurement
        × KeepsBounds (constraints_of policy.allocation) cs
        × HoldsContent (available_input_tokens (reserving 5)) cs
        × ((f : ScoredCandidate → ℕ) → weigh f (required_among (eligible_of c.run)) ≤ weigh f cs)))
    × (c.settlement.measurement.rendered_tokens ≤ available_input_tokens (reserving 5))
    × IsBounded c.settlement.search
compile-fits_example =
    compile-fits policy tokenizer 10 (reserving 5) scored keyed settles.0 settles.1

-- Four are left, and every text has more.
abbrev thrown_out : List CompilationException
thrown_out =
    context_compilation_error correction_stage
      (at_correction (rendered_hard_constraints_exceed_budget 4 4) ∷ [])
    ∷ []

fails : compile policy tokenizer 10 (reserving 11) scored ≡ thrown thrown_out
unfolding code
fails = refl

compile-blames_example :
    Failed policy tokenizer 10 (reserving 11) scored thrown_out
    × ((run : CompilationRun) (es : List CorrectionFailure)
          (staged : Staged policy tokenizer 10 (reserving 11) scored run)
        → settle tokenizer 10 run ≡ thrown es
        → let facts = Staged-IsRun policy tokenizer 10 (reserving 11) scored keyed run staged in
          Explains tokenizer run.available_tokens 10
            (eligible_of run)
            facts.keyed
            (constraints_of run.allocation_policy)
            facts.distinct
            es)
compile-blames_example =
    compile-blames policy tokenizer 10 (reserving 11) scored keyed thrown_out fails
