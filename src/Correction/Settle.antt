-- ===== src/Correction/Settle.antt =====
-- `#settle` of packages/compiler/src/context-compiler.ts: the allocator's selection as it was
-- rendered, then without more and more of what the allocator declared safe to give back, then the
-- fallback.
use ctxalloc.Shared.{
  ℕ, Bool, true, false, Option, none, some, List, [], ◌∷◌, ◌++◌, map, if◌then◌else◌, leb, Text,
  text_eq, Table, get, put, text_key,
}
use ctxalloc.Shared.Outcome.{Outcome, returned, after}
use ctxalloc.Candidates.{ScoredCandidate, block_of, id_of}
use ctxalloc.Filter.Decide.{FilteredCandidateSet}
use ctxalloc.Allocation.Policy.{Policy, constraints_of}
use ctxalloc.Allocation.State.{
  InclusionReason, included_required, included_category_minimum, included_score_order, Included,
}
use ctxalloc.Allocation.Reconcile.{Allocated}
use ctxalloc.Renderer.Tokenizer.{Tokenizer}
use ctxalloc.Renderer.Render.{RenderedContextAttempt}
use ctxalloc.Correction.Measure.{
  CorrectionFailure, RenderMeasurement, selection_key, blocks_of, measure,
}
use ctxalloc.Correction.Fallback.{FinalIncludedReason, Settlement, not_used, search_fallback}
use ctxalloc.Correction.Fallback

-- What the correction reads of `CompilationRun`.
pub record CompilationRun : Type 0 where
  pub allocation_policy : Policy
  pub available_tokens : ℕ
  pub filtered : FilteredCandidateSet
  pub allocated : Allocated
  pub rendered : RenderedContextAttempt

abbrev pub final_reason : InclusionReason → FinalIncludedReason
final_reason included_required = Fallback.included_required
final_reason included_category_minimum = Fallback.included_category_minimum
final_reason included_score_order = Fallback.included_score_order

-- `eligibleById`
unfoldable pub by_id :
    List ScoredCandidate → Table Text ScoredCandidate → Table Text ScoredCandidate
by_id [] m = m
by_id (c ∷ cs) m = by_id cs (put (id_of c) c m)

unfoldable pub allocator_reasons :
    List Included → Table Text FinalIncludedReason → Table Text FinalIncludedReason
allocator_reasons [] m = m
allocator_reasons (d ∷ ds) m =
    allocator_reasons ds (put (id_of d.candidate) (final_reason d.reason) m)

-- `eligibleById.get(block.id) ?? correctionCandidateOf(decision.candidate)`
abbrev pub or_else : Option ScoredCandidate → ScoredCandidate → ScoredCandidate
or_else none c = c
or_else (some e) c = e

-- `current`, at its start
unfoldable pub selected_by_id :
    Table Text ScoredCandidate
    → List Included
    → Table Text ScoredCandidate
    → Table Text ScoredCandidate
selected_by_id eligible [] m = m
selected_by_id eligible (d ∷ ds) m =
    selected_by_id eligible ds
      (put (id_of d.candidate) (or_else (get (id_of d.candidate) eligible) d.candidate) m)

-- `m.delete(key)`
unfoldable pub remove : Text → Table Text ScoredCandidate → Table Text ScoredCandidate
remove key [] = []
remove key ((j, c) ∷ m) = let rest = remove key m in if text_eq j key then m else (j, c) ∷ rest

-- `[...m.values()]`
abbrev pub values : Table Text ScoredCandidate → List ScoredCandidate
values m = map (λ e. e.1) m

-- What the evictions end with.
pub data Eviction : Type 0 where
  fits : RenderMeasurement → List Text → Eviction
  overruns : List Text → Table Text RenderMeasurement → Eviction

module _ (tokenizer : Tokenizer) where
  unfoldable pub evict_until_fits :
      ℕ
      → List Text
      → Table Text ScoredCandidate
      → List Text
      → Table Text RenderMeasurement
      → Outcome CorrectionFailure Eviction
  unfolding remove
  evict_until_fits available [] current evicted cache = returned (overruns evicted cache)
  evict_until_fits available (t ∷ ts) current evicted cache =
      after (measure tokenizer (blocks_of (values (remove t current))) cache) (λ r.
        elim (leb (r.0).rendered_tokens available) [
          | true ↦ returned (fits r.0 (evicted ++ t ∷ []))
          | false ↦ evict_until_fits available ts (remove t current) (evicted ++ t ∷ []) r.1
        ])

  -- Render attempt 0.
  abbrev pub initial : CompilationRun → RenderMeasurement
  initial run = record {
    blocks = map (λ d. block_of d.candidate) run.rendered.ordered.ordered_included;
    rendered_context = run.rendered.rendered_context;
    rendered_tokens = run.rendered.rendered_tokens;
  }

  module _ (max_selections : ℕ) where
    -- A settlement that keeps the allocator's reasons.
    abbrev pub kept : CompilationRun → RenderMeasurement → Bool → List Text → Settlement
    kept run m applied evicted = record {
      measurement = m;
      correction_applied = applied;
      evicted_block_ids = evicted;
      search = not_used max_selections;
      inclusion_reasons = allocator_reasons run.allocated.included [];
      rebuilt = false;
    }

    -- What follows the evictions.
    unfoldable pub after_evictions :
        CompilationRun → Eviction → Outcome CorrectionFailure Settlement
    after_evictions run (fits m evicted) = returned (kept run m true evicted)
    after_evictions run (overruns evicted cache) =
        search_fallback tokenizer run.available_tokens max_selections
          run.filtered.eligible.candidates (constraints_of run.allocation_policy) evicted
          (record { measured = cache; visited = [] })

    unfoldable pub settle : CompilationRun → Outcome CorrectionFailure Settlement
    unfolding evict_until_fits selected_by_id by_id allocator_reasons after_evictions
    settle run =
        if leb (initial run).rendered_tokens run.available_tokens
        then returned (kept run (initial run) false [])
        else after
            (evict_until_fits run.available_tokens run.allocated.optional_eviction_order
              (selected_by_id (by_id run.filtered.eligible.candidates []) run.allocated.included [])
              [] (put (selection_key (initial run).blocks) (initial run) []))
            (after_evictions run)
