-- ===== src/Compilation/Runs.antt =====
-- How `compile` of packages/compiler/src/context-compiler.ts ends: with the settlement of a run that
-- the stages made, or with the exception of the one stage that failed.
use ctxalloc.Shared.{
  ℕ, ◌≡◌, refl, sym, subst, ap, ◌∙◌, none, some, List, [], ◌∷◌, map, text_key, Option,
}
use ctxalloc.Shared.Outcome.{Outcome, returned, thrown, after, Ends, after-Ends}
use ctxalloc.Domain.TokenBudget.{TokenBudget}
use ctxalloc.Candidates.{ScoredCandidateSet}
use ctxalloc.Filter.Policy.{FilteringIssue, new_filter}
use ctxalloc.Filter.Decide.{FilteredCandidateSet, filter}
use ctxalloc.Filter.Decisions.{after-Steps}
use ctxalloc.Allocation.Issue.{Issue, Result, ok, err, Halves-ok}
use ctxalloc.Allocation.Policy.{Allocator, construct}
use ctxalloc.Allocation.Allocate.{allocate}
use ctxalloc.Allocation.Reconcile.{Allocated}
use ctxalloc.Orderer.Order.{ContextOrderer, new_orderer, OrderedCandidateSet, order}
use ctxalloc.Renderer.Tokenizer.{Tokenizer}
use ctxalloc.Renderer.Render.{
  ContextRenderer, RenderingIssue, new_renderer, RenderedContextAttempt, render,
}
use ctxalloc.Correction.Measure.{CorrectionFailure}
use ctxalloc.Correction.Settle.{CompilationRun, settle}
use ctxalloc.Compilation.Compile.{
  CompilationPolicy, CompilationStage, filtering_stage, allocation_stage, rendering_stage,
  correction_stage, CompilationException, context_compilation_error, context_ordering_error,
  CompilationIssue, at_filtering, at_allocation, at_rendering, at_correction, stage, of_result,
  of_option, Compilation, run_filtering, run_allocation, run_ordering, run_rendering, run_of,
  correct, compile,
}
use ctxalloc.Compilation.Inputs.{new_filter_same, new_orderer_same, new_renderer_same}

stage-Ends {ℓ κ} :
    {E : Type 0} {A : Type ℓ} (P : A → Type κ) (R : List CompilationException → Type κ)
    (name : CompilationStage) (at : E → CompilationIssue) (m : Outcome E A)
    → ((a : A) → m ≡ returned a → P a)
    → ((es : List E) → m ≡ thrown es → R (context_compilation_error name (map at es) ∷ []))
    → Ends P R (stage name at m)
unfolding stage
stage-Ends P R name at (returned a) k l = k a refl
stage-Ends P R name at (thrown es) k l = l es refl

module _ (policy : CompilationPolicy) (tokenizer : Tokenizer) (max_selections : ℕ)
    (budget : TokenBudget) (scored : ScoredCandidateSet) where
  abbrev pub renderer : ContextRenderer
  renderer = record { policy = policy.rendering; tokenizer = tokenizer }

  abbrev pub orderer : ContextOrderer
  orderer = record { policy = policy.ordering }

  -- The stages before the correction, as they returned.
  pub record Staged (run : CompilationRun) : Type 0 where
    pub allocator : Allocator
    pub filtered : filter policy.filtering scored ≡ returned run.filtered
    pub constructed : construct policy.allocation ≡ ok allocator
    pub allocated : allocate allocator run.filtered.eligible budget ≡ ok run.allocated
    pub rendered : render renderer (order orderer run.allocated) ≡ returned run.rendered
    pub governed : run.allocation_policy ≡ policy.allocation
    pub bounded : run.available_tokens ≡ run.allocated.available_input_tokens

  pub record Compiled (c : Compilation) : Type 0 where
    pub staged : Staged c.run
    pub settled : settle tokenizer max_selections c.run ≡ returned c.settlement

  -- What the filter and the allocator returned.
  pub record Allotted (filtered : FilteredCandidateSet) (allocated : Allocated) : Type 0 where
    pub kept : run_filtering policy.filtering scored ≡ returned filtered
    pub shared_out : run_allocation policy.allocation filtered budget ≡ ok allocated

  -- The stage that failed on what the stages before it returned, with its exception.
  pub data Failed (es : List CompilationException) : Type 0 where
    failed_filtering :
        (issues : List FilteringIssue)
        → run_filtering policy.filtering scored ≡ thrown issues
        → es ≡ context_compilation_error filtering_stage (map at_filtering issues) ∷ []
        → Failed es
    failed_allocation :
        (filtered : FilteredCandidateSet) (issues : List Issue)
        → run_filtering policy.filtering scored ≡ returned filtered
        → run_allocation policy.allocation filtered budget ≡ err issues
        → es ≡ context_compilation_error allocation_stage (map at_allocation issues) ∷ []
        → Failed es
    failed_ordering :
        (filtered : FilteredCandidateSet) (allocated : Allocated)
        → Allotted filtered allocated
        → new_orderer policy.ordering ≡ none
        → es ≡ context_ordering_error ∷ []
        → Failed es
    failed_rendering :
        (filtered : FilteredCandidateSet) (allocated : Allocated) (ordered : OrderedCandidateSet)
        (issues : List RenderingIssue)
        → Allotted filtered allocated
        → run_ordering policy.ordering allocated ≡ returned ordered
        → run_rendering policy.rendering tokenizer ordered ≡ thrown issues
        → es ≡ context_compilation_error rendering_stage (map at_rendering issues) ∷ []
        → Failed es
    failed_correction :
        (run : CompilationRun) (failures : List CorrectionFailure)
        → Staged run
        → settle tokenizer max_selections run ≡ thrown failures
        → es ≡ context_compilation_error correction_stage (map at_correction failures) ∷ []
        → Failed es

  filtering_same :
      (filtered : FilteredCandidateSet)
      → run_filtering policy.filtering scored ≡ returned filtered
      → filter policy.filtering scored ≡ returned filtered
  unfolding run_filtering
  filtering_same filtered h =
      let record { value = q; first = made; second = ran } =
        after-Steps (new_filter policy.filtering) _ h in
      subst (λ q. filter q scored ≡ returned filtered)
        (sym (new_filter_same policy.filtering q made)) ran

  rendering_same :
      (ordered : OrderedCandidateSet) (rendered : RenderedContextAttempt)
      → run_rendering policy.rendering tokenizer ordered ≡ returned rendered
      → render renderer ordered ≡ returned rendered
  unfolding run_rendering
  rendering_same ordered rendered h =
      let record { value = r; first = made; second = ran } =
        after-Steps (new_renderer policy.rendering tokenizer) _ h in
      subst (λ r. render r ordered ≡ returned rendered)
        (sym (new_renderer_same policy.rendering tokenizer r made)) ran

  abbrev Ordered : Allocated → OrderedCandidateSet → Type 0
  Ordered allocated ordered =
      (run_ordering policy.ordering allocated ≡ returned ordered)
      × (order orderer allocated ≡ ordered)

  abbrev ordered_by :
      Allocated → Option ContextOrderer → Outcome CompilationException OrderedCandidateSet
  ordered_by allocated o = after (of_option o) (λ orderer. returned (order orderer allocated))

  ordering-Ends :
      (filtered : FilteredCandidateSet) (allocated : Allocated)
      → Allotted filtered allocated
      → Ends (Ordered allocated) Failed (run_ordering policy.ordering allocated)
  unfolding run_ordering
  ordering-Ends filtered allocated allotted = by_orderer (new_orderer policy.ordering) refl
    where
      by_orderer :
          (o : Option ContextOrderer)
          → new_orderer policy.ordering ≡ o
          → Ends (Ordered allocated) Failed (ordered_by allocated o)
      by_orderer none e = failed_ordering filtered allocated allotted e refl
      by_orderer (some o) e =
          let same = ap (λ o. order o allocated) (new_orderer_same policy.ordering o e) in
          (ap (ordered_by allocated) e, same)

  correct-Ends :
      (run : CompilationRun)
      → Staged run
      → Ends Compiled Failed (correct policy tokenizer max_selections run)
  unfolding correct
  correct-Ends run staged =
      after-Ends (λ s. settle tokenizer max_selections run ≡ returned s) Compiled Failed
        (stage correction_stage at_correction (settle tokenizer max_selections run)) _
        (stage-Ends _ Failed correction_stage at_correction (settle tokenizer max_selections run)
          (λ s e. e) (λ es e. failed_correction run es staged e refl))
        (λ s e. record { staged = staged; settled = e })

  -- The stages after the allocation.
  abbrev rest_of : FilteredCandidateSet → Allocated → Outcome CompilationException Compilation
  rest_of filtered allocated = after (run_ordering policy.ordering allocated) (λ ordered.
      after (stage rendering_stage at_rendering (run_rendering policy.rendering tokenizer ordered))
        (λ rendered.
          correct policy tokenizer max_selections
            (run_of policy tokenizer max_selections filtered allocated rendered)))

  rest-Ends :
      (filtered : FilteredCandidateSet) (a : Allocator) (allocated : Allocated)
      → Allotted filtered allocated
      → construct policy.allocation ≡ ok a
      → allocate a filtered.eligible budget ≡ ok allocated
      → Ends Compiled Failed (rest_of filtered allocated)
  rest-Ends filtered a allocated allotted built selected =
      after-Ends (Ordered allocated) Compiled Failed _ _ (ordering-Ends filtered allocated allotted)
        (λ ordered in_order.
          after-Ends (λ rendered. render renderer ordered ≡ returned rendered) Compiled Failed _ _
            (stage-Ends _ Failed rendering_stage at_rendering
              (run_rendering policy.rendering tokenizer ordered)
              (λ rendered e. rendering_same ordered rendered e)
              (λ es e. failed_rendering filtered allocated ordered es allotted in_order.0 e refl))
            (λ rendered e.
              correct-Ends (run_of policy tokenizer max_selections filtered allocated rendered)
                (record {
                  allocator = a;
                  filtered = filtering_same filtered allotted.kept;
                  constructed = built;
                  allocated = selected;
                  rendered = ap (render renderer) in_order.1 ∙ e;
                  governed = refl;
                  bounded = refl;
                })))

  allocation-Ends :
      (filtered : FilteredCandidateSet)
      → run_filtering policy.filtering scored ≡ returned filtered
      → (r : Result Allocated) → run_allocation policy.allocation filtered budget ≡ r
      → Ends Compiled Failed
          (after (stage allocation_stage at_allocation (of_result r)) (rest_of filtered))
  unfolding run_allocation stage
  allocation-Ends filtered made (err es) e = failed_allocation filtered es made e refl
  allocation-Ends filtered made (ok allocated) e =
      let record { value = a; first = built; second = selected } =
        Halves-ok (construct policy.allocation) _ e in
      rest-Ends filtered a allocated (record { kept = made; shared_out = e }) built selected

  pub compile-Ends : Ends Compiled Failed (compile policy tokenizer max_selections budget scored)
  unfolding compile
  compile-Ends =
      after-Ends (λ filtered. run_filtering policy.filtering scored ≡ returned filtered) Compiled
        Failed _ _
        (stage-Ends _ Failed filtering_stage at_filtering (run_filtering policy.filtering scored)
          (λ _ e. e) (λ es e. failed_filtering es e refl))
        (λ filtered made.
          allocation-Ends filtered made (run_allocation policy.allocation filtered budget) refl)
