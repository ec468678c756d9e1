-- ===== src/Correction/Guarantees.antt =====
-- What `#settle` of packages/compiler/src/context-compiler.ts promises of a run whose attempt was
-- rendered from the allocation.
use ctxalloc.Shared.{
  ◌+◌, weigh, ℕ, ◌≤◌, ◌≡◌, refl, sym, ◌∙◌, inl, inr, true, false, List, [], ◌∷◌, ◌++◌, map, arith,
  tests, Bool-cases, leb, weigh-map, Text, Table, put, text_key,
}
use ctxalloc.Shared.Outcome.{Ends, Ends-map, after-Ends}
use ctxalloc.Candidates.{ScoredCandidate, id_of, tokens_of}
use ctxalloc.Allocation.Policy.{constraints_of}
use ctxalloc.Allocation.State.{Included}
use ctxalloc.Orderer.Order.{ContextOrderer, order}
use ctxalloc.Orderer.Guarantees.{order-arranges}
use ctxalloc.Renderer.Tokenizer.{TokenizerCountResult, count_tokens_safely}
use ctxalloc.Renderer.Render.{ContextRenderer}
use ctxalloc.Correction.Measure.{CorrectionFailure, tokenizer_unusable, selection_key}
use ctxalloc.Correction.Fallback.{Settlement, search_fallback}
use ctxalloc.Correction.Settle.{
  CompilationRun, by_id, selected_by_id, Eviction, fits, overruns, evict_until_fits,
  after_evictions, initial, settle,
}
use ctxalloc.Correction.Keys.{by_ids}
use ctxalloc.Correction.Visits.{IsFailure, Measures, IsSelection, HoldsContent}
use ctxalloc.Correction.Content.{within-HoldsContent}
use ctxalloc.Correction.Spans.{IsPart}
use ctxalloc.Correction.Eligible.{part-IsSelection, required_among, optional_among}
use ctxalloc.Correction.Held.{selected_by_id-HoldsKnown}
use ctxalloc.Correction.Removals.{selected_by_id-weigh}
use ctxalloc.Correction.Settle.{values}
use ctxalloc.Correction.Measure.{RenderMeasurement}
use ctxalloc.Correction.Evictions.{IsLessened, Evicted, evict_until_fits-Ends}
use ctxalloc.Correction.Explained.{IsBounded, Explains, Fits}
use ctxalloc.Correction.Bounded.{
  KeepsBounds, AreFeasible, lessened-KeepsBounds, included-AreFeasible,
}
use ctxalloc.Correction.Ends.{search_fallback-Ends}
use ctxalloc.Correction.Initial.{
  eligible_of, included_of, IsRun, shown, shown-IsSelection, initial-Measures, initial-IsCoherent,
}

module _ (renderer : ContextRenderer) (orderer : ContextOrderer) (run : CompilationRun)
    (facts : IsRun renderer orderer run) (max_selections : ℕ) where
  -- A settlement is the measurement of a selection of eligible candidates that keeps every category's
  -- bounds, is within the budget and counts no more visits than the bound. The selection is what was included without a beginning of
  -- the surplus, or was rebuilt of all the required candidates and a part of the others.
  abbrev pub Selected : Settlement → List ScoredCandidate → Type 0
  Selected s cs =
      IsSelection (by_ids (eligible_of run)) cs
      × Measures renderer.tokenizer cs s.measurement
      × KeepsBounds (constraints_of run.allocation_policy) cs
      × HoldsContent run.available_tokens cs
      × (s.rebuilt ≡ false → IsLessened (included_of run) facts.surplus cs)
      × (s.rebuilt ≡ true
          → (picks : List ScoredCandidate) × IsPart (by_ids (eligible_of run))
              (optional_among (eligible_of run)) picks
            × (cs ≡ required_among (eligible_of run) ++ picks))

  abbrev pub Settles : Settlement → Type 0
  Settles s =
      ((cs : List ScoredCandidate) × Selected s cs)
      × (s.measurement.rendered_tokens ≤ run.available_tokens)
      × IsBounded s.search

  abbrev pub ExplainsRun : List CorrectionFailure → Type 0
  ExplainsRun =
      Explains renderer.tokenizer run.available_tokens max_selections (eligible_of run) facts.keyed
        (constraints_of run.allocation_policy) facts.distinct

  unusable_run :
      (o : TokenizerCountResult) (text : Text)
      → count_tokens_safely renderer.tokenizer text ≡ o
      → IsFailure o
      → ExplainsRun (tokenizer_unusable o ∷ [])
  unusable_run o text e h = (h, (text, e))

  not_kept : {P : Type 0} → true ≡ false → P
  not_kept e = absurd (cc)

  settled_fallback :
      (s : Settlement)
      → Fits renderer.tokenizer run.available_tokens max_selections
          (eligible_of run)
          facts.keyed
          (constraints_of run.allocation_policy)
          facts.distinct
          s
      → Settles s
  settled_fallback s h = (
    (
      required_among (eligible_of run) ++ h.0.0,
      (
        part-IsSelection (eligible_of run) facts.keyed h.0.0 h.0.1,
        h.0.3,
        h.0.2,
        h.0.4,
        (λ kept. not_kept (sym h.3 ∙ kept)),
        λ _. (h.0.0, h.0.1, refl),
      ),
    ),
    h.1,
    h.2,
  )

  -- What was included without a beginning of the surplus keeps the bounds.
  lessened-kept :
      (cs : List ScoredCandidate)
      → IsLessened (included_of run) facts.surplus cs
      → KeepsBounds (constraints_of run.allocation_policy) cs
  lessened-kept cs (gone, rest, parts, left) =
      lessened-KeepsBounds (constraints_of run.allocation_policy) (included_of run) gone cs
        facts.kept (facts.spare gone rest parts) left

  lessened-HoldsContent :
      (cs : List ScoredCandidate)
      → IsLessened (included_of run) facts.surplus cs
      → HoldsContent run.available_tokens cs
  lessened-HoldsContent cs (gone, rest, parts, left) =
      within-HoldsContent run.available_tokens cs (omega (arith, left tokens_of, facts.content))

  feasible : AreFeasible (constraints_of run.allocation_policy) (required_among (eligible_of run))
  feasible =
      included-AreFeasible (constraints_of run.allocation_policy) (included_of run)
        (required_among (eligible_of run)) facts.kept facts.required_included

  not_rebuilt : {P : Type 0} → false ≡ true → P
  not_rebuilt e = absurd (cc)

  evictions-Ends :
      (e : Eviction)
      → Evicted renderer.tokenizer
          (by_ids (eligible_of run))
          (included_of run)
          facts.surplus
          facts.surplus_within
          ExplainsRun
          unusable_run
          run.available_tokens
          e
      → Ends Settles ExplainsRun (after_evictions renderer.tokenizer max_selections run e)
  unfolding after_evictions
  evictions-Ends (fits m evicted) h = (
    (
      h.0.0,
      (
        h.0.1,
        h.0.2,
        lessened-kept h.0.0 h.0.3,
        lessened-HoldsContent h.0.0 h.0.3,
        (λ _. h.0.3),
        not_rebuilt,
      ),
    ),
    h.1,
    tt,
  )
  evictions-Ends (overruns evicted cache) h =
      Ends-map
        (Fits renderer.tokenizer run.available_tokens max_selections (eligible_of run) facts.keyed
          (constraints_of run.allocation_policy) facts.distinct)
        Settles ExplainsRun
        (search_fallback renderer.tokenizer run.available_tokens max_selections (eligible_of run)
          (constraints_of run.allocation_policy) evicted
          (record { measured = cache; visited = [] }))
        settled_fallback
        (search_fallback-Ends renderer.tokenizer run.available_tokens max_selections
          (eligible_of run) facts.keyed (constraints_of run.allocation_policy) facts.distinct
          feasible evicted cache h)

  abbrev at_start : Table Text ScoredCandidate
  at_start = selected_by_id (by_id (eligible_of run) []) run.allocated.included []

  abbrev cache : Table Text RenderMeasurement
  cache =
      put (selection_key (initial renderer.tokenizer run).blocks) (initial renderer.tokenizer run)
        []

  start-weigh :
      (f : ScoredCandidate → ℕ) → weigh f (values at_start) + weigh f [] ≡ weigh f (included_of run)
  start-weigh f = omega (
    arith,
    selected_by_id-weigh (eligible_of run) run.allocated.included [] facts.keyed facts.included.0
        (tt, tt) (λ t. omega (arith, facts.included.1 t)) f,
  )

  shown-weigh :
      (f : ScoredCandidate → ℕ)
      → weigh f (shown renderer orderer run facts) ≡ weigh f (included_of run)
  shown-weigh f = omega (
    arith,
    weigh-map f (λ (d : Included). d.candidate) run.allocated.included,
    weigh-map f (λ (d : Included). d.candidate) (order orderer run.allocated).ordered_included,
    (order-arranges orderer run.allocated).0 (λ d. f d.candidate),
  )

  shown-IsLessened : IsLessened (included_of run) facts.surplus (shown renderer orderer run facts)
  shown-IsLessened = ([], facts.surplus, refl, λ f. omega (arith, shown-weigh f))

  pub settle-Ends : Ends Settles ExplainsRun (settle renderer.tokenizer max_selections run)
  unfolding settle
  settle-Ends = elim (Bool-cases (leb run.rendered.rendered_tokens run.available_tokens)) [
    | inl within ↦
        rw (settle, within)
          (
            (
              (shown renderer orderer run facts),
              (
                (shown-IsSelection renderer orderer run facts),
                (initial-Measures renderer orderer run facts),
                lessened-kept (shown renderer orderer run facts) shown-IsLessened,
                lessened-HoldsContent (shown renderer orderer run facts) shown-IsLessened,
                (λ _. shown-IsLessened),
                not_rebuilt,
              ),
            ),
            omega (tests, within),
            tt,
          )
    | inr over ↦
        rw (settle, over, ← facts.published)
          (after-Ends
            (Evicted renderer.tokenizer (by_ids (eligible_of run)) (included_of run) facts.surplus
              facts.surplus_within ExplainsRun unusable_run run.available_tokens)
            Settles ExplainsRun
            (evict_until_fits renderer.tokenizer run.available_tokens (map id_of facts.surplus)
              at_start [] cache)
            _
            (evict_until_fits-Ends renderer.tokenizer (by_ids (eligible_of run)) (included_of run)
              facts.surplus facts.surplus_within ExplainsRun unusable_run run.available_tokens
              facts.surplus [] at_start [] cache refl facts.surplus_known start-weigh
              (selected_by_id-HoldsKnown (eligible_of run) run.allocated.included [] facts.keyed
                facts.included.0 (tt, tt))
              (initial-IsCoherent renderer orderer run facts))
            evictions-Ends)
  ]
