-- ===== src/Correction/Initial.antt =====
-- The run that `#settle` of packages/compiler/src/context-compiler.ts is given: its attempt is the
-- measurement of the allocation.
use ctxalloc.Shared.{
  weigh, count, ℕ, ◌≤◌, ◌≡◌, refl, sym, ap, subst, ◌∙◌, some, List, [], ◌∷◌, ◌++◌, map, arith, one,
  weigh-map, insert, sort, sort-All, IsSorted, All, All-under, All-over, Ordering, Text, text_eq,
  Table, get, put, text_key, IsKeyed,
}
use mathlib.Core.List.{map-map}
use ctxalloc.Shared.Outcome.{returned}
use ctxalloc.Candidates.{ScoredCandidate, block_of, id_of, tokens_of, required_of}
use ctxalloc.Allocation.Policy.{constraints_of}
use ctxalloc.Allocation.State.{Included}
use ctxalloc.Compiler.Grouping.{constraint_pairs}
use ctxalloc.Orderer.Compare.{compare_blocks}
use ctxalloc.Orderer.Order.{ContextOrderer, order, order_candidates_for_rendering}
use ctxalloc.Orderer.Guarantees.{order-arranges}
use ctxalloc.Renderer.Records.{render_ordered_candidates}
use ctxalloc.Renderer.Tokenizer.{count_tokens_safely}
use ctxalloc.Renderer.Render.{ContextRenderer, rendered_text, render}
use ctxalloc.Renderer.Measures.{Counts, render-attempt, count_tokens_safely-Counts}
use ctxalloc.Correction.Measure.{selection_key, blocks_of, arranged}
use ctxalloc.Correction.Settle.{CompilationRun, initial}
use ctxalloc.Correction.Keys.{by_ids, IsOf, arranged-selection_key}
use ctxalloc.Correction.Visits.{Measures, IsSelection, IsCoherent}
use ctxalloc.Correction.Bounded.{KeepsBounds, AreSpare}
use ctxalloc.Correction.Eligible.{required_among}

abbrev pub eligible_of : CompilationRun → List ScoredCandidate
eligible_of run = run.filtered.eligible.candidates

abbrev pub included_of : CompilationRun → List ScoredCandidate
included_of run = map (λ d. d.candidate) run.allocated.included

-- The stages before the correction: the attempt is the rendering of the allocation, whose inclusions
-- are eligible candidates, all the required ones among them, with a content within the ceiling, and
-- keep every category's bounds, also
-- without a beginning of the eviction order, and identifiers and categories occur once.
pub record IsRun (renderer : ContextRenderer) (orderer : ContextOrderer) (run : CompilationRun)
    : Type 0 where
  pub rendered : render renderer (order orderer run.allocated) ≡ returned run.rendered
  pub keyed : IsKeyed (by_ids (eligible_of run))
  pub distinct : IsKeyed (constraint_pairs (constraints_of run.allocation_policy))
  pub included : IsSelection (by_ids (eligible_of run)) (included_of run)
  -- the candidates of the eviction order
  pub surplus : List ScoredCandidate
  pub published : map id_of surplus ≡ run.allocated.optional_eviction_order
  pub surplus_known : IsOf (by_ids (eligible_of run)) surplus
  pub surplus_within : (f : ScoredCandidate → ℕ) → weigh f surplus ≤ weigh f (included_of run)
  pub surplus_optional : count required_of surplus ≡ 0
  pub required_included :
      (f : ScoredCandidate → ℕ)
      → weigh f (required_among (eligible_of run)) ≤ weigh f (included_of run)
  pub content : weigh tokens_of (included_of run) ≤ run.available_tokens
  pub kept : KeepsBounds (constraints_of run.allocation_policy) (included_of run)
  pub spare :
      (gone rest : List ScoredCandidate)
      → gone ++ rest ≡ surplus
      → AreSpare (constraints_of run.allocation_policy) (included_of run) gone

sort_sorted {ℓ} :
    {A : Type ℓ} (cmp : A → A → Ordering) (xs : List A) → IsSorted cmp xs → sort cmp xs ≡ xs
unfolding sort insert
sort_sorted cmp [] h = refl
sort_sorted cmp (x ∷ []) h = refl
sort_sorted cmp (x ∷ y ∷ xs) h = rw (sort_sorted cmp (y ∷ xs) h.1, h.0.0)

IsSorted-blocks :
    (ds : List Included)
    → IsSorted (λ a b. compare_blocks (block_of a.candidate) (block_of b.candidate)) ds
    → IsSorted compare_blocks (blocks_of (map (λ d. d.candidate) ds))
IsSorted-blocks [] h = tt
IsSorted-blocks (d ∷ ds) h = (
  All-under _ block_of (map (λ d. d.candidate) ds) (All-under _ (λ d. d.candidate) ds h.0),
  IsSorted-blocks ds h.1,
)

module _ (renderer : ContextRenderer) (orderer : ContextOrderer) (run : CompilationRun)
    (facts : IsRun renderer orderer run) where
  abbrev pub known : Table Text ScoredCandidate
  known = by_ids (eligible_of run)

  -- The included candidates in the rendering order.
  abbrev pub shown : List ScoredCandidate
  shown = map (λ d. d.candidate) (order orderer run.allocated).ordered_included

  known_included :
      All
        (λ d. get (id_of d.candidate) known ≡ some d.candidate)
        (order orderer run.allocated).ordered_included
  unfolding order order_candidates_for_rendering
  known_included =
      sort-All (λ a b. compare_blocks (block_of a.candidate) (block_of b.candidate)) _
        run.allocated.included
        (All-over _ (λ d. d.candidate) run.allocated.included facts.included.0)

  pub shown-IsSelection : IsSelection known shown
  shown-IsSelection = (
    All-under _ (λ d. d.candidate) (order orderer run.allocated).ordered_included known_included,
    λ t. omega (
      arith,
      facts.included.1 t,
      weigh-map (λ c. one (text_eq (id_of c) t)) (λ (d : Included). d.candidate)
          run.allocated.included,
      weigh-map (λ c. one (text_eq (id_of c) t)) (λ (d : Included). d.candidate)
          (order orderer run.allocated).ordered_included,
      (order-arranges orderer run.allocated).0 (λ d. one (text_eq (id_of d.candidate) t)),
    ),
  )

  arranged-shown : arranged (blocks_of shown) ≡ blocks_of shown
  unfolding arranged order_candidates_for_rendering
  arranged-shown = sort_sorted compare_blocks (blocks_of shown) (
      IsSorted-blocks (order orderer run.allocated).ordered_included
        (order-arranges orderer run.allocated).1)

  shown_blocks :
      map (λ d. block_of d.candidate) (order orderer run.allocated).ordered_included
      ≡ arranged (blocks_of shown)
  shown_blocks =
      sym (map-map block_of (λ d. d.candidate) (order orderer run.allocated).ordered_included)
      ∙ sym arranged-shown

  pub initial-Measures : Measures renderer.tokenizer shown (initial renderer.tokenizer run)
  unfolding rendered_text
  initial-Measures =
      let input = order orderer run.allocated in
      let (n, counted, same) =
        render-attempt renderer input run.rendered
          (count_tokens_safely renderer.tokenizer (rendered_text input)) refl facts.rendered in
      subst
        (λ a.
          (map (λ d. block_of d.candidate) a.ordered.ordered_included ≡ arranged (blocks_of shown))
          × (a.rendered_context ≡ render_ordered_candidates (arranged (blocks_of shown)))
          × Counts renderer.tokenizer (render_ordered_candidates (arranged (blocks_of shown)))
              a.rendered_tokens)
        same
        (
          shown_blocks,
          ap render_ordered_candidates shown_blocks,
          subst (λ bs. Counts renderer.tokenizer (render_ordered_candidates bs) n) shown_blocks
              (count_tokens_safely-Counts renderer.tokenizer (rendered_text input) n counted),
        )

  pub initial-IsCoherent : IsCoherent renderer.tokenizer known (
      put
        (selection_key (initial renderer.tokenizer run).blocks)
        (initial renderer.tokenizer run)
        [])
  unfolding put
  initial-IsCoherent = (
    λ cs sel same.
        let alike =
          arranged-selection_key known shown cs shown-IsSelection.0 sel.0 shown-IsSelection.1
            (ap selection_key (sym arranged-shown ∙ sym initial-Measures.0) ∙ sym same) in
        (
          initial-Measures.0 ∙ alike,
          initial-Measures.1 ∙ ap render_ordered_candidates alike,
          subst
              (λ bs.
                Counts renderer.tokenizer (render_ordered_candidates bs)
                  run.rendered.rendered_tokens)
              alike initial-Measures.2,
        ),
    tt,
  )
