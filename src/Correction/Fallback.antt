-- ===== src/Correction/Fallback.antt =====
-- `#searchFallback` of packages/compiler/src/context-compiler.ts: the required-only probe, the hard
-- bases, and the rescue.
use ctxalloc.Shared.{
  ℕ, Bool, true, false, not, Option, none, some, List, [], ◌∷◌, ◌++◌, map, if◌then◌else◌, ltb,
  length, select, Text, contains, compare_code_units, sort, Table, put, text_key,
}
use ctxalloc.Shared.Outcome.{Outcome, returned, thrown, after}
use ctxalloc.Candidates.{ScoredCandidate, id_of, required_of}
use ctxalloc.Allocation.Policy.{CategoryConstraint}
use ctxalloc.Compiler.Budgets.{compare_rescue_order}
use ctxalloc.Compiler.Enumerate.{cartesian, policy_valid_optional_selections}
use ctxalloc.Renderer.Tokenizer.{Tokenizer}
use ctxalloc.Correction.Measure.{
  CorrectionFailure, rendered_hard_constraints_exceed_budget, required_content_exceeds_budget,
  RenderMeasurement, SearchState, visit,
}
use ctxalloc.Correction.Deficits.{CategoryDeficit, category_deficits}

pub data FinalIncludedReason : Type 0 where
  included_required included_category_minimum included_score_order
        included_render_aware_correction :
      FinalIncludedReason

pub data FallbackPhase : Type 0 where
  hard_base policy_selection_rescue : FallbackPhase

-- `CompilationTraceFallbackSearch`: what was visited and chosen, where the search was used.
pub data FallbackSearch : Type 0 where
  not_used : ℕ → FallbackSearch
  used : ℕ → ℕ → FallbackPhase → List Text → FallbackSearch

pub record Settlement : Type 0 where
  pub measurement : RenderMeasurement
  pub correction_applied : Bool
  pub evicted_block_ids : List Text
  pub search : FallbackSearch
  pub inclusion_reasons : Table Text FinalIncludedReason
  pub rebuilt : Bool

-- `picks.flat()`
unfoldable pub flat {ℓ} : {A : Type ℓ} → List (List A) → List A
flat [] = []
flat (xs ∷ xss) = xs ++ flat xss

-- `new Map(selection.map((candidate) => [candidate.id, reasonOf(candidate)]))`
unfoldable pub reasons_from :
    (ScoredCandidate → FinalIncludedReason)
    → List ScoredCandidate
    → Table Text FinalIncludedReason
    → Table Text FinalIncludedReason
reasons_from reason_of [] m = m
reasons_from reason_of (c ∷ cs) m = reasons_from reason_of cs (put (id_of c) (reason_of c) m)

-- What a search over optional parts ends with: the first part that fits, or none.
pub data Found : Type 0 where
  fitting : List ScoredCandidate → RenderMeasurement → SearchState → Found
  exhausted : SearchState → Found

-- What follows a visit: `continue`, or the part that fits.
unfoldable pub proceed :
    ℕ
    → List ScoredCandidate
    → (SearchState → Outcome CorrectionFailure Found)
    → Option RenderMeasurement × SearchState
    → Outcome CorrectionFailure Found
proceed available picks go_on (none, s) = go_on s
proceed available picks go_on (some m, s) = elim (ltb available m.rendered_tokens) [
  | true ↦ go_on s
  | false ↦ returned (fitting picks m s)
]

-- What follows a search: the settlement of the part that fits, or what comes next.
unfoldable pub conclude :
    (List ScoredCandidate → RenderMeasurement → SearchState → Settlement)
    → (SearchState → Outcome CorrectionFailure Settlement)
    → Found
    → Outcome CorrectionFailure Settlement
conclude settle_on next (fitting picks m t) = returned (settle_on picks m t)
conclude settle_on next (exhausted t) = next t

module _ (tokenizer : Tokenizer) (available max_selections : ℕ) where
  -- The loop over what a generator yields: the selections that are the required candidates and one
  -- optional part.
  unfoldable pub find_fitting :
      List ScoredCandidate
      → List (List ScoredCandidate)
      → SearchState
      → Outcome CorrectionFailure Found
  unfolding proceed
  find_fitting required [] s = returned (exhausted s)
  find_fitting required (picks ∷ rest) s =
      after (visit tokenizer available max_selections (required ++ picks) s)
        (proceed available picks (find_fitting required rest))

  -- `settle`
  unfoldable pub settled :
      List ScoredCandidate
      → RenderMeasurement
      → SearchState
      → List Text
      → FallbackPhase
      → (ScoredCandidate → FinalIncludedReason)
      → Settlement
  unfolding reasons_from
  settled selection m s evicted phase reason_of = record {
    measurement = m;
    correction_applied = true;
    evicted_block_ids = evicted;
    search =
        used (length s.visited) max_selections phase
          (sort compare_code_units (map id_of selection));
    inclusion_reasons = reasons_from reason_of selection [];
    rebuilt = true;
  }

  abbrev pub base_reason : List ScoredCandidate → ScoredCandidate → FinalIncludedReason
  base_reason picks c =
      if contains (map id_of picks) (id_of c) then included_category_minimum else included_required

  abbrev pub rescue_reason : ScoredCandidate → FinalIncludedReason
  rescue_reason c = if required_of c then included_required else included_render_aware_correction

  -- `#exhaustedFailure`
  unfoldable pub exhausted_failure : List CategoryDeficit → SearchState → CorrectionFailure
  exhausted_failure [] s = required_content_exceeds_budget (length s.visited) available
  exhausted_failure (d ∷ ds) s =
      rendered_hard_constraints_exceed_budget (length s.visited) available

  -- The third phase, and the failure where nothing fits.
  unfoldable pub rescue :
      List ScoredCandidate
      → List ScoredCandidate
      → List CategoryConstraint
      → List Text
      → List CategoryDeficit
      → SearchState
      → Outcome CorrectionFailure Settlement
  unfolding find_fitting settled exhausted_failure conclude
  rescue required optional constraints evicted deficits s =
      after
        (find_fitting required
          (policy_valid_optional_selections (sort compare_rescue_order optional) required
            constraints)
          s)
        (conclude
          (λ picks m t.
            settled (required ++ picks) m t evicted policy_selection_rescue rescue_reason)
          (λ t. thrown (exhausted_failure deficits t ∷ [])))

  -- The second phase.
  unfoldable pub hard_bases :
      List ScoredCandidate
      → List ScoredCandidate
      → List CategoryConstraint
      → List Text
      → List CategoryDeficit
      → SearchState
      → Outcome CorrectionFailure Settlement
  unfolding find_fitting settled rescue flat conclude
  hard_bases required optional constraints evicted deficits s =
      after (find_fitting required (map flat (cartesian (map (λ d. d.combinations) deficits))) s) (
        conclude
          (λ picks m t. settled (required ++ picks) m t evicted hard_base (base_reason picks))
          (rescue required optional constraints evicted deficits))

  unfoldable pub search_fallback :
      List ScoredCandidate
      → List CategoryConstraint
      → List Text
      → SearchState
      → Outcome CorrectionFailure Settlement
  unfolding hard_bases
  search_fallback eligible constraints evicted s =
      let required = select required_of eligible in
      let optional = select (λ c. not (required_of c)) eligible in
      after (visit tokenizer available max_selections required s) (λ probe.
        after (category_deficits constraints required optional)
          (λ deficits. hard_bases required optional constraints evicted deficits probe.1))
