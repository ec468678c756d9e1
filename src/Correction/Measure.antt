-- ===== src/Correction/Measure.antt =====
-- `selectionKey`, `sumTokens`, `#measure` and `#visit` of packages/compiler/src/context-compiler.ts.
-- The two maps of a search are passed along; a thrown error is the failure it carries.
use ctxalloc.Shared.{
  ℕ, ◌+◌, Bool, false, Option, none, some, List, [], ◌∷◌, ◌++◌, map, if◌then◌else◌, ltb, leb, ◌==◌,
  length, Text, compare_code_units, sort, contains, Table, get, put, text_key,
}
use ctxalloc.Shared.Json.{array, strings}
use ctxalloc.Shared.Outcome.{Outcome, returned, thrown, after}
use ctxalloc.Canonical.{canonical_json}
use ctxalloc.Domain.ContextBlock.{ContextBlock}
use ctxalloc.Candidates.{ScoredCandidate, block_of, tokens_of}
use ctxalloc.Orderer.Order.{order_candidates_for_rendering}
use ctxalloc.Renderer.Records.{render_ordered_candidates}
use ctxalloc.Renderer.Tokenizer.{
  Tokenizer, TokenizerCountResult, ok, threw, invalid, count_tokens_safely, max_safe_integer,
}

-- The issues of the correction, with the values that their messages print.
pub data CorrectionFailure : Type 0 where
  tokenizer_unusable : TokenizerCountResult → CorrectionFailure
  unreachable_minimum : Text → ℕ → ℕ → CorrectionFailure
  correction_search_limit_exceeded : ℕ → CorrectionFailure
  rendered_hard_constraints_exceed_budget : ℕ → ℕ → CorrectionFailure
  required_content_exceeds_budget : ℕ → ℕ → CorrectionFailure

pub record RenderMeasurement : Type 0 where
  pub blocks : List ContextBlock
  pub rendered_context : Text
  pub rendered_tokens : ℕ

pub record SearchState : Type 0 where
  pub measured : Table Text RenderMeasurement
  pub visited : List Text

-- The sorted identifiers, as one text.
unfoldable pub selection_key : List ContextBlock → Text
selection_key blocks =
    canonical_json (array (strings (sort compare_code_units (map (λ b. b.id) blocks))))

-- The loop of `sumTokens`, from a total on: `none` is `NaN`.
unfoldable pub sum_from : ℕ → List ℕ → Option ℕ
sum_from total [] = some total
sum_from total (n ∷ ns) =
    let rest = sum_from (total + n) ns in
    if leb n max_safe_integer
    then (if leb (total + n) max_safe_integer then rest else none)
    else none

unfoldable pub sum_tokens : List ℕ → Option ℕ
unfolding sum_from
sum_tokens values = sum_from 0 values

-- `sum > available`, which is false where the sum is `NaN`.
unfoldable pub exceeds : Option ℕ → ℕ → Bool
exceeds none available = false
exceeds (some sum) available = ltb available sum

abbrev pub blocks_of : List ScoredCandidate → List ContextBlock
blocks_of selection = map block_of selection

unfoldable pub measurement : List ContextBlock → ℕ → RenderMeasurement
measurement ordered tokens = record {
  blocks = ordered;
  rendered_context = render_ordered_candidates ordered;
  rendered_tokens = tokens;
}

unfoldable pub arranged : List ContextBlock → List ContextBlock
arranged blocks = order_candidates_for_rendering blocks (λ b. b)

module _ (tokenizer : Tokenizer) where
  -- A measurement that is not in the cache.
  unfoldable pub measure_anew :
      List ContextBlock
      → Table Text RenderMeasurement
      → Outcome CorrectionFailure (RenderMeasurement × Table Text RenderMeasurement)
  unfolding measurement arranged
  measure_anew blocks cache =
      elim (count_tokens_safely tokenizer (render_ordered_candidates (arranged blocks))) [
        | ok tokens ↦ returned (
          measurement (arranged blocks) tokens,
          put (selection_key blocks) (measurement (arranged blocks) tokens) cache,
        )
        | threw message ↦ thrown (tokenizer_unusable (threw message) ∷ [])
        | invalid answer ↦ thrown (tokenizer_unusable (invalid answer) ∷ [])
      ]

  unfoldable pub measure :
      List ContextBlock
      → Table Text RenderMeasurement
      → Outcome CorrectionFailure (RenderMeasurement × Table Text RenderMeasurement)
  unfolding measure_anew
  measure blocks cache = elim (get (selection_key blocks) cache) [
    | some m ↦ returned (m, cache)
    | none ↦ measure_anew blocks cache
  ]

  module _ (available max_selections : ℕ) where
    -- The first part of `#visit`: a new key is admitted under the bound.
    unfoldable pub admit : Text → SearchState → Outcome CorrectionFailure SearchState
    admit key s =
        if contains s.visited key
        then returned s
        else if length s.visited == max_selections
        then thrown (correction_search_limit_exceeded max_selections ∷ [])
        else returned (record s { visited = s.visited ++ key ∷ [] })

    -- The second part: no measurement where the content alone is over the ceiling.
    unfoldable pub measure_within :
        List ScoredCandidate
        → SearchState
        → Outcome CorrectionFailure (Option RenderMeasurement × SearchState)
    measure_within selection s =
        if exceeds (sum_tokens (map tokens_of selection)) available
        then returned (none, s)
        else after (measure (blocks_of selection) s.measured)
            (λ r. returned (some r.0, record s { measured = r.1 }))

    unfoldable pub visit :
        List ScoredCandidate
        → SearchState
        → Outcome CorrectionFailure (Option RenderMeasurement × SearchState)
    unfolding admit measure_within
    visit selection s =
        after (admit (selection_key (blocks_of selection)) s)
          (λ admitted. measure_within selection admitted)
