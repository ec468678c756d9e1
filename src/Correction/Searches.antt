-- ===== src/Correction/Searches.antt =====
-- What the loop over the optional parts in packages/compiler/src/context-compiler.ts ends with: a
-- part that fits, or the overruns of all.
use ctxalloc.Shared.{
  ℕ, suc, ◌+◌, ◌≤◌, ◌<◌, ◌≡◌, inl, inr, true, Option, none, some, List, [], ◌∷◌, ◌++◌, arith, tests,
  Bool-cases, ltb, length, Text, All, Table,
}
use ctxalloc.Shared.Outcome.{Outcome, Ends, Ends-map, after-Ends}
use ctxalloc.Candidates.{ScoredCandidate}
use ctxalloc.Renderer.Tokenizer.{Tokenizer, TokenizerCountResult, count_tokens_safely}
use ctxalloc.Correction.Measure.{
  CorrectionFailure, tokenizer_unusable, correction_search_limit_exceeded, RenderMeasurement,
  SearchState, visit,
}
use ctxalloc.Correction.Fallback.{Found, fitting, exhausted, proceed, find_fitting}
use ctxalloc.Correction.Visits.{
  IsFailure, Measures, IsSelection, Overruns, IsSearch, Answers, visit-Ends, HoldsContent,
}

module _ (tokenizer : Tokenizer) (known : Table Text ScoredCandidate)
    (R : List CorrectionFailure → Type 0)
    (unusable : (o : TokenizerCountResult) (text : Text)
      → count_tokens_safely tokenizer text ≡ o
      → IsFailure o
      → R (tokenizer_unusable o ∷ []))
    (available max_selections total : ℕ)
    (limit : max_selections < total → R (correction_search_limit_exceeded max_selections ∷ []))
    (required : List ScoredCandidate) (P : List ScoredCandidate → Type 0) where
  abbrev Searched : ℕ → SearchState → Type 0
  Searched = IsSearch tokenizer known R unusable available max_selections total limit

  -- A part that fits has the property of the parts; otherwise each part overruns the budget.
  abbrev pub Ending : ℕ → List (List ScoredCandidate) → Found → Type 0
  Ending visits parts f = elim f [
    | fitting picks m t ↦
        Searched visits t
        × Measures tokenizer (required ++ picks) m
        × (m.rendered_tokens ≤ available)
        × P picks
        × HoldsContent available (required ++ picks)
    | exhausted t ↦
        Searched visits t × All (λ p. Overruns tokenizer available (required ++ p)) parts
  ]

  later : (n m : ℕ) (s : SearchState) → n ≤ m → Searched n s → Searched m s
  later n m s h k = record {
    coherent = k.coherent;
    counted = omega (arith, h, k.counted);
    bounded = k.bounded;
  }

  -- What the rest ends with is what the whole ends with, where the first part overruns.
  one_more :
      (p : List ScoredCandidate) (parts : List (List ScoredCandidate)) (visits : ℕ) (f : Found)
      → Overruns tokenizer available (required ++ p)
      → Ending (suc visits + length parts) parts f
      → Ending (visits + length (p ∷ parts)) (p ∷ parts) f
  one_more p parts visits (fitting picks m t) h k = (
    later (suc visits + length parts) (visits + length (p ∷ parts)) t (omega arith) k.0,
    k.1,
    k.2,
    k.3,
    k.4,
  )
  one_more p parts visits (exhausted t) h k = (
    later (suc visits + length parts) (visits + length (p ∷ parts)) t (omega arith) k.0,
    (h, k.1),
  )

  overran :
      (p : List ScoredCandidate) (m : RenderMeasurement)
      → Measures tokenizer (required ++ p) m
      → ltb available m.rendered_tokens ≡ true
      → Overruns tokenizer available (required ++ p)
  overran p m h e = inr (m.rendered_tokens, h.2, omega (tests, e))

  proceeds :
      (p : List ScoredCandidate) (ps : List (List ScoredCandidate)) (visits : ℕ)
      (go_on : SearchState → Outcome CorrectionFailure Found)
      → P p
      → ((t : SearchState)
          → Searched (suc visits) t
          → Ends (Ending (suc visits + length ps) ps) R (go_on t))
      → (r : Option RenderMeasurement × SearchState)
      → Answers tokenizer known R unusable available max_selections total limit
          (suc visits)
          (required ++ p)
          r
      → Ends (Ending (visits + length (p ∷ ps)) (p ∷ ps)) R (proceed available p go_on r)
  unfolding proceed
  proceeds p ps visits go_on has go (none, t) (k, over) =
      Ends-map (Ending (suc visits + length ps) ps) (Ending (visits + length (p ∷ ps)) (p ∷ ps)) R
        (go_on t) (λ f. one_more p ps visits f (inl over)) (go t k)
  proceeds p ps visits go_on has go (some m, t) (k, answer) =
      elim (Bool-cases (ltb available m.rendered_tokens)) [
        | inl over ↦
            rw (proceed, over)
              (Ends-map (Ending (suc visits + length ps) ps)
                (Ending (visits + length (p ∷ ps)) (p ∷ ps)) R (go_on t)
                (λ f. one_more p ps visits f (overran p m answer.0 over)) (go t k))
        | inr within ↦
            rw (proceed, within)
              (
                later (suc visits) (visits + length (p ∷ ps)) t (omega arith) k,
                answer.0,
                omega (tests, within),
                has,
                answer.1,
              )
      ]

  pub find_fitting-Ends :
      (parts : List (List ScoredCandidate)) (visits : ℕ) (s : SearchState)
      → All (λ p. IsSelection known (required ++ p) × P p) parts
      → Searched visits s
      → visits + length parts ≤ total
      → Ends
          (Ending (visits + length parts) parts)
          R
          (find_fitting tokenizer available max_selections required parts s)
  unfolding find_fitting
  find_fitting-Ends [] visits s parts h room =
      (later visits (visits + length {A = List ScoredCandidate} []) s (omega arith) h, tt)
  find_fitting-Ends (p ∷ ps) visits s parts h room =
      after-Ends
        (Answers tokenizer known R unusable available max_selections total limit (suc visits)
          (required ++ p))
        (Ending (visits + length (p ∷ ps)) (p ∷ ps)) R
        (visit tokenizer available max_selections (required ++ p) s) _
        (visit-Ends tokenizer known R unusable available max_selections total limit (required ++ p)
          s visits parts.0.0 h (omega (arith, room)))
        (proceeds p ps visits (find_fitting tokenizer available max_selections required ps)
          parts.0.1 (λ t k. find_fitting-Ends ps (suc visits) t parts.1 k (omega (arith, room))))
