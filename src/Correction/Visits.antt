-- ===== src/Correction/Visits.antt =====
-- What `#measure`, `#visit` and the loops of the search in packages/compiler/src/context-compiler.ts
-- keep: each measurement in the cache is that of every selection with its key, and the visits are
-- within the bound.
use ctxalloc.Shared.{
  ℕ, suc, ◌≤◌, ◌<◌, ◌≡◌, refl, sym, ap, subst, ◌⊎◌, inl, inr, true, false, Option, none, some, List,
  [], ◌∷◌, ◌++◌, map, arith, Bool-cases, Option-cases, ◌==◌, ==_iff, length, length-append, Text,
  contains, All, All-put, All-get, Table, get, put, text_key,
}
use ctxalloc.Shared.Outcome.{Ends, after-Ends}
use ctxalloc.Candidates.{ScoredCandidate, tokens_of}
use ctxalloc.Renderer.Records.{render_ordered_candidates}
use ctxalloc.Renderer.Tokenizer.{
  Tokenizer, TokenizerCountResult, ok, threw, invalid, count_tokens_safely,
}
use ctxalloc.Renderer.Measures.{Counts, count_tokens_safely-Counts}
use ctxalloc.Correction.Measure.{
  CorrectionFailure, tokenizer_unusable, correction_search_limit_exceeded, RenderMeasurement,
  SearchState, selection_key, sum_tokens, exceeds, blocks_of, measurement, arranged, measure_anew,
  measure, admit, measure_within, visit,
}
use ctxalloc.Correction.Keys.{IsOf, IsUnique, arranged-selection_key}

abbrev pub IsFailure : TokenizerCountResult → Type 0
IsFailure (ok n) = ⊥
IsFailure (threw m) = Unit
IsFailure (invalid a) = Unit

-- The text that a selection renders to.
abbrev pub text_of : List ScoredCandidate → Text
text_of cs = render_ordered_candidates (arranged (blocks_of cs))

-- A measurement of a selection.
abbrev pub Measures : Tokenizer → List ScoredCandidate → RenderMeasurement → Type 0
Measures tokenizer cs m =
    (m.blocks ≡ arranged (blocks_of cs))
    × (m.rendered_context ≡ text_of cs)
    × Counts tokenizer (text_of cs) m.rendered_tokens

-- Known candidates, none of them twice.
abbrev pub IsSelection : Table Text ScoredCandidate → List ScoredCandidate → Type 0
IsSelection known cs = IsOf known cs × IsUnique cs

-- A measurement is that of every selection with the key.
abbrev pub Stands : Tokenizer → Table Text ScoredCandidate → Text → RenderMeasurement → Type 0
Stands tokenizer known key m =
    (cs : List ScoredCandidate)
    → IsSelection known cs
    → selection_key (blocks_of cs) ≡ key
    → Measures tokenizer cs m

abbrev pub IsCoherent :
    Tokenizer → Table Text ScoredCandidate → Table Text RenderMeasurement → Type 0
IsCoherent tokenizer known = All (λ e. Stands tokenizer known e.0 e.1)

-- The content is within the ceiling, or its sum is not safe.
abbrev pub HoldsContent : ℕ → List ScoredCandidate → Type 0
HoldsContent available cs = exceeds (sum_tokens (map tokens_of cs)) available ≡ false

-- A selection that the budget does not admit: its content is over the ceiling, or its text is.
abbrev pub Overruns : Tokenizer → ℕ → List ScoredCandidate → Type 0
Overruns tokenizer available cs =
    (exceeds (sum_tokens (map tokens_of cs)) available ≡ true)
    ⊎ ((n : ℕ) × Counts tokenizer (text_of cs) n × (available < n))

module _ (tokenizer : Tokenizer) (known : Table Text ScoredCandidate)
    (R : List CorrectionFailure → Type 0)
    (unusable : (o : TokenizerCountResult) (text : Text)
      → count_tokens_safely tokenizer text ≡ o
      → IsFailure o
      → R (tokenizer_unusable o ∷ [])) where
  abbrev pub MeasuredAs :
      List ScoredCandidate → RenderMeasurement × Table Text RenderMeasurement → Type 0
  MeasuredAs cs r = Measures tokenizer cs r.0 × IsCoherent tokenizer known r.1

  measured_anew :
      (cs : List ScoredCandidate) (cache : Table Text RenderMeasurement) (n : ℕ)
      → IsSelection known cs
      → IsCoherent tokenizer known cache
      → count_tokens_safely tokenizer (text_of cs) ≡ ok n
      → MeasuredAs cs (
        measurement (arranged (blocks_of cs)) n,
        put (selection_key (blocks_of cs)) (measurement (arranged (blocks_of cs)) n) cache,
      )
  unfolding measurement
  measured_anew cs cache n sel coherent counted =
      let counts = count_tokens_safely-Counts tokenizer (text_of cs) n counted in
      (
        (refl, refl, counts),
        All-put (Stands tokenizer known) (selection_key (blocks_of cs))
            (measurement (arranged (blocks_of cs)) n) cache
            (λ ds other same.
              let alike = arranged-selection_key known cs ds sel.0 other.0 sel.1 (sym same) in
              (
                alike,
                ap render_ordered_candidates alike,
                subst (λ bs. Counts tokenizer (render_ordered_candidates bs) n) alike counts,
              ))
            coherent,
      )

  measure_anew-Ends :
      (cs : List ScoredCandidate) (cache : Table Text RenderMeasurement)
      → IsSelection known cs
      → IsCoherent tokenizer known cache
      → Ends (MeasuredAs cs) R (measure_anew tokenizer (blocks_of cs) cache)
  unfolding measure_anew
  measure_anew-Ends cs cache sel coherent =
      by_count (count_tokens_safely tokenizer (text_of cs)) refl
    where
      by_count :
          (o : TokenizerCountResult)
          → count_tokens_safely tokenizer (text_of cs) ≡ o
          → Ends (MeasuredAs cs) R (measure_anew tokenizer (blocks_of cs) cache)
      by_count (ok n) e = rw (measure_anew, e) (measured_anew cs cache n sel coherent e)
      by_count (threw m) e = rw (measure_anew, e) (unusable (threw m) (text_of cs) e tt)
      by_count (invalid a) e = rw (measure_anew, e) (unusable (invalid a) (text_of cs) e tt)

  pub measure-Ends :
      (cs : List ScoredCandidate) (cache : Table Text RenderMeasurement)
      → IsSelection known cs
      → IsCoherent tokenizer known cache
      → Ends (MeasuredAs cs) R (measure tokenizer (blocks_of cs) cache)
  unfolding measure
  measure-Ends cs cache sel coherent =
      elim (Option-cases (get (selection_key (blocks_of cs)) cache)) [
        | inl absent ↦ rw (measure, absent) (measure_anew-Ends cs cache sel coherent)
        | inr (m, found) ↦
            rw (measure, found)
              (
                All-get (Stands tokenizer known) (selection_key (blocks_of cs)) m cache coherent
                    found cs sel refl,
                coherent,
              )
      ]

  module _ (available max_selections total : ℕ)
      (limit : max_selections < total
        → R (correction_search_limit_exceeded max_selections ∷ [])) where
    -- The cache is coherent, and so many selections at most were visited.
    pub record IsSearch (visits : ℕ) (s : SearchState) : Type 0 where
      pub coherent : IsCoherent tokenizer known s.measured
      pub counted : length s.visited ≤ visits
      pub bounded : length s.visited ≤ max_selections

    admit-Ends :
        (key : Text) (s : SearchState) (visits : ℕ)
        → IsSearch visits s
        → visits < total
        → Ends (IsSearch (suc visits)) R (admit tokenizer available max_selections key s)
    unfolding admit
    admit-Ends key s visits h room = elim (Bool-cases (contains s.visited key)) [
      | inl old ↦
          rw (admit, old)
            (record {
              coherent = h.coherent;
              counted = omega (arith, h.counted);
              bounded = h.bounded;
            })
      | inr new ↦ elim (Bool-cases (length s.visited == max_selections)) [
        | inl full ↦
            rw (admit, new, full)
              (limit
                (omega (arith, h.counted, room, (==_iff (length s.visited) max_selections).0 full)))
        | inr open_slot ↦
            rw (admit, new, open_slot)
              (record {
                coherent = h.coherent;
                counted = omega (arith, h.counted, length-append s.visited (key ∷ []));
                bounded = below s key h.bounded open_slot;
              })
      ]
    ]
      where
        below :
            (s : SearchState) (key : Text)
            → length s.visited ≤ max_selections
            → (length s.visited == max_selections) ≡ false
            → length (s.visited ++ key ∷ []) ≤ max_selections
        below s key h e = ground (arith, length-append s.visited (key ∷ []))

    -- What a visit answers of a selection.
    abbrev pub Answers : ℕ → List ScoredCandidate → Option RenderMeasurement × SearchState → Type 0
    Answers visits cs r = IsSearch visits r.1 × (elim r.0 [
      | none ↦ exceeds (sum_tokens (map tokens_of cs)) available ≡ true
      | some m ↦ Measures tokenizer cs m × HoldsContent available cs
    ])

    measure_within-Ends :
        (cs : List ScoredCandidate) (s : SearchState) (visits : ℕ)
        → IsSelection known cs
        → IsSearch visits s
        → Ends (Answers visits cs) R (measure_within tokenizer available max_selections cs s)
    unfolding measure_within
    measure_within-Ends cs s visits sel h =
        elim (Bool-cases (exceeds (sum_tokens (map tokens_of cs)) available)) [
          | inl over ↦ rw (measure_within, over) (h, over)
          | inr within ↦
              rw (measure_within, within)
                (after-Ends (MeasuredAs cs) (Answers visits cs) R
                  (measure tokenizer (blocks_of cs) s.measured) _
                  (measure-Ends cs s.measured sel h.coherent)
                  (λ r k. (
                    record { coherent = k.1; counted = h.counted; bounded = h.bounded },
                    (k.0, within),
                  )))
        ]

    pub visit-Ends :
        (cs : List ScoredCandidate) (s : SearchState) (visits : ℕ)
        → IsSelection known cs
        → IsSearch visits s
        → visits < total
        → Ends (Answers (suc visits) cs) R (visit tokenizer available max_selections cs s)
    unfolding visit
    visit-Ends cs s visits sel h room =
        after-Ends (IsSearch (suc visits)) (Answers (suc visits) cs) R
          (admit tokenizer available max_selections (selection_key (blocks_of cs)) s) _
          (admit-Ends (selection_key (blocks_of cs)) s visits h room)
          (λ t k. measure_within-Ends cs t (suc visits) sel k)
