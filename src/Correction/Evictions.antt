-- ===== src/Correction/Evictions.antt =====
-- The cheap path of `#settle` in packages/compiler/src/context-compiler.ts measures selections of
-- eligible candidates.
use ctxalloc.Shared.{
  weigh, weigh-append, one, text_eq_refl, ap, ◌∙◌, ◌+◌, ℕ, ◌≤◌, ◌≡◌, inl, inr, some, List, [], ◌∷◌,
  ◌++◌, map, arith, tests, Bool-cases, leb, Text, text_eq, Table, get, text_key,
}
use ctxalloc.Shared.Outcome.{Ends, after-Ends}
use ctxalloc.Candidates.{ScoredCandidate, id_of}
use ctxalloc.Renderer.Tokenizer.{Tokenizer, TokenizerCountResult, count_tokens_safely}
use ctxalloc.Correction.Measure.{
  CorrectionFailure, tokenizer_unusable, RenderMeasurement, blocks_of, measure,
}
use ctxalloc.Correction.Settle.{remove, values, Eviction, fits, overruns, evict_until_fits}
use ctxalloc.Correction.Keys.{IsOf}
use ctxalloc.Correction.Visits.{
  IsFailure, Measures, IsSelection, IsCoherent, MeasuredAs, measure-Ends,
}
use ctxalloc.Correction.Held.{HoldsKnown, remove-HoldsKnown, values-IsSelection}
use ctxalloc.Correction.Removals.{count-held, remove-weigh}
use mathlib.Core.List.{append_assoc}

-- A selection is what was included without a beginning of the surplus.
abbrev pub IsLessened : List ScoredCandidate → List ScoredCandidate → List ScoredCandidate → Type 0
IsLessened included surplus cs =
    (gone : List ScoredCandidate) × (rest : List ScoredCandidate) × (gone ++ rest ≡ surplus)
    × ((f : ScoredCandidate → ℕ) → weigh f cs + weigh f gone ≡ weigh f included)

module _ (tokenizer : Tokenizer) (known : Table Text ScoredCandidate)
    (included surplus : List ScoredCandidate)
    (within : (f : ScoredCandidate → ℕ) → weigh f surplus ≤ weigh f included)
    (R : List CorrectionFailure → Type 0)
    (unusable : (o : TokenizerCountResult) (text : Text)
      → count_tokens_safely tokenizer text ≡ o
      → IsFailure o
      → R (tokenizer_unusable o ∷ []))
    (available : ℕ) where
  -- What fits is the measurement of a selection, and the cache stays coherent.
  abbrev pub Evicted : Eviction → Type 0
  Evicted (fits m evicted) =
      ((cs : List ScoredCandidate) × IsSelection known cs
        × Measures tokenizer cs m
        × IsLessened included surplus cs)
      × (m.rendered_tokens ≤ available)
  Evicted (overruns evicted cache) = IsCoherent tokenizer known cache

  -- The next candidate of the surplus is still selected, and its removal leaves the others.
  lessen :
      (e : ScoredCandidate) (gone rest : List ScoredCandidate)
      (current : Table Text ScoredCandidate)
      → gone ++ e ∷ rest ≡ surplus
      → get (id_of e) known ≡ some e
      → HoldsKnown known current
      → ((f : ScoredCandidate → ℕ) → weigh f (values current) + weigh f gone ≡ weigh f included)
      → (f : ScoredCandidate → ℕ)
      → weigh f (values (remove (id_of e) current)) + weigh f (gone ++ e ∷ []) ≡ weigh f included
  lessen e gone rest current parts of_e h balanced f =
      let t = id_of e in
      let here = count-held known current t e h.0 of_e (
        ground (
          arith,
          balanced (λ c. one (text_eq (id_of c) t)),
          within (λ c. one (text_eq (id_of c) t)),
          ap (weigh (λ c. one (text_eq (id_of c) t))) parts,
          weigh-append (λ c. one (text_eq (id_of c) t)) gone (e ∷ rest),
          text_eq_refl t,
        )) in
      omega (arith, balanced f, remove-weigh f t current e here, weigh-append f gone (e ∷ []))

  pub evict_until_fits-Ends :
      (rest gone : List ScoredCandidate) (current : Table Text ScoredCandidate)
      (evicted : List Text) (cache : Table Text RenderMeasurement)
      → gone ++ rest ≡ surplus
      → IsOf known rest
      → ((f : ScoredCandidate → ℕ) → weigh f (values current) + weigh f gone ≡ weigh f included)
      → HoldsKnown known current
      → IsCoherent tokenizer known cache
      → Ends Evicted R (evict_until_fits tokenizer available (map id_of rest) current evicted cache)
  unfolding evict_until_fits
  evict_until_fits-Ends [] gone current evicted cache parts of_rest balanced h coherent = coherent
  evict_until_fits-Ends (e ∷ rest) gone current evicted cache parts of_rest balanced h coherent =
      let t = id_of e in
      let left = remove-HoldsKnown known t current h in
      let sel = values-IsSelection known (remove t current) left in
      let lessened = lessen e gone rest current parts of_rest.0 h balanced in
      let parts' = append_assoc gone (e ∷ []) rest ∙ parts in
      after-Ends (MeasuredAs tokenizer known R unusable (values (remove t current))) Evicted R
        (measure tokenizer (blocks_of (values (remove t current))) cache) _
        (measure-Ends tokenizer known R unusable (values (remove t current)) cache sel coherent)
        (λ r k. elim (Bool-cases (leb (r.0).rendered_tokens available)) [
          | inl within_budget ↦ rw within_budget (
            (values (remove t current), sel, k.0, (gone ++ e ∷ [], rest, parts', lessened)),
            omega (tests, within_budget),
          )
          | inr over ↦ rw over (
              evict_until_fits-Ends rest (gone ++ e ∷ []) (remove t current) (evicted ++ t ∷ []) r.1
                parts' of_rest.1 lessened left k.1)
        ])
