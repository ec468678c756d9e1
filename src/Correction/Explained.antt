-- ===== src/Correction/Explained.antt =====
-- What is said of the fallback of packages/compiler/src/context-compiler.ts: a settlement fits, and a
-- failure is what it says.
use ctxalloc.Shared.{
  true, ℕ, suc, ◌+◌, ◌≤◌, ◌<◌, ◌≡◌, List, [], ◌∷◌, ◌++◌, map, arith, length, All, Text, text_key,
  IsKeyed,
}
use ctxalloc.Shared.Outcome.{Outcome, returned, thrown}
use ctxalloc.Candidates.{ScoredCandidate}
use ctxalloc.Allocation.Policy.{CategoryConstraint}
use ctxalloc.Compiler.Enumerate.{cartesian}
use ctxalloc.Compiler.Grouping.{constraint_pairs}
use ctxalloc.Renderer.Tokenizer.{Tokenizer, TokenizerCountResult, count_tokens_safely}
use ctxalloc.Correction.Measure.{
  CorrectionFailure, tokenizer_unusable, unreachable_minimum, correction_search_limit_exceeded,
  rendered_hard_constraints_exceed_budget, required_content_exceeds_budget,
}
use ctxalloc.Correction.Deficits.{CategoryDeficit, category_deficits}
use ctxalloc.Correction.Fallback.{FallbackSearch, not_used, used, Settlement, flat}
use ctxalloc.Correction.Keys.{by_ids}
use ctxalloc.Correction.Spans.{IsPart}
use ctxalloc.Correction.Bounded.{KeepsBounds}
use ctxalloc.Correction.Eligible.{required_among, optional_among, valid_parts}
use ctxalloc.Correction.Visits.{IsFailure, Measures, HoldsContent, Overruns}

-- The hard bases.
abbrev pub bases_of : List CategoryDeficit → List (List ScoredCandidate)
bases_of ds = map flat (cartesian (map (λ d. d.combinations) ds))

-- The visits were counted, and are within the bound.
abbrev pub IsBounded : FallbackSearch → Type 0
IsBounded (not_used m) = Unit
IsBounded (used visits m phase chosen) = visits ≤ m

-- The probe, the bases and the valid parts.
abbrev pub to_visit : ℕ → Outcome CorrectionFailure (List CategoryDeficit) → ℕ
to_visit valid (returned ds) = suc (length (bases_of ds) + valid)
to_visit valid (thrown es) = 1

pub to_visit-positive :
    (valid : ℕ) (o : Outcome CorrectionFailure (List CategoryDeficit)) → 0 < to_visit valid o
to_visit-positive valid (returned ds) = omega arith
to_visit-positive valid (thrown es) = omega arith

module _ (tokenizer : Tokenizer) (available max_selections : ℕ) (eligible : List ScoredCandidate)
    (keyed : IsKeyed (by_ids eligible)) (constraints : List CategoryConstraint)
    (distinct : IsKeyed (constraint_pairs constraints)) where
  -- How many selections the fallback has to look at.
  abbrev pub selections_to_visit : ℕ
  selections_to_visit =
      to_visit (length (valid_parts eligible keyed constraints))
        (category_deficits constraints (required_among eligible) (optional_among eligible))

  -- No part that the policy admits fits the budget together with the required candidates.
  abbrev pub NothingFits : Type 0
  NothingFits =
      All (λ p. Overruns tokenizer available (required_among eligible ++ p))
        (valid_parts eligible keyed constraints)

  abbrev pub Explained : CorrectionFailure → Type 0
  Explained (tokenizer_unusable o) =
      IsFailure o × ((text : Text) × (count_tokens_safely tokenizer text ≡ o))
  Explained (unreachable_minimum t k n) =
      (n < k)
      × (category_deficits constraints (required_among eligible) (optional_among eligible)
          ≡ thrown (unreachable_minimum t k n ∷ []))
  Explained (correction_search_limit_exceeded m) = max_selections < selections_to_visit
  Explained (rendered_hard_constraints_exceed_budget visits a) =
      (visits ≤ max_selections) × NothingFits
  Explained (required_content_exceeds_budget visits a) = (visits ≤ max_selections) × NothingFits

  -- One issue is thrown, and it is true.
  abbrev pub Explains : List CorrectionFailure → Type 0
  Explains [] = ⊥
  Explains (f ∷ []) = Explained f
  Explains (f ∷ g ∷ fs) = ⊥

  pub unusable :
      (o : TokenizerCountResult) (text : Text)
      → count_tokens_safely tokenizer text ≡ o
      → IsFailure o
      → Explains (tokenizer_unusable o ∷ [])
  unusable o text e h = (h, (text, e))

  pub limit :
      max_selections < selections_to_visit
      → Explains (correction_search_limit_exceeded max_selections ∷ [])
  limit h = h

  -- The settlement is of the required candidates and a part of the others that together keep every
  -- category's bounds, measured and within the budget.
  abbrev pub Fits : Settlement → Type 0
  Fits s =
      ((picks : List ScoredCandidate) × IsPart (by_ids eligible) (optional_among eligible) picks
        × KeepsBounds constraints (required_among eligible ++ picks)
        × Measures tokenizer (required_among eligible ++ picks) s.measurement
        × HoldsContent available (required_among eligible ++ picks))
      × (s.measurement.rendered_tokens ≤ available)
      × IsBounded s.search
      × (s.rebuilt ≡ true)
