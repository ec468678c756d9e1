-- ===== src/Correction/Ends.antt =====
-- What the fallback of packages/compiler/src/context-compiler.ts ends with: a selection that fits, or
-- a failure that is what it says.
use ctxalloc.Shared.{
  ℕ, ◌+◌, ◌≤◌, ◌<◌, ◌≡◌, refl, sym, ap, subst, ◌∙◌, List, [], ◌∷◌, ◌++◌, arith, length, All,
  All-map, Text, Table, text_key, IsKeyed,
}
use mathlib.Core.List.{append-nil}
use ctxalloc.Shared.Outcome.{Outcome, returned, thrown, after, Ends, after-Ends}
use ctxalloc.Candidates.{ScoredCandidate}
use ctxalloc.Allocation.Policy.{CategoryConstraint}
use ctxalloc.Compiler.Grouping.{constraint_pairs}
use ctxalloc.Renderer.Tokenizer.{Tokenizer, TokenizerCountResult, count_tokens_safely}
use ctxalloc.Correction.Measure.{
  CorrectionFailure, tokenizer_unusable, unreachable_minimum, correction_search_limit_exceeded,
  RenderMeasurement, SearchState, visit,
}
use ctxalloc.Correction.Deficits.{CategoryDeficit, category_deficits}
use ctxalloc.Correction.Fallback.{
  FinalIncludedReason, FallbackPhase, Settlement, Found, fitting, exhausted, find_fitting, conclude,
  settled, base_reason, rescue_reason, hard_base, policy_selection_rescue, exhausted_failure,
  rescue, hard_bases, search_fallback,
}
use ctxalloc.Correction.Keys.{by_ids}
use ctxalloc.Correction.Spans.{IsPart}
use ctxalloc.Correction.Bases.{IsBase, category_deficits-Ends}
use ctxalloc.Correction.Bounded.{AreFeasible}
use ctxalloc.Correction.Parts.{IsValidPart, valid_parts-IsValidPart, bases-IsValidPart}
use ctxalloc.Correction.Eligible.{
  required_among, optional_among, valid_parts, part-IsSelection, optional-IsOf, rescue-valid_parts,
}
use ctxalloc.Correction.Visits.{
  IsFailure, Measures, HoldsContent, IsSelection, IsCoherent, Overruns, IsSearch, Answers,
  visit-Ends,
}
use ctxalloc.Correction.Searches.{Ending, find_fitting-Ends}
use ctxalloc.Correction.Explained.{
  bases_of, to_visit, to_visit-positive, selections_to_visit, NothingFits, Explains, Fits, unusable,
  limit,
}

module _ (tokenizer : Tokenizer) (available max_selections : ℕ) (eligible : List ScoredCandidate)
    (keyed : IsKeyed (by_ids eligible)) (constraints : List CategoryConstraint)
    (distinct : IsKeyed (constraint_pairs constraints))
    (feasible : AreFeasible constraints (required_among eligible)) where
  -- The statements about this search.
  abbrev to_look_at : ℕ
  to_look_at =
      selections_to_visit tokenizer available max_selections eligible keyed constraints distinct

  abbrev Exhausted : Type 0
  Exhausted = NothingFits tokenizer available max_selections eligible keyed constraints distinct

  abbrev Blames : List CorrectionFailure → Type 0
  Blames = Explains tokenizer available max_selections eligible keyed constraints distinct

  abbrev Suits : Settlement → Type 0
  Suits = Fits tokenizer available max_selections eligible keyed constraints distinct

  abbrev blamed :
      (o : TokenizerCountResult) (text : Text)
      → count_tokens_safely tokenizer text ≡ o
      → IsFailure o
      → Blames (tokenizer_unusable o ∷ [])
  blamed = unusable tokenizer available max_selections eligible keyed constraints distinct

  abbrev cut_off :
      max_selections < to_look_at → Blames (correction_search_limit_exceeded max_selections ∷ [])
  cut_off = limit tokenizer available max_selections eligible keyed constraints distinct

  -- One category is short of its minimum.
  abbrev IsShort : List CorrectionFailure → Type 0
  IsShort es = (t : Text) × (k : ℕ) × (n : ℕ) × (n < k) × (es ≡ unreachable_minimum t k n ∷ [])

  short : (t : Text) (k n : ℕ) → n < k → IsShort (unreachable_minimum t k n ∷ [])
  short t k n h = (t, k, n, h, refl)

  short-Blames :
      (es : List CorrectionFailure)
      → category_deficits constraints (required_among eligible) (optional_among eligible)
        ≡ thrown es
      → IsShort es
      → Blames es
  short-Blames es e (t, k, n, h, same) = subst Blames (sym same) (h, e ∙ ap thrown same)

  abbrev Searched : ℕ → SearchState → Type 0
  Searched =
      IsSearch tokenizer (by_ids eligible) Blames blamed available max_selections to_look_at cut_off

  abbrev Part : List ScoredCandidate → Type 0
  Part = IsValidPart eligible keyed constraints

  abbrev Ended : ℕ → List (List ScoredCandidate) → Found → Type 0
  Ended =
      Ending tokenizer (by_ids eligible) Blames blamed available max_selections to_look_at cut_off
        (required_among eligible) Part

  find-Ends :
      (parts : List (List ScoredCandidate)) (visits : ℕ) (s : SearchState)
      → All Part parts
      → Searched visits s
      → visits + length parts ≤ to_look_at
      → Ends
          (Ended (visits + length parts) parts)
          Blames
          (find_fitting tokenizer available max_selections (required_among eligible) parts s)
  find-Ends parts visits s h =
      find_fitting-Ends tokenizer (by_ids eligible) Blames blamed available max_selections
        to_look_at cut_off (required_among eligible) Part parts visits s
        (All-map parts (λ p part. (part-IsSelection eligible keyed p part.0, part)) h)

  exhausted-Blames :
      (ds : List CategoryDeficit) (t : SearchState)
      → length t.visited ≤ max_selections
      → Exhausted
      → Blames (exhausted_failure tokenizer available max_selections ds t ∷ [])
  unfolding exhausted_failure
  exhausted-Blames [] t h k = (h, k)
  exhausted-Blames (d ∷ ds) t h k = (h, k)

  settled-Suits :
      (picks : List ScoredCandidate) (m : RenderMeasurement) (t : SearchState) (evicted : List Text)
      (phase : FallbackPhase) (reason_of : ScoredCandidate → FinalIncludedReason) (visits : ℕ)
      → Searched visits t
      → Measures tokenizer (required_among eligible ++ picks) m
      → m.rendered_tokens ≤ available
      → Part picks
      → HoldsContent available (required_among eligible ++ picks)
      → Suits (
          settled tokenizer available max_selections
            (required_among eligible ++ picks)
            m
            t
            evicted
            phase
            reason_of)
  unfolding settled
  settled-Suits picks m t evicted phase reason_of visits h measures within part content =
      ((picks, part.0, part.1, measures, content), within, h.bounded, refl)

  conclude-Ends :
      (parts : List (List ScoredCandidate)) (visits : ℕ) (evicted : List Text)
      (phase : FallbackPhase)
      (reason_of : List ScoredCandidate → ScoredCandidate → FinalIncludedReason)
      (next : SearchState → Outcome CorrectionFailure Settlement)
      → ((t : SearchState)
          → Searched visits t
          → All (λ p. Overruns tokenizer available (required_among eligible ++ p)) parts
          → Ends Suits Blames (next t))
      → (f : Found) → Ended visits parts f
      → Ends Suits Blames (
          conclude
            (λ picks m t.
              settled tokenizer available max_selections
                (required_among eligible ++ picks)
                m
                t
                evicted
                phase
                (reason_of picks))
            next
            f)
  unfolding conclude
  conclude-Ends parts visits evicted phase reason_of next go (fitting picks m t) k =
      settled-Suits picks m t evicted phase (reason_of picks) visits k.0 k.1 k.2 k.3 k.4
  conclude-Ends parts visits evicted phase reason_of next go (exhausted t) k = go t k.0 k.1

  rescue-Ends :
      (evicted : List Text) (ds : List CategoryDeficit) (visits : ℕ) (s : SearchState)
      → Searched visits s
      → visits + length (valid_parts eligible keyed constraints) ≤ to_look_at
      → Ends Suits Blames (
          rescue tokenizer available max_selections
            (required_among eligible)
            (optional_among eligible)
            constraints
            evicted
            ds
            s)
  unfolding rescue
  rescue-Ends evicted ds visits s h room =
      let parts = valid_parts eligible keyed constraints in
      rw (rescue, rescue-valid_parts eligible keyed constraints distinct)
        (after-Ends (Ended (visits + length parts) parts) Suits Blames
          (find_fitting tokenizer available max_selections (required_among eligible) parts s) _
          (find-Ends parts visits s (valid_parts-IsValidPart eligible keyed constraints) h room)
          (conclude-Ends parts (visits + length parts) evicted policy_selection_rescue
            (λ _. rescue_reason tokenizer available max_selections) _
            (λ t k over. exhausted-Blames ds t k.bounded over)))

  hard_bases-Ends :
      (evicted : List Text) (ds : List CategoryDeficit) (s : SearchState)
      → All Part (bases_of ds)
      → Searched 1 s
      → 1 + length (bases_of ds) + length (valid_parts eligible keyed constraints) ≤ to_look_at
      → Ends Suits Blames (
          hard_bases tokenizer available max_selections
            (required_among eligible)
            (optional_among eligible)
            constraints
            evicted
            ds
            s)
  unfolding hard_bases
  hard_bases-Ends evicted ds s parts h room =
      after-Ends (Ended (1 + length (bases_of ds)) (bases_of ds)) Suits Blames
        (find_fitting tokenizer available max_selections (required_among eligible) (bases_of ds) s)
        _ (find-Ends (bases_of ds) 1 s parts h (omega (arith, room)))
        (conclude-Ends (bases_of ds) (1 + length (bases_of ds)) evicted hard_base
          (λ picks. base_reason tokenizer available max_selections picks) _
          (λ t k over. rescue-Ends evicted ds (1 + length (bases_of ds)) t k room))

  empty-IsPart : IsPart (by_ids eligible) (optional_among eligible) []
  empty-IsPart = ((λ f. omega arith), tt)

  after_probe :
      (evicted : List Text) (s : SearchState)
      → Searched 1 s
      → Ends Suits Blames (
          after
            (category_deficits constraints (required_among eligible) (optional_among eligible))
            (λ deficits.
              hard_bases tokenizer available max_selections
                (required_among eligible)
                (optional_among eligible)
                constraints
                evicted
                deficits
                s))
  after_probe evicted s h =
      by_deficits
        (category_deficits constraints (required_among eligible) (optional_among eligible)) refl
        (category_deficits-Ends (by_ids eligible) (required_among eligible)
          (optional_among eligible) (optional-IsOf eligible keyed) IsShort short constraints
          distinct)
    where
      by_deficits :
          (o : Outcome CorrectionFailure (List CategoryDeficit))
          → category_deficits constraints (required_among eligible) (optional_among eligible) ≡ o
          → Ends
              (λ ds.
                All
                  (IsBase
                    (by_ids eligible)
                    (required_among eligible)
                    (optional_among eligible)
                    constraints)
                  (bases_of ds))
              IsShort
              o
          → Ends Suits Blames (
              after o (λ deficits.
                hard_bases tokenizer available max_selections
                  (required_among eligible)
                  (optional_among eligible)
                  constraints
                  evicted
                  deficits
                  s))
      by_deficits (returned ds) e parts =
          hard_bases-Ends evicted ds s
            (bases-IsValidPart eligible keyed constraints distinct feasible (bases_of ds) parts) h
            (omega (arith, ap (to_visit (length (valid_parts eligible keyed constraints))) e))
      by_deficits (thrown es) e k = short-Blames es e k

  required-IsSelection : IsSelection (by_ids eligible) (required_among eligible)
  required-IsSelection =
      subst (IsSelection (by_ids eligible)) (append-nil (required_among eligible))
        (part-IsSelection eligible keyed [] empty-IsPart)

  -- From a coherent cache the fallback settles on a selection that fits, or throws a true failure.
  pub search_fallback-Ends :
      (evicted : List Text) (cache : Table Text RenderMeasurement)
      → IsCoherent tokenizer (by_ids eligible) cache
      → Ends Suits Blames (
          search_fallback tokenizer available max_selections eligible constraints evicted
            (record { measured = cache; visited = [] }))
  unfolding search_fallback
  search_fallback-Ends evicted cache coherent =
      after-Ends
        (Answers tokenizer (by_ids eligible) Blames blamed available max_selections to_look_at
          cut_off 1 (required_among eligible))
        Suits Blames
        (visit tokenizer available max_selections (required_among eligible)
          (record { measured = cache; visited = [] }))
        _
        (visit-Ends tokenizer (by_ids eligible) Blames blamed available max_selections to_look_at
          cut_off (required_among eligible) (record { measured = cache; visited = [] }) 0
          required-IsSelection
          (record { coherent = coherent; counted = omega arith; bounded = omega arith })
          (to_visit-positive (length (valid_parts eligible keyed constraints))
            (category_deficits constraints (required_among eligible) (optional_among eligible))))
        (λ probe k. after_probe evicted probe.1 k.0)
