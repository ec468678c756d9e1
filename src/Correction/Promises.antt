-- ===== src/Correction/Promises.antt =====
-- What a caller of `#settle` in packages/compiler/src/context-compiler.ts may rely on.
use ctxalloc.Shared.{
  false, ℕ, ◌≤◌, ◌≡◌, refl, sym, subst, ◌∙◌, inl, inr, true, false, List, [], ◌∷◌, ◌++◌, map, arith,
  Text, All,
}
use mathlib.Core.List.{Memᴰ}
use ctxalloc.Shared.Outcome.{Outcome, returned, thrown, Ends}
use ctxalloc.Candidates.{ScoredCandidate, tokens_of}
use ctxalloc.Allocation.Policy.{constraints_of}
use ctxalloc.Orderer.Order.{ContextOrderer}
use ctxalloc.Renderer.Tokenizer.{
  Tokenizer, TokenizerCountResult, ok, threw, invalid, check_answer, count_tokens_safely,
}
use ctxalloc.Renderer.Render.{ContextRenderer}
use ctxalloc.Renderer.Measures.{Counts}
use ctxalloc.Correction.Measure.{
  CorrectionFailure, tokenizer_unusable, unreachable_minimum, correction_search_limit_exceeded,
  rendered_hard_constraints_exceed_budget, required_content_exceeds_budget, sum_tokens, exceeds,
}
use ctxalloc.Correction.Deficits.{CategoryDeficit, category_deficits}
use ctxalloc.Correction.Fallback.{Settlement}
use ctxalloc.Correction.Settle.{CompilationRun, settle}
use ctxalloc.Correction.Spans.{IsPart}
use ctxalloc.Correction.Evictions.{IsLessened}
use ctxalloc.Correction.Keys.{by_ids}
use ctxalloc.Correction.Visits.{IsFailure, Measures, IsSelection, Overruns, text_of, HoldsContent}
use ctxalloc.Correction.Eligible.{required_among, optional_among, valid_parts}
use ctxalloc.Correction.Bounded.{KeepsBounds}
use ctxalloc.Correction.Explained.{IsBounded, Explains, selections_to_visit}
use ctxalloc.Correction.Initial.{IsRun, eligible_of, included_of}
use ctxalloc.Correction.Guarantees.{Settles, ExplainsRun, settle-Ends}

returned_thrown :
    (ds : List CategoryDeficit) {es : List CorrectionFailure} → returned ds ≡ thrown es → ⊥
returned_thrown ds e = absurd (ground (arith, e))

All-Memᴰ {ℓ κ} : {A : Type ℓ} (P : A → Type κ) {a : A} {xs : List A} → All P xs → Memᴰ a xs → P a
All-Memᴰ P h (Memᴰ.head e) = subst P (sym e) h.0
All-Memᴰ P h (Memᴰ.tail m) = All-Memᴰ P h.1 m

usable_answer :
    (t : Tokenizer) (text : Text) (n : ℕ) (o : TokenizerCountResult)
    → Counts t text n
    → count_tokens_safely t text ≡ o
    → IsFailure o
    → ⊥
unfolding count_tokens_safely check_answer
usable_answer t text n (ok m) counts e h = h
usable_answer t text n (threw m) counts e h = ground (arith, counts.0, counts.1, e)
usable_answer t text n (invalid a) counts e h = ground (arith, counts.0, counts.1, e)

module _ (renderer : ContextRenderer) (orderer : ContextOrderer) (run : CompilationRun)
    (max_selections : ℕ) (facts : IsRun renderer orderer run) where
  -- For a run whose attempt was rendered from its allocation, which includes eligible candidates
  -- with distinct identifiers, all the required ones among them, within the ceiling, and keeps the
  -- constraints of different categories, also without a beginning of its eviction order of
  -- optional ones: what is settled is the exact text of a selection of eligible candidates, none
  -- of them twice, in the rendering order, with the count that the tokenizer answers for that
  -- text, which is within the available tokens. The selection has, of every constrained category,
  -- no fewer candidates than its minimum and no more than its maximum. Its content, where the sum
  -- is a safe integer, does not exceed those tokens either. The visits of a search are within the
  -- bound. The selection is what was included without a beginning of the eviction order, or, where
  -- the fallback rebuilt it, all the required candidates and a part of the others.
  pub settle-fits :
      (s : Settlement)
      → settle renderer.tokenizer max_selections run ≡ returned s
      → ((cs : List ScoredCandidate) × (IsSelection (by_ids (eligible_of run)) cs
            × Measures renderer.tokenizer cs s.measurement
            × KeepsBounds (constraints_of run.allocation_policy) cs
            × HoldsContent run.available_tokens cs
            × (s.rebuilt ≡ false → IsLessened (included_of run) facts.surplus cs)
            × (s.rebuilt ≡ true
                → (picks : List ScoredCandidate) × IsPart
                    (by_ids (eligible_of run))
                    (optional_among (eligible_of run))
                    picks
                  × (cs ≡ required_among (eligible_of run) ++ picks))))
        × (s.measurement.rendered_tokens ≤ run.available_tokens)
        × IsBounded s.search
  settle-fits s h =
      subst
        (Ends (Settles renderer orderer run facts max_selections)
          (ExplainsRun renderer orderer run facts max_selections))
        h (settle-Ends renderer orderer run facts max_selections)

  -- For a run whose attempt was rendered from its allocation, which includes eligible candidates
  -- with distinct identifiers, all the required ones among them, within the ceiling, and keeps the
  -- constraints of different categories, also without a beginning of its eviction order of
  -- optional ones: of a run that throws, one failure is thrown, and it is what it says. An
  -- exhausted search: no part of the optional candidates that keeps every category's bounds
  -- together with the required ones fits, since its content or its rendered text is over the
  -- budget. A search that was cut off: the bound is smaller than the number of selections to look
  -- at. A tokenizer failure: the tokenizer answers no usable count for some text. An unreachable
  -- minimum: fewer candidates than are owed.
  pub settle-explains :
      (fs : List CorrectionFailure)
      → settle renderer.tokenizer max_selections run ≡ thrown fs
      → Explains renderer.tokenizer run.available_tokens max_selections
          (eligible_of run)
          facts.keyed
          (constraints_of run.allocation_policy)
          facts.distinct
          fs
  settle-explains fs h =
      subst
        (Ends (Settles renderer orderer run facts max_selections)
          (ExplainsRun renderer orderer run facts max_selections))
        h (settle-Ends renderer orderer run facts max_selections)

  -- A part of the optional candidates with which the required ones fit the budget.
  abbrev pub FitsWith : List ScoredCandidate → Type 0
  FitsWith picks =
      (exceeds (sum_tokens (map tokens_of (required_among (eligible_of run) ++ picks)))
          run.available_tokens
        ≡ false)
      × ((n : ℕ) × Counts renderer.tokenizer (text_of (required_among (eligible_of run) ++ picks)) n
          × (n ≤ run.available_tokens))

  overrun-FitsWith :
      (picks : List ScoredCandidate)
      → Overruns renderer.tokenizer run.available_tokens (required_among (eligible_of run) ++ picks)
      → FitsWith picks
      → ⊥
  overrun-FitsWith picks (inl over) fit = absurd (cc (over, fit.0))
  overrun-FitsWith picks (inr (n, counts, over)) fit =
      ground (arith, counts.0, fit.1.1.0, over, fit.1.2)

  -- What `settle_succeeds` assumes leaves no failure to throw.
  no_failure :
      (fs : List CorrectionFailure) (ds : List CategoryDeficit) (picks : List ScoredCandidate)
      → ((text : Text) → (n : ℕ) × Counts renderer.tokenizer text n)
      → category_deficits
          (constraints_of run.allocation_policy)
          (required_among (eligible_of run))
          (optional_among (eligible_of run))
        ≡ returned ds
      → selections_to_visit renderer.tokenizer run.available_tokens max_selections
          (eligible_of run)
          facts.keyed
          (constraints_of run.allocation_policy)
          facts.distinct
        ≤ max_selections
      → Memᴰ picks
          (valid_parts (eligible_of run) facts.keyed (constraints_of run.allocation_policy))
      → FitsWith picks
      → ExplainsRun renderer orderer run facts max_selections fs
      → ⊥
  no_failure [] ds picks total reachable enough member fit k = k
  no_failure (tokenizer_unusable o ∷ []) ds picks total reachable enough member fit k =
      usable_answer renderer.tokenizer k.1.0 (total k.1.0).0 o (total k.1.0).1 k.1.1 k.0
  no_failure (unreachable_minimum t m n ∷ []) ds picks total reachable enough member fit k =
      returned_thrown ds (sym reachable ∙ k.1)
  no_failure (correction_search_limit_exceeded m ∷ []) ds picks total reachable enough member fit
        k =
      omega (arith, k, enough)
  no_failure (rendered_hard_constraints_exceed_budget v a ∷ []) ds picks total reachable enough
        member fit k =
      overrun-FitsWith picks (All-Memᴰ _ k.1 member) fit
  no_failure (required_content_exceeds_budget v a ∷ []) ds picks total reachable enough member fit
        k =
      overrun-FitsWith picks (All-Memᴰ _ k.1 member) fit
  no_failure (f ∷ g ∷ fs) ds picks total reachable enough member fit k = k

  -- For a run whose attempt was rendered from its allocation, which includes eligible candidates
  -- with distinct identifiers, all the required ones among them, within the ceiling, and keeps the
  -- constraints of different categories, also without a beginning of its eviction order of
  -- optional ones: where the tokenizer counts every text, the minimums are in reach, the bound is
  -- not smaller than the number of selections to look at, and some part that keeps every
  -- category's bounds fits together with the required candidates, a settlement is returned.
  pub settle_succeeds :
      (ds : List CategoryDeficit) (picks : List ScoredCandidate)
      → ((text : Text) → (n : ℕ) × Counts renderer.tokenizer text n)
      → category_deficits
          (constraints_of run.allocation_policy)
          (required_among (eligible_of run))
          (optional_among (eligible_of run))
        ≡ returned ds
      → selections_to_visit renderer.tokenizer run.available_tokens max_selections
          (eligible_of run)
          facts.keyed
          (constraints_of run.allocation_policy)
          facts.distinct
        ≤ max_selections
      → Memᴰ picks
          (valid_parts (eligible_of run) facts.keyed (constraints_of run.allocation_policy))
      → FitsWith picks
      → (s : Settlement) × (settle renderer.tokenizer max_selections run ≡ returned s)
  settle_succeeds ds picks total reachable enough member fit =
      by_end (settle renderer.tokenizer max_selections run) refl
    where
      by_end :
          (o : Outcome CorrectionFailure Settlement)
          → settle renderer.tokenizer max_selections run ≡ o
          → (s : Settlement) × (settle renderer.tokenizer max_selections run ≡ returned s)
      by_end (returned s) e = (s, e)
      by_end (thrown fs) e =
          absurd (no_failure fs ds picks total reachable enough member fit (settle-explains fs e))
