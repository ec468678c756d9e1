-- ===== src/Allocation/Accounting.antt =====
-- `BudgetAllocator.allocate` in packages/compiler/src/budget-allocator.ts: one decision for each
-- candidate, and the tokens that the decisions spend.
use ctxalloc.Shared.{
  ℕ, suc, ◌+◌, ◌≤◌, ◌≡◌, refl, sym, ◌∙◌, List, [], ◌∷◌, arith, if◌then◌else◌, Bool-cases, inl, inr,
  sort, sort-SameItems, weigh, weigh_cong, weigh-select, weigh-zero, weigh_mono, weigh-partition,
}
use ctxalloc.Domain.TokenBudget.{TokenBudget, reserves_fit_total, available_input_tokens}
use ctxalloc.Candidates.{ScoredCandidate, ScoredCandidateSet, required_of}
use ctxalloc.Allocation.Issue.{ok, ◌>>=◌, Halves-ok, ok-injective}
use ctxalloc.Allocation.Policy.{Allocator}
use ctxalloc.Allocation.State.{
  views_from, compare_traversal, compare_required, compare_score_order, InclusionReason,
  included_required, included_category_minimum, included_score_order, State,
}
use ctxalloc.Allocation.Allocate.{
  views, is_required_view, required_views, optional_views, run_passes, raise_any, assemble,
  allocate,
}
use ctxalloc.Allocation.Reconcile.{Allocated, reconcile}
use ctxalloc.Allocation.Ledger.{IsLedger, taken, dropped, start-IsLedger}
use ctxalloc.Allocation.Moves.{Decides, allocate_optional-Decides}
use ctxalloc.Allocation.Handles.{handle_count-views_from, handle_count-select}
use ctxalloc.Allocation.Reserved.{picks-unreserved}
use ctxalloc.Allocation.Run.{union_of, leftover_of, Run, run_passes-Run}

weigh-views_from :
    (f : ScoredCandidate → ℕ) (n : ℕ) (cs : List ScoredCandidate)
    → weigh (λ e. f e.scored) (views_from n cs) ≡ weigh f cs
unfolding views_from
weigh-views_from f n [] = refl
weigh-views_from f n (c ∷ cs) = omega (arith, weigh-views_from f (suc n) cs)

pub weigh-views :
    (f : ScoredCandidate → ℕ) (input : ScoredCandidateSet)
    → weigh (λ e. f e.scored) (views input) ≡ weigh f input.candidates
unfolding views
weigh-views f input =
    weigh-views_from f 0 (sort compare_traversal input.candidates)
    ∙ sort-SameItems compare_traversal input.candidates f

module _ {a : Allocator} {input : ScoredCandidateSet} {available : ℕ} {t : State}
    (r : Run a input available t) where
  -- The optional candidates are the reserved ones and those of the general pass.
  optional_split :
      (f : ScoredCandidate → ℕ)
      → weigh (λ e. f e.scored) (union_of a input) + weigh (λ e. f e.scored) (leftover_of a input)
        ≡ weigh (λ e. f e.scored) (optional_views input)
  unfolding views
  optional_split f = omega (
    arith,
    sort-SameItems compare_score_order _ (λ e. f e.scored),
    picks-unreserved a (required_views input) (optional_views input)
        (λ h. handle_count-select h _ _ (handle_count-views_from h 0 _)) (λ e. f e.scored),
  )

  pub final_pass : Decides (leftover_of a input) r.after_minimums t
  final_pass = rw r.final (allocate_optional-Decides a (leftover_of a input) r.after_minimums)

  pub run-IsLedger : IsLedger available t
  run-IsLedger =
      final_pass.keeps available (
        r.minimum_pass.keeps available (r.required_pass.keeps available (start-IsLedger available)))

  -- Every candidate has one decision.
  pub run-decides :
      (f : ScoredCandidate → ℕ) → taken (λ _ c. f c) t + dropped f t ≡ weigh f input.candidates
  run-decides f = omega (
    arith,
    final_pass.decides f,
    r.minimum_pass.takes (λ _ c. f c),
    r.minimum_pass.drops f,
    r.required_pass.takes (λ _ c. f c),
    r.required_pass.drops f,
    sort-SameItems compare_required (required_views input) (λ e. f e.scored),
    optional_split f,
    weigh-partition (λ e. f e.scored) is_required_view (views input),
    weigh-views f input,
  )

-- A weight of the decisions that were taken as required.
abbrev pub only_required : (ScoredCandidate → ℕ) → InclusionReason → ScoredCandidate → ℕ
only_required f included_required c = f c
only_required f included_category_minimum c = 0
only_required f included_score_order c = 0

-- A weight of the required candidates.
abbrev pub if_required : (ScoredCandidate → ℕ) → ScoredCandidate → ℕ
if_required f c = if required_of c then f c else 0

if_required_twice :
    (f : ScoredCandidate → ℕ) (c : ScoredCandidate)
    → if_required (if_required f) c ≡ if_required f c
if_required_twice f c = ground arith

only_required-le :
    (f : ScoredCandidate → ℕ) (why : InclusionReason) (c : ScoredCandidate)
    → only_required f why c ≤ f c
only_required-le f included_required c = omega arith
only_required-le f included_category_minimum c = omega arith
only_required-le f included_score_order c = omega arith

module _ {a : Allocator} {input : ScoredCandidateSet} {available : ℕ} {t : State}
    (r : Run a input available t) where
  -- The required candidates are those included as required.
  pub run-required :
      (f : ScoredCandidate → ℕ) → taken (only_required f) t ≡ weigh (if_required f) input.candidates
  run-required f = omega (
    arith,
    (final_pass r).keeps_taken (only_required f) (λ c. refl),
    r.minimum_pass.takes (only_required f),
    weigh-zero (union_of a input),
    r.required_pass.takes (only_required f),
    sort-SameItems compare_required (required_views input) (λ e. f e.scored),
    weigh-select (λ e. f e.scored) is_required_view (views input),
    weigh-views (if_required f) input,
  )

  -- No required candidate is excluded.
  pub run-keeps_required : (f : ScoredCandidate → ℕ) → dropped (if_required f) t ≡ 0
  run-keeps_required f = omega (
    arith,
    run-decides r (if_required f),
    run-required (if_required f),
    weigh_cong (if_required (if_required f)) (if_required f) input.candidates (if_required_twice f),
    weigh_mono (λ d. only_required (if_required f) d.reason d.candidate)
        (λ d. if_required f d.candidate) t.included
        (λ d. only_required-le (if_required f) d.reason d.candidate),
  )

-- A successful allocation is the result of a successful run, and passed its own check.
pub allocate-Run :
    (a : Allocator) (input : ScoredCandidateSet) (budget : TokenBudget) {r : Allocated}
    → allocate a input budget ≡ ok r
    → (s : State) × Run a input (available_input_tokens budget) s × (r ≡ assemble a input budget s)
unfolding allocate
allocate-Run a input budget {r} h = elim (Bool-cases (reserves_fit_total budget)) [
  | inr no_fit ↦ absurd (ground arith)
  | inl fit ↦ opened (rw fit at h)
]
  where
    opened :
        (run_passes a input (available_input_tokens budget) >>= (λ s.
            raise_any
              (reconcile (assemble a input budget s) (views input) (available_input_tokens budget))
            >>= (λ _. ok (assemble a input budget s))))
          ≡ ok r
        → (s : State) × Run a input (available_input_tokens budget) s
          × (r ≡ assemble a input budget s)
    opened h' =
        let record { value = s; first = ran; second = h₁ } =
          Halves-ok (run_passes a input _) _ h' in
        let record { value = u; first = checked; second = h₂ } =
          Halves-ok
            (raise_any
              (reconcile (assemble a input budget s) (views input) (available_input_tokens budget)))
            (λ _. ok (assemble a input budget s)) h₁ in
        (s, run_passes-Run a input _ ran, sym (ok-injective h₂))
