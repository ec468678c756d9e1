-- ===== src/Allocation/Guarantees.antt =====
-- What `BudgetAllocator.allocate` of packages/compiler/src/budget-allocator.ts promises of each
-- result that it returns.
use ctxalloc.Shared.{
  ℕ, ◌+◌, ◌≤◌, ◌≡◌, refl, Bool, true, false, some, List, map, arith, if◌then◌else◌, Text, select,
  weigh, count, one, SameItems, weigh-select, weigh-map, weigh-append, weigh_cong, get, text_key,
}
use ctxalloc.Domain.TokenBudget.{TokenBudget, available_input_tokens}
use ctxalloc.Candidates.{ScoredCandidate, ScoredCandidateSet, tokens_of, required_of, category_of}
use ctxalloc.Allocation.Issue.{ok}
use ctxalloc.Allocation.Policy.{Policy, Allocator, construct}
use ctxalloc.Allocation.State.{
  in_category, InclusionReason, included_required, included_category_minimum, included_score_order,
  Included, Excluded,
}
use ctxalloc.Allocation.Allocate.{assemble, allocate}
use ctxalloc.Allocation.Reconcile.{Allocated, decisions}
use ctxalloc.Allocation.Accounting.{
  run-IsLedger, run-decides, run-required, run-keeps_required, only_required, if_required,
  allocate-Run,
}
use ctxalloc.Allocation.Bounds.{run-max, run-min}
use ctxalloc.Allocation.Consistent.{construct-IsConsistent}

-- The candidates of a result's inclusions.
abbrev pub included_candidates : Allocated → List ScoredCandidate
included_candidates r = map (λ d. d.candidate) r.included

abbrev pub excluded_candidates : Allocated → List ScoredCandidate
excluded_candidates r = map (λ d. d.candidate) r.excluded

-- `decision.reason === 'INCLUDED_REQUIRED'`
abbrev pub is_required_inclusion : Included → Bool
is_required_inclusion d = elim d.reason [ included_required ↦ true | _ ↦ false ]

-- How many included blocks of a result have a category.
abbrev pub included_of : Text → Allocated → ℕ
included_of c r = count (λ x. in_category c (category_of x)) (included_candidates r)

-- Every candidate of the batch has exactly one decision, an inclusion or an exclusion, and no
-- other candidate has one: the decisions are the candidates, in another order.
pub allocate-decides_once :
    (a : Allocator) (input : ScoredCandidateSet) (budget : TokenBudget) {r : Allocated}
    → allocate a input budget ≡ ok r
    → SameItems (decisions r) input.candidates
unfolding assemble
allocate-decides_once a input budget h f =
    let (s, run, same) = allocate-Run a input budget h in
    rw same (
      omega (
        arith,
        weigh-append f (map (λ d. d.candidate) s.included) (map (λ d. d.candidate) s.excluded),
        weigh-map f (λ (d : Included). d.candidate) s.included,
        weigh-map f (λ (d : Excluded). d.candidate) s.excluded,
        run-decides run f,
      ))

-- The included blocks cost what the result publishes as selected, and together with what it
-- publishes as unallocated that is the ceiling of the budget: the selection never exceeds it.
pub allocate-within_budget :
    (a : Allocator) (input : ScoredCandidateSet) (budget : TokenBudget) {r : Allocated}
    → allocate a input budget ≡ ok r
    → (weigh tokens_of (included_candidates r) ≡ r.selected_block_content_tokens)
      × (r.selected_block_content_tokens + r.unallocated_block_content_tokens
          ≡ available_input_tokens budget)
      × (r.selected_block_content_tokens ≤ available_input_tokens budget)
unfolding assemble
allocate-within_budget a input budget h =
    let (s, run, same) = allocate-Run a input budget h in
    let books = run-IsLedger run in
    rw same (
      omega (arith, books.balance, weigh-map tokens_of (λ (d : Included). d.candidate) s.included),
      omega (arith, books.balance),
      omega (arith, books.balance),
    )

-- The inclusions with the reason INCLUDED_REQUIRED are the required candidates of the batch, each
-- as often, and no exclusion is of a required candidate.
pub allocate-keeps_required :
    (a : Allocator) (input : ScoredCandidateSet) (budget : TokenBudget) {r : Allocated}
    → allocate a input budget ≡ ok r
    → SameItems
        (map (λ d. d.candidate) (select is_required_inclusion r.included))
        (select required_of input.candidates)
      × (count required_of (excluded_candidates r) ≡ 0)
unfolding assemble
allocate-keeps_required a input budget h =
    let (s, run, same) = allocate-Run a input budget h in
    rw same (
      λ f. omega (
        arith,
        weigh-map f (λ (d : Included). d.candidate) (select is_required_inclusion s.included),
        weigh-select (λ (d : Included). f d.candidate) is_required_inclusion s.included,
        weigh_cong (λ (d : Included). if is_required_inclusion d then f d.candidate else 0)
            (λ d. only_required f d.reason d.candidate) s.included
            (λ d. by_reason f d.reason d.candidate),
        run-required run f,
        weigh-select f required_of input.candidates,
      ),
      omega (
        arith,
        weigh-map (λ c. one (required_of c)) (λ (d : Excluded). d.candidate) s.excluded,
        run-keeps_required run (λ _. 1),
        weigh_cong (λ (d : Excluded). if_required (λ _. 1) d.candidate)
            (λ d. one (required_of d.candidate)) s.excluded (λ d. as_one (required_of d.candidate)),
      ),
    )
  where
    by_reason :
        (f : ScoredCandidate → ℕ) (why : InclusionReason) (c : ScoredCandidate)
        → (if elim why [ included_required ↦ true | _ ↦ false ] then f c else 0)
          ≡ only_required f why c
    by_reason f included_required c = refl
    by_reason f included_category_minimum c = refl
    by_reason f included_score_order c = refl

    as_one : (b : Bool) → (if b then 1 else 0) ≡ one b
    as_one true = refl
    as_one false = refl

-- For an allocator that its constructor returned, no result includes more blocks of a category
-- than the category's maximum.
pub allocate-respects_max :
    (p : Policy) (a : Allocator) (input : ScoredCandidateSet) (budget : TokenBudget) {r : Allocated}
    → construct p ≡ ok a
    → allocate a input budget ≡ ok r
    → (c : Text) (n : ℕ) → get c a.max_blocks ≡ some n
    → included_of c r ≤ n
unfolding assemble
allocate-respects_max p a input budget built h c n bound =
    let (s, run, same) = allocate-Run a input budget h in
    rw same (
      omega (
        arith,
        weigh-map (λ x. one (in_category c (category_of x))) (λ (d : Included). d.candidate)
            s.included,
        run-max run c n (construct-IsConsistent p built) bound,
      ))

-- Of a category with a minimum every result includes at least that many blocks.
pub allocate-respects_min :
    (a : Allocator) (input : ScoredCandidateSet) (budget : TokenBudget) {r : Allocated}
    → allocate a input budget ≡ ok r
    → (c : Text) (m : ℕ) → get c a.min_blocks ≡ some m
    → m ≤ included_of c r
unfolding assemble
allocate-respects_min a input budget h c m least =
    let (s, run, same) = allocate-Run a input budget h in
    rw same (
      omega (
        arith,
        weigh-map (λ x. one (in_category c (category_of x))) (λ (d : Included). d.candidate)
            s.included,
        run-min run c m least,
      ))
