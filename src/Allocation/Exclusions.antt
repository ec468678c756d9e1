-- ===== src/Allocation/Exclusions.antt =====
-- Why `BudgetAllocator` of packages/compiler/src/budget-allocator.ts excludes a candidate: each
-- reason still holds of the final selection, to which no excluded candidate could be added.
use ctxalloc.Shared.{
  ℕ, ◌≤◌, ◌<◌, ◌≡◌, inl, inr, true, some, List, [], ◌∷◌, arith, ltb, ltb→lt, Bool-cases,
  Option-cases, Text, All, All-append, All-map, weigh, one, weigh-map, get, text_key,
}
use ctxalloc.Domain.TokenBudget.{TokenBudget}
use ctxalloc.Candidates.{ScoredCandidate, ScoredCandidateSet, tokens_of, category_of}
use ctxalloc.Allocation.Issue.{ok}
use ctxalloc.Allocation.Policy.{Allocator}
use ctxalloc.Allocation.State.{
  AllocationCandidate, in_category, ExclusionReason, excluded_category_maximum,
  excluded_budget_exhausted, Included, Excluded, State, include, exclude, included_score_order,
}
use ctxalloc.Allocation.Passes.{at_maximum, consider, allocate_optional}
use ctxalloc.Allocation.Allocate.{assemble, allocate}
use ctxalloc.Allocation.Reconcile.{Allocated}
use ctxalloc.Allocation.Ledger.{IsLedger, dropped, taken-include, remaining-include}
use ctxalloc.Allocation.Moves.{consider-Decides}
use ctxalloc.Allocation.Bounds.{chosen, minimums-IsLedger}
use ctxalloc.Allocation.Accounting.{allocate-Run}
use ctxalloc.Allocation.Guarantees.{included_of}
use ctxalloc.Allocation.Run.{Run, leftover_of}

-- The exclusion is justified where `held c` blocks of a category are selected and `left` tokens
-- are left.
abbrev pub Reasoned : Allocator → (Text → ℕ) → ℕ → ExclusionReason → ScoredCandidate → Type 0
Reasoned a held left excluded_category_maximum x =
    (c : Text) × (n : ℕ) × (category_of x ≡ some c) × (get c a.max_blocks ≡ some n) × (n ≤ held c)
Reasoned a held left excluded_budget_exhausted x = left < tokens_of x

Reasoned-mono :
    (a : Allocator) (held held' : Text → ℕ) (left left' : ℕ) (why : ExclusionReason)
    (x : ScoredCandidate)
    → ((c : Text) → held c ≤ held' c)
    → left' ≤ left
    → Reasoned a held left why x
    → Reasoned a held' left' why x
Reasoned-mono a held held' left left' excluded_category_maximum x more less
      (c, n, given, bound, full) =
    (c, n, given, bound, omega (arith, more c))
Reasoned-mono a held held' left left' excluded_budget_exhausted x more less h = omega arith

-- Every exclusion of a state is justified in it.
abbrev IsReasoned : Allocator → State → Type 0
IsReasoned a s = All (λ d. Reasoned a (λ c. chosen c s) s.remaining d.reason d.candidate) s.excluded

full_at_maximum :
    (a : Allocator) (e : AllocationCandidate) (s : State) (available : ℕ)
    → IsLedger available s
    → at_maximum a e s ≡ true
    → Reasoned a (λ c. chosen c s) s.remaining excluded_category_maximum e.scored
unfolding at_maximum
full_at_maximum a e s available l full = elim (Option-cases (category_of e.scored)) [
  | inl bare ↦ absurd (ground arith)
  | inr (c, given) ↦ elim (Option-cases (get c a.max_blocks)) [
    | inl free ↦ absurd (ground arith)
    | inr (n, bound) ↦ (c, n, given, bound, ground (arith, l.tallies c))
  ]
]

exclude-IsReasoned :
    (a : Allocator) (e : AllocationCandidate) (why : ExclusionReason) (s : State)
    → Reasoned a (λ c. chosen c s) s.remaining why e.scored
    → IsReasoned a s
    → IsReasoned a (exclude e why s)
unfolding exclude
exclude-IsReasoned a e why s here h = All-append _ s.excluded _ h (here, tt)

include-IsReasoned :
    (a : Allocator) (e : AllocationCandidate) (s : State)
    → IsReasoned a s
    → IsReasoned a (include e included_score_order s)
include-IsReasoned a e s h = unfold include in All-map s.excluded later h
  where
    later :
        (d : Excluded)
        → Reasoned a (λ c. chosen c s) s.remaining d.reason d.candidate
        → Reasoned a
            (λ c. chosen c (include e included_score_order s))
            (include e included_score_order s).remaining
            d.reason
            d.candidate
    later d =
        Reasoned-mono a _ _ s.remaining _ d.reason d.candidate
          (λ c. omega (
            arith,
            taken-include e included_score_order s (λ _ x. one (in_category c (category_of x))),
          ))
          (remaining-include e included_score_order s)

consider-IsReasoned :
    (a : Allocator) (e : AllocationCandidate) (s : State) (available : ℕ)
    → IsLedger available s
    → IsReasoned a s
    → IsReasoned a (consider a e s)
unfolding consider
consider-IsReasoned a e s available l h = elim (Bool-cases (at_maximum a e s)) [
  | inl full ↦ rw full (
      exclude-IsReasoned a e excluded_category_maximum s (full_at_maximum a e s available l full) h)
  | inr room ↦ elim (Bool-cases (ltb s.remaining (tokens_of e.scored))) [
    | inl over ↦
        rw (room, over) (exclude-IsReasoned a e excluded_budget_exhausted s (ltb→lt _ _ over) h)
    | inr fits ↦ rw (room, fits) (include-IsReasoned a e s h)
  ]
]

allocate_optional-IsReasoned :
    (a : Allocator) (es : List AllocationCandidate) (s : State) (available : ℕ)
    → IsLedger available s
    → IsReasoned a s
    → IsReasoned a (allocate_optional a es s)
unfolding allocate_optional
allocate_optional-IsReasoned a [] s available l h = h
allocate_optional-IsReasoned a (e ∷ es) s available l h =
    allocate_optional-IsReasoned a es (consider a e s) available
      ((consider-Decides a e s).keeps available l) (consider-IsReasoned a e s available l h)

none_excluded : (a : Allocator) (s : State) → dropped (λ _. 1) s ≡ 0 → IsReasoned a s
none_excluded a s h = go s.excluded h
  where
    go :
        (ds : List Excluded)
        → weigh (λ _. 1) ds ≡ 0
        → All (λ d. Reasoned a (λ c. chosen c s) s.remaining d.reason d.candidate) ds
    go [] z = tt
    go (d ∷ ds) z = absurd (omega arith)

Run-IsReasoned :
    {a : Allocator} {input : ScoredCandidateSet} {available : ℕ} {t : State}
    → Run a input available t
    → IsReasoned a t
Run-IsReasoned {a} {input} {available} r = rw r.final (
    allocate_optional-IsReasoned a (leftover_of a input) r.after_minimums available
      (minimums-IsLedger r [])
      (none_excluded a r.after_minimums
        (omega (arith, r.minimum_pass.drops (λ _. 1), r.required_pass.drops (λ _. 1)))))

-- No excluded candidate could be added to a result: an exclusion for a category maximum is of a
-- candidate in a category that has its maximum of included blocks, and an exclusion for the budget
-- is of a candidate that costs more than the tokens left unallocated in the end.
pub allocate-excludes_for_reason :
    (a : Allocator) (input : ScoredCandidateSet) (budget : TokenBudget) {r : Allocated}
    → allocate a input budget ≡ ok r
    → All
        (λ d.
          Reasoned a (λ c. included_of c r) r.unallocated_block_content_tokens d.reason d.candidate)
        r.excluded
unfolding assemble
allocate-excludes_for_reason a input budget h =
    let (s, run, same) = allocate-Run a input budget h in
    rw same (
      All-map s.excluded
        (λ d.
          Reasoned-mono a (λ c. chosen c s) _ s.remaining s.remaining d.reason d.candidate
            (λ c. omega (
              arith,
              weigh-map (λ x. one (in_category c (category_of x))) (λ (x : Included). x.candidate)
                  s.included,
            ))
            (omega arith))
        (Run-IsReasoned run))
