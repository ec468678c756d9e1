-- ===== src/Allocation/SelfCheck.antt =====
-- `reconcile` of packages/compiler/src/budget-allocator.ts never rejects what the passes produced.
use ctxalloc.Shared.{
  ℕ, ◌+◌, ◌-◌, ◌≤◌, ◌≡◌, refl, sym, ◌∙◌, inl, inr, true, List, [], ◌∷◌, map, arith, ◌==◌,
  Bool-cases, weigh, one, length, weigh-one-length, weigh-map, weigh-append, length-append,
  length-map, Table, get, put, tally, tally-put, sum_values, sum_values-put, identity_key,
}
use ctxalloc.Domain.TokenBudget.{TokenBudget, reserves_fit_total, available_input_tokens}
use ctxalloc.Candidates.{ScoredCandidate, ScoredCandidateSet}
use ctxalloc.Allocation.Issue.{Result, ok, err, ◌>>=◌}
use ctxalloc.Allocation.Policy.{Allocator}
use ctxalloc.Allocation.State.{AllocationCandidate, Included, Excluded, State}
use ctxalloc.Allocation.Reconcile.{expect, settle, sum_included, decisions, reconcile}
use ctxalloc.Allocation.Allocate.{views, run_passes, raise_any, assemble, allocate}
use ctxalloc.Allocation.Accounting.{run-decides, run-IsLedger, weigh-views}
use ctxalloc.Allocation.Run.{Run, run_passes-Run}

-- How many decisions or candidates are of one object.
abbrev of_identity : ℕ → ScoredCandidate → ℕ
of_identity k c = one (c.identity == k)

tally-expect :
    (k : ℕ) (es : List AllocationCandidate) (m : Table ℕ ℕ)
    → tally k (expect es m) ≡ tally k m + weigh (λ e. of_identity k e.scored) es
unfolding expect
tally-expect k [] m = omega arith
tally-expect k (e ∷ es) m = ground (
  arith,
  tally-expect k es (put e.scored.identity (tally e.scored.identity m + 1) m),
  tally-put e.scored.identity k (tally e.scored.identity m + 1) m,
)

sum_values-expect :
    (es : List AllocationCandidate) (m : Table ℕ ℕ)
    → sum_values (expect es m) ≡ sum_values m + length es
unfolding expect
sum_values-expect [] m = omega arith
sum_values-expect (e ∷ es) m = omega (
  arith,
  sum_values-expect es (put e.scored.identity (tally e.scored.identity m + 1) m),
  sum_values-put e.scored.identity (tally e.scored.identity m + 1) m,
)

-- Where each object owes as many decisions as it has, every decision is recognized.
settle-recognizes :
    (cs : List ScoredCandidate) (m : Table ℕ ℕ) (u : ℕ)
    → ((k : ℕ) → weigh (of_identity k) cs ≤ tally k m)
    → ((settle cs m u).1 ≡ u) × (sum_values (settle cs m u).0 + length cs ≡ sum_values m)
unfolding settle
settle-recognizes [] m u h = (refl, omega arith)
settle-recognizes (c ∷ cs) m u h = elim (Bool-cases (tally c.identity m == 0)) [
  | inl owed ↦ absurd (ground (arith, h c.identity))
  | inr owes ↦
      let rest = settle-recognizes cs (put c.identity (tally c.identity m - 1) m) u (λ k.
        ground (arith, h k, h c.identity, tally-put c.identity k (tally c.identity m - 1) m)) in
      rw (owes, settle)
        (
          rest.0,
          ground
              (arith, rest.1, h c.identity, sum_values-put c.identity (tally c.identity m - 1) m),
        )
]

sum_included-weigh :
    (acc : ℕ) (ds : List Included) → sum_included acc ds ≡ acc + weigh (λ d. d.content_tokens) ds
unfolding sum_included
sum_included-weigh acc [] = omega arith
sum_included-weigh acc (d ∷ ds) = omega (arith, sum_included-weigh (acc + d.content_tokens) ds)

module _ {a : Allocator} {input : ScoredCandidateSet} {t : State} (budget : TokenBudget)
    (r : Run a input (available_input_tokens budget) t) where
  weigh-decisions :
      (f : ScoredCandidate → ℕ)
      → weigh f (decisions (assemble a input budget t)) ≡ weigh (λ e. f e.scored) (views input)
  unfolding assemble
  weigh-decisions f = omega (
    arith,
    weigh-append f (map (λ d. d.candidate) t.included) (map (λ d. d.candidate) t.excluded),
    weigh-map f (λ (d : Included). d.candidate) t.included,
    weigh-map f (λ (d : Excluded). d.candidate) t.excluded,
    run-decides r f,
    weigh-views f input,
  )

  length-decisions : length (decisions (assemble a input budget t)) ≡ length (views input)
  length-decisions =
      sym (weigh-one-length (decisions (assemble a input budget t)))
      ∙ weigh-decisions (λ _. 1)
      ∙ weigh-one-length (views input)

  nothing_owed : (k : ℕ) → tally k [] ≡ 0
  unfolding get
  nothing_owed k = refl

  settled :
      let out = settle (decisions (assemble a input budget t)) (expect (views input) []) 0 in
      (out.1 ≡ 0) × (sum_values out.0 ≡ 0)
  settled =
      let done =
        settle-recognizes (decisions (assemble a input budget t)) (expect (views input) []) 0
          (λ k. omega (arith, tally-expect k (views input) [], weigh-decisions (of_identity k))) in
      (done.0, omega (arith, done.1, length-decisions, sum_values-expect (views input) []))

  -- The self-check finds nothing in what the passes produced.
  pub reconcile-silent :
      reconcile (assemble a input budget t) (views input) (available_input_tokens budget) ≡ []
  unfolding reconcile assemble
  reconcile-silent =
      let books = run-IsLedger r in
      ground (
        arith,
        settled.0,
        settled.1,
        length-decisions,
        length-append (map (λ d. d.candidate) t.included) (map (λ d. d.candidate) t.excluded),
        length-map (λ (d : Included). d.candidate) t.included,
        length-map (λ (d : Excluded). d.candidate) t.excluded,
        sum_included-weigh 0 t.included,
        books.balance,
        books.costs,
      )

-- For an accepted budget the self-check never turns a result into an error: `allocate` returns
-- what the passes return, assembled, and throws what they throw.
pub allocate-eq-passes :
    (a : Allocator) (input : ScoredCandidateSet) (budget : TokenBudget)
    → reserves_fit_total budget ≡ true
    → allocate a input budget
      ≡ (run_passes a input (available_input_tokens budget) >>= λ s. ok (assemble a input budget s))
unfolding allocate
allocate-eq-passes a input budget fits = rw fits (go _ refl)
  where
    go :
        (m : Result State)
        → run_passes a input (available_input_tokens budget) ≡ m
        → (m >>= (λ s.
            raise_any
              (reconcile (assemble a input budget s) (views input) (available_input_tokens budget))
            >>= (λ _. ok (assemble a input budget s))))
          ≡ (m >>= λ s. ok (assemble a input budget s))
    go (err is) e = refl
    go (ok s) e = rw (reconcile-silent budget (run_passes-Run a input _ e))
