-- ===== src/Compilation/Promises.antt =====
-- What a caller of `compile` in packages/compiler/src/context-compiler.ts may rely on.
use ctxalloc.Shared.{
  [], ◌∷◌, weigh, weigh-select, weigh_mono, count, inl, inr, Bool-cases, ℕ, ◌≤◌, ◌≡◌, sym, subst,
  ap, ◌∙◌, List, map, arith, weigh-append, one, text_eq, text_key, IsKeyed, get, some,
}
use ctxalloc.Shared.Outcome.{returned, thrown, Ends}
use ctxalloc.Domain.TokenBudget.{TokenBudget, available_input_tokens}
use ctxalloc.Candidates.{ScoredCandidate, ScoredCandidateSet, id_of, required_of}
use ctxalloc.Allocation.Issue.{ok}
use ctxalloc.Allocation.Policy.{Allocator, constraints_of}
use ctxalloc.Allocation.Accounting.{if_required, allocate-Run}
use ctxalloc.Allocation.Allocate.{allocate, assemble}
use ctxalloc.Allocation.Reconcile.{Allocated}
use ctxalloc.Allocation.Origins.{allocate-included}
use ctxalloc.Allocation.Guarantees.{
  allocate-decides_once, allocate-keeps_required, allocate-within_budget,
}
use ctxalloc.Allocation.Surplus.{IsSurplus, allocate-IsSurplus}
use ctxalloc.Correction.Evictions.{IsLessened}
use ctxalloc.Renderer.Tokenizer.{Tokenizer}
use ctxalloc.Compiler.Grouping.{constraint_pairs}
use ctxalloc.Correction.Measure.{CorrectionFailure}
use ctxalloc.Correction.Settle.{CompilationRun, settle}
use ctxalloc.Correction.Keys.{by_ids}
use ctxalloc.Correction.Visits.{Measures, IsSelection, HoldsContent}
use ctxalloc.Correction.Eligible.{by_ids-IsOf, by_ids-IsUnique, required_among}
use ctxalloc.Correction.Bounded.{KeepsBounds, AreSpare}
use ctxalloc.Correction.Explained.{IsBounded, Explains}
use ctxalloc.Correction.Initial.{IsRun, eligible_of, included_of}
use ctxalloc.Correction.Promises.{settle-fits, settle-explains}
use ctxalloc.Compilation.Compile.{CompilationPolicy, CompilationException, Compilation, compile}
use ctxalloc.Compilation.Inputs.{construct-IsKeyed, filter-IsKeyed}
use ctxalloc.Compilation.Bounds.{allocate-KeepsBounds, IsSurplus-AreSpare}
use ctxalloc.Compilation.Runs.{Staged, Compiled, Failed, renderer, orderer, compile-Ends}

-- The published ceiling is the budget's.
allocate-available :
    (a : Allocator) (input : ScoredCandidateSet) (budget : TokenBudget) {r : Allocated}
    → allocate a input budget ≡ ok r
    → r.available_input_tokens ≡ available_input_tokens budget
unfolding assemble
allocate-available a input budget h =
    let (s, run, same) = allocate-Run a input budget h in ap (λ r. r.available_input_tokens) same

none_required :
    (f : ScoredCandidate → ℕ) (cs : List ScoredCandidate)
    → count required_of cs ≡ 0
    → weigh (if_required f) cs ≡ 0
none_required f [] h = omega arith
none_required f (c ∷ cs) h = ground (arith, h, none_required f cs)

module _ (policy : CompilationPolicy) (tokenizer : Tokenizer) (max_selections : ℕ)
    (budget : TokenBudget) (scored : ScoredCandidateSet)
    (keyed : IsKeyed (by_ids scored.candidates)) where
  Staged-IsSurplus :
      (run : CompilationRun) (staged : Staged policy tokenizer max_selections budget scored run)
      → (es : List ScoredCandidate) × IsSurplus
          (λ c. get (id_of c) (by_ids (eligible_of run)) ≡ some c)
          staged.allocator
          run.allocated
          es
  Staged-IsSurplus run staged =
      allocate-IsSurplus (λ c. get (id_of c) (by_ids (eligible_of run)) ≡ some c) staged.allocator
        run.filtered.eligible
        (by_ids-IsOf (eligible_of run)
          (filter-IsKeyed policy.filtering scored staged.filtered keyed))
        budget staged.allocated

  -- The run's ceiling is what the budget leaves for the input.
  pub ceiling :
      (run : CompilationRun)
      → Staged policy tokenizer max_selections budget scored run
      → run.available_tokens ≡ available_input_tokens budget
  ceiling run staged =
      staged.bounded
      ∙ allocate-available staged.allocator run.filtered.eligible budget staged.allocated

  -- The required candidates are among the included ones.
  required-weigh :
      (run : CompilationRun)
      → Staged policy tokenizer max_selections budget scored run
      → (f : ScoredCandidate → ℕ)
      → weigh f (required_among (eligible_of run)) ≡ weigh (if_required f) (included_of run)
  required-weigh run staged f =
      let only = if_required f in
      let dropped = map (λ d. d.candidate) run.allocated.excluded in
      let kept =
        allocate-keeps_required staged.allocator run.filtered.eligible budget staged.allocated in
      omega (
        arith,
        weigh-select f required_of (eligible_of run),
        allocate-decides_once staged.allocator run.filtered.eligible budget staged.allocated only,
        weigh-append only (included_of run) dropped,
        none_required f dropped kept.1,
      )

  -- The runs that the stages make are such as the correction wants.
  pub Staged-IsRun :
      (run : CompilationRun)
      → Staged policy tokenizer max_selections budget scored run
      → IsRun
          (renderer policy tokenizer max_selections budget scored)
          (orderer policy tokenizer max_selections budget scored)
          run
  Staged-IsRun run staged =
      let eligible = filter-IsKeyed policy.filtering scored staged.filtered keyed in
      let surplus = Staged-IsSurplus run staged in
      record {
        rendered = staged.rendered;
        keyed = eligible;
        distinct =
            subst (λ p. IsKeyed (constraint_pairs (constraints_of p))) (sym staged.governed)
              (construct-IsKeyed policy.allocation staged.constructed);
        included = (
          allocate-included (λ c. get (id_of c) (by_ids (eligible_of run)) ≡ some c)
              staged.allocator run.filtered.eligible (by_ids-IsOf (eligible_of run) eligible) budget
              staged.allocated,
          λ t. omega (
            arith,
            by_ids-IsUnique (eligible_of run) eligible t,
            weigh-append (λ c. one (text_eq (id_of c) t)) (included_of run)
                (map (λ d. d.candidate) run.allocated.excluded),
            allocate-decides_once staged.allocator run.filtered.eligible budget staged.allocated
                (λ c. one (text_eq (id_of c) t)),
          ),
        );
        surplus = surplus.0;
        published = surplus.1.published;
        surplus_known = surplus.1.origin;
        surplus_within = surplus.1.within;
        surplus_optional = surplus.1.not_required;
        required_included = λ f. omega (
          arith,
          required-weigh run staged f,
          weigh_mono (if_required f) f (included_of run) (λ c. ground arith),
        );
        content = omega (
          arith,
          allocate-within_budget staged.allocator run.filtered.eligible budget staged.allocated,
          ceiling run staged,
        );
        kept =
            subst (λ p. KeepsBounds (constraints_of p) (included_of run)) (sym staged.governed)
              (allocate-KeepsBounds policy.allocation staged.allocator run.filtered.eligible budget
                staged.constructed staged.allocated);
        spare = λ gone rest parts.
            subst (λ p. AreSpare (constraints_of p) (included_of run) gone) (sym staged.governed)
              (IsSurplus-AreSpare _ policy.allocation staged.allocator surplus.0 gone rest
                staged.constructed surplus.1 parts);
      }

  -- What is left of the included candidates without a beginning of the surplus has the required ones.
  lessened-keeps :
      (run : CompilationRun) (staged : Staged policy tokenizer max_selections budget scored run)
      (cs : List ScoredCandidate)
      → IsLessened (included_of run) (Staged-IsRun run staged).surplus cs
      → (f : ScoredCandidate → ℕ) → weigh f (required_among (eligible_of run)) ≤ weigh f cs
  lessened-keeps run staged cs (gone, rest, parts, left) f =
      let only = if_required f in
      omega (
        arith,
        required-weigh run staged f,
        left only,
        none_required f gone (
            omega (
              arith,
              ap (count required_of) parts,
              weigh-append (λ c. one (required_of c)) gone rest,
              (Staged-IsRun run staged).surplus_optional,
            )),
        weigh_mono only f cs (λ c. ground arith),
      )

  -- For a scored batch with distinct block identifiers: a compilation that is returned settles on
  -- the exact text of a selection of eligible candidates, none of them twice and all the required
  -- ones among them, in the rendering order, with the count that the tokenizer answers for that
  -- text, which is within the input tokens that the budget leaves. The selection has, of every
  -- constrained category, no fewer candidates than its minimum and no more than its maximum. Its
  -- content, where the sum is a safe integer, does not exceed those tokens either. The visits of a
  -- search are within the bound.
  pub compile-fits :
      (c : Compilation)
      → compile policy tokenizer max_selections budget scored ≡ returned c
      → ((cs : List ScoredCandidate) × (IsSelection (by_ids (eligible_of c.run)) cs
            × Measures tokenizer cs c.settlement.measurement
            × KeepsBounds (constraints_of policy.allocation) cs
            × HoldsContent (available_input_tokens budget) cs
            × ((f : ScoredCandidate → ℕ)
                → weigh f (required_among (eligible_of c.run)) ≤ weigh f cs)))
        × (c.settlement.measurement.rendered_tokens ≤ available_input_tokens budget)
        × IsBounded c.settlement.search
  compile-fits c h =
      let done =
        subst
          (Ends (Compiled policy tokenizer max_selections budget scored)
            (Failed policy tokenizer max_selections budget scored))
          h (compile-Ends policy tokenizer max_selections budget scored) in
      let fits =
        settle-fits (renderer policy tokenizer max_selections budget scored)
          (orderer policy tokenizer max_selections budget scored) c.run max_selections
          (Staged-IsRun c.run done.staged) c.settlement done.settled in
      let (cs, (selection, measured, bounds, content, lessened, rebuilt)) = fits.0 in
      (
        (
          cs,
          (
            selection,
            measured,
            subst (λ p. KeepsBounds (constraints_of p) cs) done.staged.governed bounds,
            subst (λ n. HoldsContent n cs) (ceiling c.run done.staged) content,
            λ f. elim (Bool-cases c.settlement.rebuilt) [
              | inl new ↦
                  let (picks, part, same) = rebuilt new in
                  omega (
                    arith,
                    ap (weigh f) same,
                    weigh-append f (required_among (eligible_of c.run)) picks,
                  )
              | inr old ↦ lessened-keeps c.run done.staged cs (lessened old) f
            ],
          ),
        ),
        subst (λ n. c.settlement.measurement.rendered_tokens ≤ n) (ceiling c.run done.staged)
            fits.1,
        fits.2,
      )

  -- For a scored batch with distinct block identifiers: a compilation that throws has one exception,
  -- of the first stage that fails: the filter on the batch, the allocator on what the filter
  -- returned, the orderer, whose constructor refuses the policy, after the allocator returned, the
  -- renderer on what these three returned, or the correction of the run that they and the renderer
  -- made. The exception has the name and exactly the issues of that stage; the orderer's is thrown as
  -- it is, under no stage. Where it is the correction, its one failure is what it says.
  pub compile-blames :
      (fs : List CompilationException)
      → compile policy tokenizer max_selections budget scored ≡ thrown fs
      → Failed policy tokenizer max_selections budget scored fs
        × ((run : CompilationRun) (es : List CorrectionFailure)
              (staged : Staged policy tokenizer max_selections budget scored run)
            → settle tokenizer max_selections run ≡ thrown es
            → Explains tokenizer run.available_tokens max_selections
                (eligible_of run)
                (Staged-IsRun run staged).keyed
                (constraints_of run.allocation_policy)
                (Staged-IsRun run staged).distinct
                es)
  compile-blames fs h = (
    subst
        (Ends (Compiled policy tokenizer max_selections budget scored)
          (Failed policy tokenizer max_selections budget scored))
        h (compile-Ends policy tokenizer max_selections budget scored),
    λ run es staged e.
        settle-explains (renderer policy tokenizer max_selections budget scored)
          (orderer policy tokenizer max_selections budget scored) run max_selections
          (Staged-IsRun run staged) es e,
  )
