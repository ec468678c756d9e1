-- ===== src/Allocation/Run.antt =====
-- A run of the passes of packages/compiler/src/budget-allocator.ts that succeeded, taken apart.
use ctxalloc.Shared.{ℕ, ◌≡◌, refl, sym, List, [], ◌∷◌, sort}
use ctxalloc.Candidates.{ScoredCandidateSet}
use ctxalloc.Allocation.Issue.{Issue, ok, Halves-ok, ok-injective}
use ctxalloc.Allocation.Policy.{Allocator, constrained_categories}
use ctxalloc.Allocation.State.{
  AllocationCandidate, compare_required, compare_score_order, State, start, included_required,
  included_category_minimum,
}
use ctxalloc.Allocation.Passes.{
  detect_count_failures, picks, allocate_required, reserve, allocate_optional,
}
use ctxalloc.Allocation.Allocate.{required_views, optional_views, unreserved, raise_any, run_passes}
use ctxalloc.Allocation.Moves.{Adds, allocate_required-Adds, add_handles, reserve-Adds}

pub raise_any-eq-ok : (is : List Issue) → {u : Unit {0}} → raise_any is ≡ ok u → is ≡ []
raise_any-eq-ok [] h = refl
raise_any-eq-ok (i ∷ is) h = cc

abbrev pub union_of : Allocator → ScoredCandidateSet → List AllocationCandidate
union_of a input = picks a (required_views input) (optional_views input) (constrained_categories a)

abbrev pub leftover_of : Allocator → ScoredCandidateSet → List AllocationCandidate
leftover_of a input =
    sort compare_score_order (unreserved (add_handles (union_of a input) []) (optional_views input))

-- The states between the passes, and what each pass did.
pub record Run (a : Allocator) (input : ScoredCandidateSet) (available : ℕ) (t : State)
    : Type 0 where
  pub after_required : State
  pub after_minimums : State
  pub no_failures :
      detect_count_failures a
        (required_views input)
        (optional_views input)
        (constrained_categories a)
      ≡ []
  pub required_pass :
      Adds included_required
        (sort compare_required (required_views input))
        (start available)
        after_required
  pub minimum_pass : Adds included_category_minimum (union_of a input) after_required after_minimums
  pub final : t ≡ allocate_optional a (leftover_of a input) after_minimums

pub run_passes-Run :
    (a : Allocator) (input : ScoredCandidateSet) (available : ℕ) {t : State}
    → run_passes a input available ≡ ok t
    → Run a input available t
unfolding run_passes
run_passes-Run a input available h =
    let record { value = u; first = counted; second = h₁ } = Halves-ok (raise_any _) _ h in
    let record { value = s; first = required; second = h₂ } =
      Halves-ok (allocate_required available _ _) _ h₁ in
    let record { value = r; first = reserved; second = h₃ } =
      Halves-ok (reserve available _ _ _ _) _ h₂ in
    let minimums = reserve-Adds available _ _ s [] reserved in
    record {
      after_required = s;
      after_minimums = r.0;
      no_failures = raise_any-eq-ok _ counted;
      required_pass = allocate_required-Adds available _ _ required;
      minimum_pass = minimums.0;
      final = rw (← minimums.1) (sym (ok-injective h₃));
    }
