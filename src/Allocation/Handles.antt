-- ===== src/Allocation/Handles.antt =====
-- The identities of the views that packages/compiler/src/budget-allocator.ts makes.
use ctxalloc.Shared.{
  ℕ, suc, ◌≤◌, ◌<◌, ◌≡◌, refl, Bool, List, [], ◌∷◌, arith, ◌==◌, if◌then◌else◌, select, count, one,
  weigh-select, weigh_mono, text_key,
}
use ctxalloc.Candidates.{ScoredCandidate}
use ctxalloc.Allocation.State.{AllocationCandidate, views_from}

-- How often a handle occurs.
abbrev pub handle_count : ℕ → List AllocationCandidate → ℕ
handle_count h = count (λ e. h == e.handle)

views_from_below :
    (h n : ℕ) (cs : List ScoredCandidate) → h < n → handle_count h (views_from n cs) ≡ 0
unfolding views_from
views_from_below h n [] l = refl
views_from_below h n (c ∷ cs) l = ground (arith, views_from_below h (suc n) cs)

-- Each view is an object of its own.
pub handle_count-views_from :
    (h n : ℕ) (cs : List ScoredCandidate) → handle_count h (views_from n cs) ≤ 1
unfolding views_from
handle_count-views_from h n [] = omega arith
handle_count-views_from h n (c ∷ cs) =
    ground (arith, views_from_below h (suc n) cs, handle_count-views_from h (suc n) cs)

pub handle_count-select :
    (h : ℕ) (p : AllocationCandidate → Bool) (es : List AllocationCandidate)
    → handle_count h es ≤ 1
    → handle_count h (select p es) ≤ 1
handle_count-select h p es l = omega (
  arith,
  weigh-select (λ e. one (h == e.handle)) p es,
  weigh_mono (λ e. if p e then one (h == e.handle) else 0) (λ e. one (h == e.handle)) es
      (λ e. ground arith),
)
