-- ===== src/Allocation/Surplus.antt =====
-- The candidates behind `optionalEvictionOrder` of packages/compiler/src/budget-allocator.ts.
use ctxalloc.Shared.{
  ℕ, ◌+◌, ◌≤◌, ◌≡◌, refl, ap, some, get, take, length, ◌++◌, inl, inr, List, [], ◌∷◌, map, arith,
  if◌then◌else◌, Option-cases, Text, sort, sort-SameItems, sort-All, select, weigh, count, one,
  weigh-map, weigh-select, weigh_mono, Table, All, All-selected, All-over, All-under, text_key,
}
use ctxalloc.Domain.TokenBudget.{TokenBudget}
use ctxalloc.Candidates.{ScoredCandidate, ScoredCandidateSet, id_of, required_of, category_of}
use ctxalloc.Allocation.Issue.{ok}
use ctxalloc.Allocation.Policy.{Allocator}
use ctxalloc.Allocation.State.{in_category, compare_eviction, Included, State}
use ctxalloc.Allocation.Passes.{give_back, evict}
use ctxalloc.Allocation.Allocate.{is_optional_inclusion, eviction_order, assemble, allocate}
use ctxalloc.Allocation.Reconcile.{Allocated}
use ctxalloc.Allocation.Accounting.{allocate-Run}
use ctxalloc.Allocation.Guarantees.{included_candidates, included_of}
use ctxalloc.Allocation.Eviction.{optional_inclusions, optional_not_required, evicted_safe}
use ctxalloc.Allocation.Origins.{allocate-included}

module _ (a : Allocator) where
  evict-All {κ} :
      (P : ScoredCandidate → Type κ) (xs : List ScoredCandidate) (counts : Table Text ℕ)
      → All P xs
      → All P (evict a xs counts)
  unfolding evict
  evict-All P [] counts h = tt
  evict-All P (x ∷ xs) counts h = elim (Option-cases (give_back a x counts)) [
    | inl held ↦ rw (held, evict) (evict-All P xs counts h.1)
    | inr (counts', back) ↦ rw (back, evict) (h.0, evict-All P xs counts' h.1)
  ]

  evict-weigh :
      (f : ScoredCandidate → ℕ) (xs : List ScoredCandidate) (counts : Table Text ℕ)
      → weigh f (evict a xs counts) ≤ weigh f xs
  unfolding evict
  evict-weigh f [] counts = omega arith
  evict-weigh f (x ∷ xs) counts = elim (Option-cases (give_back a x counts)) [
    | inl held ↦ rw (held, evict) (omega (arith, evict-weigh f xs counts))
    | inr (counts', back) ↦ rw (back, evict) (omega (arith, evict-weigh f xs counts'))
  ]

  eviction_order-weigh :
      (f : ScoredCandidate → ℕ) (s : State)
      → weigh f (eviction_order a s) ≤ weigh f (optional_inclusions s.included)
  unfolding eviction_order
  eviction_order-weigh f s = omega (
    arith,
    evict-weigh f (sort compare_eviction (optional_inclusions s.included)) s.selected_by_category,
    sort-SameItems compare_eviction (optional_inclusions s.included) f,
  )

optional-weigh :
    (f : ScoredCandidate → ℕ) (ds : List Included)
    → weigh f (optional_inclusions ds) ≤ weigh f (map (λ d. d.candidate) ds)
optional-weigh f ds = omega (
  arith,
  weigh-map f (λ (d : Included). d.candidate) (select is_optional_inclusion ds),
  weigh-map f (λ (d : Included). d.candidate) ds,
  weigh-select (λ (d : Included). f d.candidate) is_optional_inclusion ds,
  weigh_mono (λ (d : Included). if is_optional_inclusion d then f d.candidate else 0)
      (λ d. f d.candidate) ds (λ d. ground arith),
)

take-append : (xs ys : List ScoredCandidate) → take (length xs) (xs ++ ys) ≡ xs
take-append [] [] = refl
take-append [] (y ∷ ys) = refl
take-append (x ∷ xs) ys = ap (◌∷◌ x) (take-append xs ys)

-- What `allocate-IsSurplus` says of a list of candidates.
pub record IsSurplus {κ} (P : ScoredCandidate → Type κ) (a : Allocator) (r : Allocated)
    (es : List ScoredCandidate) : Type κ where
  pub published : map id_of es ≡ r.optional_eviction_order
  pub origin : All P es
  pub within : (f : ScoredCandidate → ℕ) → weigh f es ≤ weigh f (included_candidates r)
  pub not_required : count required_of es ≡ 0
  pub spare :
      (gone rest : List ScoredCandidate)
      → gone ++ rest ≡ es
      → (c : Text) (m : ℕ) → get c a.min_blocks ≡ some m
      → m + count (λ x. in_category c (category_of x)) gone ≤ included_of c r

pub allocate-IsSurplus {κ} :
    (P : ScoredCandidate → Type κ) (a : Allocator) (input : ScoredCandidateSet)
    → All P input.candidates
    → (budget : TokenBudget) {r : Allocated} → allocate a input budget ≡ ok r
    → (es : List ScoredCandidate) × IsSurplus P a r es
unfolding assemble eviction_order
allocate-IsSurplus P a input h budget e =
    let (s, run, same) = allocate-Run a input budget e in
    let included = rw same at (allocate-included P a input h budget e) in
    rw same (
      eviction_order a s,
      record {
        published = refl;
        origin =
            evict-All a P (sort compare_eviction (optional_inclusions s.included))
              s.selected_by_category
              (sort-All compare_eviction P (optional_inclusions s.included) (
                All-under P (λ d. d.candidate) (select is_optional_inclusion s.included)
                  (All-selected _ is_optional_inclusion s.included
                    (All-over P (λ d. d.candidate) s.included included))));
        within = λ f. omega (arith, eviction_order-weigh a f s, optional-weigh f s.included);
        not_required =
            omega (
              arith,
              eviction_order-weigh a (λ c. one (required_of c)) s,
              optional_not_required run,
            );
        spare = λ gone rest parts c m least. omega (
          arith,
          evicted_safe run c m (length gone) least,
          ap (λ xs. count (λ x. in_category c (category_of x)) (take (length gone) xs)) parts,
          ap (count (λ x. in_category c (category_of x))) (take-append gone rest),
          weigh-map (λ x. one (in_category c (category_of x))) (λ (d : Included). d.candidate)
              s.included,
        );
      },
    )
