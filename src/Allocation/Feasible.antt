-- ===== src/Allocation/Feasible.antt =====
-- What `#detectCategoryCountFailures` of packages/compiler/src/budget-allocator.ts rules out, and
-- that it looks at each category that has a bound.
use ctxalloc.Shared.{
  contains, ℕ, ◌+◌, ◌≤◌, ◌≡◌, refl, inl, inr, some, List, [], ◌∷◌, ◌++◌, arith, Bool-cases, Text,
  text_eq, text_eq_iff, text_eq→eq, compare_code_units, sort-SameItems, count, one, weigh-append,
  Table, get, text_key,
}
use ctxalloc.Allocation.Issue.{Issue}
use ctxalloc.Allocation.Policy.{Allocator, distinct_from, constrained_categories, keys}
use ctxalloc.Allocation.State.{AllocationCandidate}
use ctxalloc.Allocation.Passes.{
  count_of, needed, maximum_issues, minimum_issues, detect_count_failures,
}
use ctxalloc.Allocation.Covered.{constrained_categories-count}

append-nil_left : (xs ys : List Issue) → xs ++ ys ≡ [] → (xs ≡ []) × (ys ≡ [])
append-nil_left [] ys h = (refl, h)
append-nil_left (x ∷ xs) ys h = absurd (cc)

get-keys : (c : Text) (n : ℕ) (m : Table Text ℕ) → get c m ≡ some n → 1 ≤ count (text_eq c) (keys m)
unfolding get
get-keys c n [] h = absurd (ground arith)
get-keys c n ((j, v) ∷ m) h = ground (arith, text_eq_iff j c, text_eq_iff c j, get-keys c n m)

distinct_from-count_pos :
    (seen ts : List Text) (t : Text)
    → 1 ≤ count (text_eq t) ts
    → 1 ≤ count (text_eq t) (distinct_from seen ts) + one (contains seen t)
unfolding distinct_from contains
distinct_from-count_pos seen [] t h = absurd (omega arith)
distinct_from-count_pos seen (u ∷ us) t h = ground (
  arith,
  text_eq_iff t u,
  text_eq_iff u t,
  contains_same seen t u,
  distinct_from-count_pos seen us t,
  distinct_from-count_pos (u ∷ seen) us t,
)
  where
    contains_same : (us : List Text) (t u : Text) → t ≡ u → contains us t ≡ contains us u
    contains_same us t u e = cc

-- A category with a bound is configured exactly once.
pub constrained_of_bound :
    (a : Allocator) (c : Text)
    → 1 ≤ count (text_eq c) (keys a.min_blocks) + count (text_eq c) (keys a.max_blocks)
    → count (text_eq c) (constrained_categories a) ≡ 1
unfolding constrained_categories contains
constrained_of_bound a c h = omega (
  arith,
  constrained_categories-count a c,
  sort-SameItems compare_code_units (distinct_from [] (keys a.min_blocks ++ keys a.max_blocks))
      (λ u. one (text_eq c u)),
  distinct_from-count_pos [] (keys a.min_blocks ++ keys a.max_blocks) c (
      omega
        (arith, h, weigh-append (λ u. one (text_eq c u)) (keys a.min_blocks) (keys a.max_blocks))),
)

pub constrained_of_min :
    (a : Allocator) (c : Text) (m : ℕ)
    → get c a.min_blocks ≡ some m
    → count (text_eq c) (constrained_categories a) ≡ 1
constrained_of_min a c m e = constrained_of_bound a c (omega (arith, get-keys c m a.min_blocks e))

pub constrained_of_max :
    (a : Allocator) (c : Text) (m : ℕ)
    → get c a.max_blocks ≡ some m
    → count (text_eq c) (constrained_categories a) ≡ 1
constrained_of_max a c m e = constrained_of_bound a c (omega (arith, get-keys c m a.max_blocks e))

module _ (a : Allocator) (required optional : List AllocationCandidate) where
  no_issues :
      (c : Text) (cs : List Text)
      → count (text_eq c) cs ≡ 1
      → detect_count_failures a required optional cs ≡ []
      → (maximum_issues a required optional c ≡ []) × (minimum_issues a required optional c ≡ [])
  unfolding detect_count_failures
  no_issues c [] once h = absurd (omega arith)
  no_issues c (k ∷ cs) once h =
      let (max, rest) = append-nil_left _ _ h in
      let (min, later) = append-nil_left _ _ rest in
      elim (Bool-cases (text_eq c k)) [
        | inl same ↦ rw (text_eq→eq c k same) (max, min)
        | inr other ↦ no_issues c cs (ground arith) later
      ]

  -- No category with a maximum has more required blocks.
  pub required-le-max :
      (c : Text) (m : ℕ)
      → detect_count_failures a required optional (constrained_categories a) ≡ []
      → get c a.max_blocks ≡ some m
      → count_of c required ≤ m
  unfolding maximum_issues
  required-le-max c m h e =
      ground (arith, (no_issues c (constrained_categories a) (constrained_of_max a c m e) h).0)

  -- A category with a minimum has the optional blocks that it still needs.
  pub needed-le-optional :
      (c : Text) (m : ℕ)
      → detect_count_failures a required optional (constrained_categories a) ≡ []
      → get c a.min_blocks ≡ some m
      → needed m (count_of c required) ≤ count_of c optional
  unfolding minimum_issues
  needed-le-optional c m h e =
      ground (arith, (no_issues c (constrained_categories a) (constrained_of_min a c m e) h).1)
