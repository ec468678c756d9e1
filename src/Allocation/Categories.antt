-- ===== src/Allocation/Categories.antt =====
-- How many blocks of a category the passes of packages/compiler/src/budget-allocator.ts take: the
-- picks for a minimum, the failures that were ruled out before, and the configured categories.
use ctxalloc.Shared.{
  ℕ, ◌≤◌, ◌≡◌, refl, ap, ◌∙◌, true, Option, none, some, List, [], ◌∷◌, arith, if◌then◌else◌, Text,
  text_eq, text_eq_iff, sort, sort-SameItems, sort-All, select, take, length, count, one, All,
  All-take, All-map, All-select, length-take, SameItems-length, weigh-append, weigh_cong_All,
  weigh_const, get, text_key,
}
use ctxalloc.Candidates.{category_of}
use ctxalloc.Allocation.Policy.{Allocator}
use ctxalloc.Allocation.State.{AllocationCandidate, in_category, compare_minimum_cost}
use ctxalloc.Allocation.Passes.{of_category, count_of, needed, picks_of, picks}

-- How many views of a list have a category.
abbrev pub held : Text → List AllocationCandidate → ℕ
held c = count (of_category c)

in_category_eq :
    (c k : Text) (o : Option Text) → in_category k o ≡ true → in_category c o ≡ text_eq c k
in_category_eq c k none h = cc
in_category_eq c k (some t) h = ground (arith, text_eq_iff k t)

module _ (a : Allocator) (required optional : List AllocationCandidate) where
  picks_of-All : (k : Text) → All (λ e. of_category k e ≡ true) (picks_of a required optional k)
  unfolding picks_of
  picks_of-All k = go (get k a.min_blocks)
    where
      go :
          (o : Option ℕ)
          → All
              (λ e. of_category k e ≡ true)
              (elim o [
                | none ↦ []
                | some m ↦
                    take
                      (needed m (count_of k required))
                      (sort compare_minimum_cost (select (of_category k) optional))
              ])
      go none = tt
      go (some m) =
          All-take _ (needed m (count_of k required)) _
            (sort-All compare_minimum_cost _ _ (All-select (of_category k) optional))

  held-picks_of :
      (c k : Text)
      → held c (picks_of a required optional k)
        ≡ (if text_eq c k then length (picks_of a required optional k) else 0)
  held-picks_of c k =
      weigh_cong_All (λ e. one (of_category c e)) (λ _. one (text_eq c k)) _
        (All-map _ (λ e h. ap one (in_category_eq c k (category_of e.scored) h)) (picks_of-All k))
      ∙ weigh_const (text_eq c k) (picks_of a required optional k)

  pub held-picks_zero :
      (c : Text) (cs : List Text)
      → count (text_eq c) cs ≡ 0
      → held c (picks a required optional cs) ≡ 0
  unfolding picks
  held-picks_zero c [] h = refl
  held-picks_zero c (k ∷ cs) h = ground (
    arith,
    weigh-append (λ e. one (of_category c e)) (picks_of a required optional k)
        (picks a required optional cs),
    held-picks_of c k,
    held-picks_zero c cs,
  )

  -- A category that is configured once has just its own picks in the union.
  pub held-picks :
      (c : Text) (cs : List Text)
      → count (text_eq c) cs ≡ 1
      → held c (picks a required optional cs) ≡ length (picks_of a required optional c)
  unfolding picks
  held-picks c [] h = absurd (omega arith)
  held-picks c (k ∷ cs) h = ground (
    arith,
    weigh-append (λ e. one (of_category c e)) (picks_of a required optional k)
        (picks a required optional cs),
    held-picks_of c k,
    text_eq_iff c k,
    held-picks_zero c cs,
    held-picks c cs,
  )

  pub length-picks_of-none :
      (c : Text) → get c a.min_blocks ≡ none → length (picks_of a required optional c) ≡ 0
  unfolding picks_of
  length-picks_of-none c e = rw (e, picks_of)

  pub length-picks_of :
      (c : Text) (m : ℕ)
      → get c a.min_blocks ≡ some m
      → needed m (count_of c required) ≤ count_of c optional
      → length (picks_of a required optional c) ≡ needed m (count_of c required)
  unfolding picks_of
  length-picks_of c m e enough =
      rw (e, picks_of)
        (omega (
          arith,
          length-take (needed m (count_of c required))
              (sort compare_minimum_cost (select (of_category c) optional)),
          SameItems-length _ _
              (sort-SameItems compare_minimum_cost (select (of_category c) optional)),
        ))
