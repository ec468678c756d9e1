-- ===== src/Allocation/Reserved.antt =====
-- The set `reserved` of packages/compiler/src/budget-allocator.ts splits the optional candidates:
-- those picked for a category minimum, and those left to the general pass.
use ctxalloc.Shared.{
  contains, ℕ, ◌+◌, ◌≤◌, ◌≡◌, refl, ◌∙◌, Bool, true, false, not, Option, none, some, List, [], ◌∷◌,
  ◌++◌, arith, ◌==◌, if◌then◌else◌, Text, text_eq, sort, sort-SameItems, select, take, drop, weigh,
  count, one, All, All-map, weigh-append, weigh-select, weigh-take-drop, weigh_cong, weigh_cong_All,
  weigh_add, weigh-zero, get, text_key,
}
use ctxalloc.Candidates.{category_of}
use ctxalloc.Allocation.Policy.{Allocator, constrained_categories}
use ctxalloc.Allocation.State.{AllocationCandidate, compare_minimum_cost}
use ctxalloc.Allocation.Passes.{of_category, count_of, needed, picks_of, picks, has}
use ctxalloc.Allocation.Allocate.{unreserved}
use ctxalloc.Allocation.Handles.{handle_count}
use ctxalloc.Allocation.Covered.{
  in_any, uncovered-cons, uncovered-nil, apart, constrained_categories-count,
}
use ctxalloc.Allocation.Moves.{add_handles}

-- What a list of categories does not cover of a weight.
outside : List Text → (AllocationCandidate → ℕ) → AllocationCandidate → ℕ
unfolding in_any
outside cs f e = if in_any cs (category_of e.scored) then 0 else f e

outside-cons :
    (c : Text) (cs : List Text) (f : AllocationCandidate → ℕ) (e : AllocationCandidate)
    → contains cs c ≡ false
    → outside cs f e ≡ outside (c ∷ cs) f e + (if of_category c e then f e else 0)
unfolding outside
outside-cons c cs f e h = uncovered-cons c cs (category_of e.scored) (f e) h

outside-nil : (f : AllocationCandidate → ℕ) (e : AllocationCandidate) → outside [] f e ≡ f e
unfolding outside
outside-nil f e = uncovered-nil (category_of e.scored) (f e)

negated : (b : Bool) (n : ℕ) → (if not b then n else 0) ≡ (if b then 0 else n)
negated true n = refl
negated false n = refl

no_handles : (e : AllocationCandidate) → has [] e ≡ false
unfolding has
no_handles e = refl

module _ (a : Allocator) (required optional : List AllocationCandidate) where
  -- What a category's picks leave of the category.
  left_of : Text → List AllocationCandidate
  left_of c = elim (get c a.min_blocks) [
    | none ↦ select (of_category c) optional
    | some m ↦
        drop (needed m (count_of c required))
          (sort compare_minimum_cost (select (of_category c) optional))
  ]

  left : List Text → List AllocationCandidate
  left [] = []
  left (c ∷ cs) = left_of c ++ left cs

  picks_of-left_of :
      (f : AllocationCandidate → ℕ) (c : Text)
      → weigh f (picks_of a required optional c) + weigh f (left_of c)
        ≡ weigh f (select (of_category c) optional)
  unfolding picks_of left_of
  picks_of-left_of f c = go (get c a.min_blocks)
    where
      go :
          (o : Option ℕ)
          → weigh f (elim o [
            | none ↦ []
            | some m ↦
                take
                  (needed m (count_of c required))
                  (sort compare_minimum_cost (select (of_category c) optional))
          ])
              + weigh f (elim o [
                | none ↦ select (of_category c) optional
                | some m ↦
                    drop
                      (needed m (count_of c required))
                      (sort compare_minimum_cost (select (of_category c) optional))
              ])
            ≡ weigh f (select (of_category c) optional)
      go none = omega arith
      go (some m) =
          weigh-take-drop f (needed m (count_of c required)) _
          ∙ sort-SameItems compare_minimum_cost (select (of_category c) optional) f

  picks-left :
      (f : AllocationCandidate → ℕ) (cs : List Text)
      → ((t : Text) → count (text_eq t) cs ≤ 1)
      → weigh f (picks a required optional cs) + weigh f (left cs) + weigh (outside cs f) optional
        ≡ weigh f optional
  unfolding picks left
  picks-left f [] once = omega (arith, weigh_cong (outside [] f) f optional (outside-nil f))
  picks-left f (c ∷ cs) once = omega (
    arith,
    weigh-append f (picks_of a required optional c) (picks a required optional cs),
    weigh-append f (left_of c) (left cs),
    picks_of-left_of f c,
    picks-left f cs (λ t. omega (arith, once t)),
    weigh-select f (of_category c) optional,
    weigh_cong (outside cs f) _ optional (λ e. outside-cons c cs f e (apart c cs once)),
    weigh_add (outside (c ∷ cs) f) (λ e. if of_category c e then f e else 0) optional,
  )

  -- The union of the picks, and all that the picks leave.
  rest : List Text → List AllocationCandidate
  rest cs = left cs ++ select (λ e. not (in_any cs (category_of e.scored))) optional

  picks-rest :
      (cs : List Text)
      → ((t : Text) → count (text_eq t) cs ≤ 1)
      → (f : AllocationCandidate → ℕ)
      → weigh f (picks a required optional cs) + weigh f (rest cs) ≡ weigh f optional
  unfolding rest outside
  picks-rest cs once f = omega (
    arith,
    weigh-append f (left cs) (select (λ e. not (in_any cs (category_of e.scored))) optional),
    picks-left f cs once,
    weigh-select f (λ e. not (in_any cs (category_of e.scored))) optional,
    weigh_cong (λ e. if not (in_any cs (category_of e.scored)) then f e else 0) _ optional
        (λ e. negated (in_any cs (category_of e.scored)) (f e)),
  )

has-add_handles :
    (es : List AllocationCandidate) (hs : List ℕ) (e : AllocationCandidate)
    → one (has (add_handles es hs) e) ≤ one (has hs e) + handle_count e.handle es
unfolding has
has-add_handles [] hs e = omega arith
has-add_handles (x ∷ es) hs e = ground (arith, has-add_handles es (x.handle ∷ hs) e)

kept-add_handles :
    (es : List AllocationCandidate) (hs : List ℕ) (e : AllocationCandidate)
    → has hs e ≡ true
    → has (add_handles es hs) e ≡ true
unfolding has
kept-add_handles [] hs e h = h
kept-add_handles (x ∷ es) hs e h = kept-add_handles es (x.handle ∷ hs) e (ground arith)

-- Every view that was added is in the set.
add_handles-All :
    (es : List AllocationCandidate) (hs : List ℕ) → All (λ e. has (add_handles es hs) e ≡ true) es
unfolding has
add_handles-All [] hs = tt
add_handles-All (x ∷ es) hs =
    (kept-add_handles es (x.handle ∷ hs) x (ground arith), add_handles-All es (x.handle ∷ hs))

-- No view is in the set whose handle none of the added views has.
none_reserved :
    (picked xs : List AllocationCandidate)
    → ((h : ℕ) → handle_count h picked + handle_count h xs ≤ 1)
    → All (λ e. has (add_handles picked []) e ≡ false) xs
none_reserved picked [] once = tt
none_reserved picked (x ∷ xs) once = (
  ground (arith, once x.handle, has-add_handles picked [] x, no_handles x),
  none_reserved picked xs (λ h. omega (arith, once h)),
)

-- What is reserved and what is not make up the optional candidates.
pub picks-unreserved :
    (a : Allocator) (required optional : List AllocationCandidate)
    → ((h : ℕ) → handle_count h optional ≤ 1)
    → (f : AllocationCandidate → ℕ)
    → let union = picks a required optional (constrained_categories a) in
      weigh f union + weigh f (unreserved (add_handles union []) optional) ≡ weigh f optional
picks-unreserved a required optional once f = omega (
  arith,
  weigh-select f outsider optional,
  split kept,
  split f,
  weigh_cong_All kept (λ _. 0) union
      (All-map union (λ e h. dropped_if e h) (add_handles-All union [])),
  weigh-zero union,
  weigh_cong_All kept f others (
      All-map others (λ e h. kept_if e h)
        (none_reserved union others
          (λ h. omega (arith, once h, split (λ e. one (h == e.handle)))))),
)
  where
    union : List AllocationCandidate
    union = picks a required optional (constrained_categories a)

    others : List AllocationCandidate
    others = rest a required optional (constrained_categories a)

    outsider : AllocationCandidate → Bool
    outsider e = not (has (add_handles union []) e)

    kept : AllocationCandidate → ℕ
    kept e = if outsider e then f e else 0

    split : (g : AllocationCandidate → ℕ) → weigh g union + weigh g others ≡ weigh g optional
    split = picks-rest a required optional _ (constrained_categories-count a)

    dropped_if : (e : AllocationCandidate) → has (add_handles union []) e ≡ true → kept e ≡ 0
    dropped_if e h = rw h

    kept_if : (e : AllocationCandidate) → has (add_handles union []) e ≡ false → kept e ≡ f e
    kept_if e h = rw h
