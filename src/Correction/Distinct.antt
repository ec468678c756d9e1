-- ===== src/Correction/Distinct.antt =====
-- The categories that `#categoryDeficits` of packages/compiler/src/context-compiler.ts goes through.
use ctxalloc.Shared.{
  ℕ, ◌+◌, ◌≤◌, ◌≡◌, refl, ap, subst, inl, inr, Bool, Bool-cases, Option, none, some, List, [], ◌∷◌,
  map, arith, if◌then◌else◌, select, count, one, weigh, weigh-map, weigh-zero, compare_code_units,
  weigh_cong, weigh_add, sort-SameItems, Text, text_eq, text_eq_iff, get, text_key, IsKeyed,
}
use ctxalloc.Candidates.{ScoredCandidate, category_of}
use ctxalloc.Allocation.Policy.{CategoryConstraint}
use ctxalloc.Allocation.State.{in_category}
use ctxalloc.Compiler.Grouping.{constraint_pairs}
use ctxalloc.Correction.Deficits.{is_some, minimum_of, minimum_categories}
use ctxalloc.Correction.Spans.{of_category, owed_at}

-- No text occurs twice.
abbrev AreDistinct : List Text → Type 0
AreDistinct ts = (u : Text) → count (λ t. text_eq t u) ts ≤ 1

pub count_none {ℓ} :
    {A : Type ℓ} (p : A → Bool) (k : ℕ) (ts : List A)
    → count p ts ≡ 0
    → weigh (λ t. if p t then k else 0) ts ≡ 0
count_none p k [] h = refl
count_none p k (t ∷ ts) h = ground (arith, count_none p k ts)

once_at_most {ℓ} :
    {A : Type ℓ} (p : A → Bool) (k : ℕ) (ts : List A)
    → count p ts ≤ 1
    → weigh (λ t. if p t then k else 0) ts ≤ k
once_at_most p k [] h = omega arith
once_at_most p k (t ∷ ts) h = ground (arith, count_none p k ts, once_at_most p k ts)

in_one_category :
    (ts : List Text) (o : Option Text) (k : ℕ)
    → AreDistinct ts
    → weigh (λ t. if in_category t o then k else 0) ts ≤ k
in_one_category ts none k h = omega (arith, weigh-zero ts)
in_one_category ts (some u) k h = once_at_most (λ t. text_eq t u) k ts (h u)

-- Different categories weigh no more together than the candidates.
pub categories-le :
    (ts : List Text) (f : ScoredCandidate → ℕ) (cs : List ScoredCandidate)
    → AreDistinct ts
    → weigh (λ t. weigh f (of_category t cs)) ts ≤ weigh f cs
categories-le ts f [] h = omega (arith, weigh-zero ts)
categories-le ts f (c ∷ cs) h = omega (
  arith,
  weigh_cong (λ t. weigh f (of_category t (c ∷ cs)))
      (λ t. (if in_category t (category_of c) then f c else 0) + weigh f (of_category t cs)) ts
      (λ t. ground arith),
  weigh_add (λ t. if in_category t (category_of c) then f c else 0)
      (λ t. weigh f (of_category t cs)) ts,
  in_one_category ts (category_of c) (f c) h,
  categories-le ts f cs h,
)

absent-count :
    (ks : List CategoryConstraint) (u : Text)
    → get u (constraint_pairs ks) ≡ none
    → count (λ k. text_eq k.category u) ks ≡ 0
unfolding get
absent-count [] u h = refl
absent-count (k ∷ ks) u h = ground (arith, absent-count ks u)

keyed-count :
    (ks : List CategoryConstraint) (u : Text)
    → IsKeyed (constraint_pairs ks)
    → count (λ k. text_eq k.category u) ks ≤ 1
keyed-count [] u h = omega arith
keyed-count (k ∷ ks) u h = ground (
  arith,
  text_eq_iff k.category u,
  h.0,
  absent-count ks u,
  absent-count ks k.category,
  keyed-count ks u h.1,
)

weigh-select-le {ℓ} :
    {A : Type ℓ} (f : A → ℕ) (p : A → Bool) (xs : List A) → weigh f (select p xs) ≤ weigh f xs
weigh-select-le f p [] = omega arith
weigh-select-le f p (x ∷ xs) = ground (arith, weigh-select-le f p xs)

pub minimum_categories-AreDistinct :
    (constraints : List CategoryConstraint)
    → IsKeyed (constraint_pairs constraints)
    → AreDistinct (minimum_categories constraints)
unfolding minimum_categories
minimum_categories-AreDistinct constraints keyed u = omega (
  arith,
  sort-SameItems compare_code_units
      (map (λ k. k.category)
        (select (λ (k : CategoryConstraint). is_some k.min_blocks) constraints))
      (λ t. one (text_eq t u)),
  weigh-map (λ t. one (text_eq t u)) (λ (k : CategoryConstraint). k.category)
      (select (λ k. is_some k.min_blocks) constraints),
  weigh-select-le (λ (k : CategoryConstraint). one (text_eq k.category u))
      (λ k. is_some k.min_blocks) constraints,
  keyed-count constraints u keyed,
)

-- What is owed to the categories of some constraints with a minimum, of one category.
abbrev owed_among : (Text → ℕ) → Text → List CategoryConstraint → ℕ
owed_among owed u ks =
    weigh (λ (k : CategoryConstraint). owed_at owed u k.category)
      (select (λ k. is_some k.min_blocks) ks)

absent-owed :
    (ks : List CategoryConstraint) (owed : Text → ℕ) (u : Text)
    → get u (constraint_pairs ks) ≡ none
    → owed_among owed u ks ≡ 0
unfolding get
absent-owed [] owed u h = refl
absent-owed (k ∷ ks) owed u h = ground (arith, absent-owed ks owed u)

-- Under constraints of different categories, what is owed is owed once.
once-owed :
    (ks : List CategoryConstraint) (owed : Text → ℕ) (u : Text)
    → IsKeyed (constraint_pairs ks)
    → owed_among owed u ks ≡ (if is_some (minimum_of u ks) then owed u else 0)
unfolding minimum_of
once-owed [] owed u h = refl
once-owed (k ∷ ks) owed u h = elim (Bool-cases (text_eq k.category u)) [
  | inl same ↦
      let e = (text_eq_iff k.category u).0 same in
      let none_left =
        absent-owed ks owed u (subst (λ t. get t (constraint_pairs ks) ≡ none) e h.0) in
      ground (arith, same, none_left, ap owed e)
  | inr other ↦ ground (arith, other, once-owed ks owed u h.1)
]

-- Among the categories that are gone through, what is owed to one is owed once.
pub minimum_categories-owed :
    (constraints : List CategoryConstraint) (owed : Text → ℕ) (u : Text)
    → IsKeyed (constraint_pairs constraints)
    → (minimum_of u constraints ≡ none → owed u ≡ 0)
    → weigh (owed_at owed u) (minimum_categories constraints) ≡ owed u
unfolding minimum_categories
minimum_categories-owed constraints owed u keyed free = ground (
  arith,
  sort-SameItems compare_code_units
      (map (λ k. k.category)
        (select (λ (k : CategoryConstraint). is_some k.min_blocks) constraints))
      (owed_at owed u),
  weigh-map (owed_at owed u) (λ (k : CategoryConstraint). k.category)
      (select (λ k. is_some k.min_blocks) constraints),
  once-owed constraints owed u keyed,
  free,
)
