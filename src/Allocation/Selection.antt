-- ===== src/Allocation/Selection.antt =====
-- A selection of candidates that satisfies the policy of packages/compiler/src/budget-allocator.ts
-- within a number of tokens, and what it says about the blocks that the passes need.
use ctxalloc.Shared.{
  ℕ, ◌+◌, ◌≤◌, ◌≡◌, refl, sym, ◌∙◌, Bool, true, false, not, some, List, [], ◌∷◌, arith,
  if◌then◌else◌, Text, weigh, count, one, weigh-select, weigh_cong, weigh_add, length-select, get,
  text_key,
}
use ctxalloc.Candidates.{ScoredCandidate, ScoredCandidateSet, tokens_of, required_of, category_of}
use ctxalloc.Allocation.Policy.{Allocator}
use ctxalloc.Allocation.State.{in_category}
use ctxalloc.Allocation.Passes.{of_category, count_of, needed}
use ctxalloc.Allocation.Allocate.{views, is_required_view, required_views, optional_views}
use ctxalloc.Allocation.Accounting.{weigh-views}

-- A part of the batch that holds every required candidate, keeps every category's bounds, and
-- costs no more than what is available.
pub record Selection (a : Allocator) (input : ScoredCandidateSet) (available : ℕ) : Type 0 where
  pub chosen : List ScoredCandidate
  pub unchosen : List ScoredCandidate
  pub splits :
      (f : ScoredCandidate → ℕ) → weigh f chosen + weigh f unchosen ≡ weigh f input.candidates
  pub all_required : count required_of unchosen ≡ 0
  pub minimums :
      (c : Text) (m : ℕ)
      → get c a.min_blocks ≡ some m
      → m ≤ count (λ x. in_category c (category_of x)) chosen
  pub maximums :
      (c : Text) (n : ℕ)
      → get c a.max_blocks ≡ some n
      → count (λ x. in_category c (category_of x)) chosen ≤ n
  pub affordable : weigh tokens_of chosen ≤ available

-- A weight of the required candidates, and of the others.
abbrev pub on_required : (ScoredCandidate → ℕ) → ScoredCandidate → ℕ
on_required f x = if required_of x then f x else 0

abbrev pub on_optional : (ScoredCandidate → ℕ) → ScoredCandidate → ℕ
on_optional f x = if required_of x then 0 else f x

abbrev pub in_cat : Text → ScoredCandidate → ℕ
in_cat c x = one (in_category c (category_of x))

pub weigh-required_views :
    (f : ScoredCandidate → ℕ) (input : ScoredCandidateSet)
    → weigh (λ e. f e.scored) (required_views input) ≡ weigh (on_required f) input.candidates
weigh-required_views f input =
    weigh-select (λ e. f e.scored) is_required_view (views input)
    ∙ weigh-views (on_required f) input

swapped : (b : Bool) (n : ℕ) → (if not b then n else 0) ≡ (if b then 0 else n)
swapped true n = refl
swapped false n = refl

pub weigh-optional_views :
    (f : ScoredCandidate → ℕ) (input : ScoredCandidateSet)
    → weigh (λ e. f e.scored) (optional_views input) ≡ weigh (on_optional f) input.candidates
weigh-optional_views f input =
    weigh-select (λ e. f e.scored) (λ e. not (is_required_view e)) (views input)
    ∙ weigh_cong _ (λ e. on_optional f e.scored) (views input)
        (λ e. swapped (required_of e.scored) (f e.scored))
    ∙ weigh-views (on_optional f) input

pub weigh-both :
    (f : ScoredCandidate → ℕ) (xs : List ScoredCandidate)
    → weigh (on_required f) xs + weigh (on_optional f) xs ≡ weigh f xs
weigh-both f xs =
    sym (weigh_add (on_required f) (on_optional f) xs)
    ∙ weigh_cong _ f xs (λ x. parts (required_of x) (f x))
  where
    parts : (b : Bool) (n : ℕ) → (if b then n else 0) + (if b then 0 else n) ≡ n
    parts true n = omega arith
    parts false n = omega arith

module _ {a : Allocator} {input : ScoredCandidateSet} {available : ℕ}
    (s : Selection a input available) where
  unchosen_optional : (f : ScoredCandidate → ℕ) → weigh (on_required f) s.unchosen ≡ 0
  unchosen_optional f = go s.unchosen s.all_required
    where
      go : (xs : List ScoredCandidate) → count required_of xs ≡ 0 → weigh (on_required f) xs ≡ 0
      go [] h = refl
      go (x ∷ xs) h = ground (arith, go xs)

  -- The selection holds all that is required.
  pub weigh-chosen_required :
      (f : ScoredCandidate → ℕ)
      → weigh (λ e. f e.scored) (required_views input) ≡ weigh (on_required f) s.chosen
  weigh-chosen_required f =
      omega (arith, weigh-required_views f input, s.splits (on_required f), unchosen_optional f)

  count-required :
      (c : Text) → count_of c (required_views input) ≡ weigh (on_required (in_cat c)) s.chosen
  count-required c =
      length-select (of_category c) (required_views input) ∙ weigh-chosen_required (in_cat c)

  pub required-le :
      (c : Text) (n : ℕ) → get c a.max_blocks ≡ some n → count_of c (required_views input) ≤ n
  required-le c n bound =
      omega (arith, count-required c, weigh-both (in_cat c) s.chosen, s.maximums c n bound)

  -- What a category's minimum needs beyond the required blocks is among the chosen optional ones.
  pub needed-chosen :
      (c : Text) (m : ℕ)
      → get c a.min_blocks ≡ some m
      → needed m (count_of c (required_views input)) ≤ weigh (on_optional (in_cat c)) s.chosen
  needed-chosen c m least =
      omega (arith, count-required c, weigh-both (in_cat c) s.chosen, s.minimums c m least)

  pub needed-le :
      (c : Text) (m : ℕ)
      → get c a.min_blocks ≡ some m
      → needed m (count_of c (required_views input)) ≤ count_of c (optional_views input)
  needed-le c m least = omega (
    arith,
    needed-chosen c m least,
    length-select (of_category c) (optional_views input),
    weigh-optional_views (in_cat c) input,
    s.splits (on_optional (in_cat c)),
  )
