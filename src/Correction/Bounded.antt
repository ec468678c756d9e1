-- ===== src/Correction/Bounded.antt =====
-- When a selection of packages/compiler/src/context-compiler.ts keeps the bounds of every category.
use ctxalloc.Shared.{
  ℕ, ◌+◌, ◌-◌, ◌≤◌, ◌≡◌, true, false, none, or_zero, List, [], ◌∷◌, ◌++◌, arith, All, All-map,
  All-both, weigh, weigh-append, length-select, one, Text, text_eq, text_eq_iff, get, text_key,
  IsKeyed,
}
use ctxalloc.Candidates.{ScoredCandidate, category_of}
use ctxalloc.Allocation.Policy.{CategoryConstraint}
use ctxalloc.Allocation.State.{in_category}
use ctxalloc.Compiler.Budgets.{members_of}
use ctxalloc.Compiler.Grouping.{constraint_pairs}
use ctxalloc.Compiler.Reference.{held}
use ctxalloc.Compiler.Valid.{at_most, in_bounds, keeps}
use ctxalloc.Correction.Deficits.{minimum_of}

-- A selection has, of each constrained category, so many candidates as its constraint admits.
abbrev pub KeepsBounds : List CategoryConstraint → List ScoredCandidate → Type 0
KeepsBounds ks cs = All (λ k. in_bounds k (held k.category cs) ≡ true) ks

-- What the minimums ask of a category beside the required candidates.
abbrev pub owed : List CategoryConstraint → List ScoredCandidate → Text → ℕ
owed constraints required t = or_zero (minimum_of t constraints) - members_of t required

-- Neither a minimum nor the required candidates are over a maximum.
abbrev pub AreFeasible : List CategoryConstraint → List ScoredCandidate → Type 0
AreFeasible ks required =
    All
      (λ k.
        (at_most k.max_blocks (or_zero k.min_blocks) ≡ true)
        × (at_most k.max_blocks (held k.category required) ≡ true))
      ks

-- Without them every minimum is still kept.
abbrev pub AreSpare : List CategoryConstraint → List ScoredCandidate → List ScoredCandidate → Type 0
AreSpare ks included gone =
    All (λ k. or_zero k.min_blocks + held k.category gone ≤ held k.category included) ks

pub keeps-KeepsBounds :
    (ks : List CategoryConstraint) (required p : List ScoredCandidate)
    → keeps ks required p ≡ true
    → KeepsBounds ks (required ++ p)
unfolding keeps
keeps-KeepsBounds [] required p h = tt
keeps-KeepsBounds (k ∷ ks) required p h = (
  ground (arith, h, weigh-append (λ c. one (in_category k.category (category_of c))) required p),
  keeps-KeepsBounds ks required p (ground (arith, h)),
)

-- What is dropped leaves the minimums, and what is left stays within the maximums.
pub lessened-KeepsBounds :
    (ks : List CategoryConstraint) (included gone cs : List ScoredCandidate)
    → KeepsBounds ks included
    → AreSpare ks included gone
    → ((f : ScoredCandidate → ℕ) → weigh f cs + weigh f gone ≡ weigh f included)
    → KeepsBounds ks cs
lessened-KeepsBounds [] included gone cs h spare left = tt
lessened-KeepsBounds (k ∷ ks) included gone cs h spare left = (
  ground (arith, h.0, spare.0, left (λ c. one (in_category k.category (category_of c)))),
  lessened-KeepsBounds ks included gone cs h.1 spare.1 left,
)

-- Where all that is included keeps the bounds, and the required candidates are among it, neither
-- the minimums nor the required candidates are over a maximum.
pub included-AreFeasible :
    (ks : List CategoryConstraint) (included required : List ScoredCandidate)
    → KeepsBounds ks included
    → ((f : ScoredCandidate → ℕ) → weigh f required ≤ weigh f included)
    → AreFeasible ks required
included-AreFeasible [] included required h among = tt
included-AreFeasible (k ∷ ks) included required h among = (
  ground (arith, h.0, among (λ c. one (in_category k.category (category_of c)))),
  included-AreFeasible ks included required h.1 among,
)

pub absent_category :
    (ks : List CategoryConstraint) (t : Text)
    → get t (constraint_pairs ks) ≡ none
    → All (λ k. text_eq t k.category ≡ false) ks
unfolding get
absent_category [] t h = tt
absent_category (k ∷ ks) t h = (
  ground (arith, h, text_eq_iff t k.category, text_eq_iff k.category t),
  absent_category ks t (ground (arith, h)),
)

-- Under constraints of different categories, the minimum that is found is the constraint's own.
minimum_of-own :
    (ks : List CategoryConstraint)
    → IsKeyed (constraint_pairs ks)
    → All (λ k. minimum_of k.category ks ≡ k.min_blocks) ks
unfolding minimum_of
minimum_of-own [] h = tt
minimum_of-own (k ∷ ks) h = (
  ground (arith, text_eq_iff k.category k.category),
  All-map ks (λ j both. ground (arith, both.0, both.1))
      (All-both _ _ ks (absent_category ks k.category h.0) (minimum_of-own ks h.1)),
)

-- The required candidates with what is owed keep the bounds.
pub owed-KeepsBounds :
    (ks : List CategoryConstraint) (required p : List ScoredCandidate)
    → IsKeyed (constraint_pairs ks)
    → AreFeasible ks required
    → ((u : Text) → held u p ≡ owed ks required u)
    → KeepsBounds ks (required ++ p)
owed-KeepsBounds ks required p keyed feasible exact =
    All-map ks
      (λ k both. ground (
        arith,
        both.0,
        both.1,
        exact k.category,
        weigh-append (λ c. one (in_category k.category (category_of c))) required p,
        length-select (λ c. in_category k.category (category_of c)) required,
      ))
      (All-both _ _ ks (minimum_of-own ks keyed) feasible)
