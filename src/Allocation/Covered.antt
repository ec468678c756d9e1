-- ===== src/Allocation/Covered.antt =====
-- The configured categories of packages/compiler/src/budget-allocator.ts are distinct, and so the
-- candidates that they cover fall apart by category.
use ctxalloc.Shared.{
  contains, ℕ, ◌+◌, ◌≤◌, ◌≡◌, refl, Bool, false, Option, none, some, List, [], ◌∷◌, arith,
  if◌then◌else◌, Text, text_eq, text_eq_iff, text_eq_refl, compare_code_units, sort-SameItems,
  count, one, text_key,
}
use ctxalloc.Allocation.Policy.{Allocator, distinct_from, constrained_categories}
use ctxalloc.Allocation.State.{in_category}

-- The configured categories hold each category once.
pub contains_of_eq : (us : List Text) (t u : Text) → t ≡ u → contains us t ≡ contains us u
contains_of_eq us t u e = cc

distinct_from-count :
    (seen ts : List Text) (t : Text)
    → count (text_eq t) (distinct_from seen ts) + one (contains seen t) ≤ 1
unfolding distinct_from contains
distinct_from-count seen [] t = ground arith
distinct_from-count seen (u ∷ us) t = ground (
  arith,
  text_eq_iff t u,
  text_eq_iff u t,
  contains_of_eq seen t u,
  distinct_from-count seen us t,
  distinct_from-count (u ∷ seen) us t,
)

pub constrained_categories-count :
    (a : Allocator) (t : Text) → count (text_eq t) (constrained_categories a) ≤ 1
unfolding constrained_categories
constrained_categories-count a t = omega (
  arith,
  sort-SameItems compare_code_units _ (λ u. one (text_eq t u)),
  distinct_from-count [] _ t,
)

-- Whether a list of categories covers a candidate's.
unfoldable pub in_any : List Text → Option Text → Bool
in_any cs none = false
in_any cs (some k) = contains cs k

contains-zero : (cs : List Text) (t : Text) → count (text_eq t) cs ≡ 0 → contains cs t ≡ false
unfolding contains
contains-zero [] t h = refl
contains-zero (c ∷ cs) t h = ground (arith, text_eq_iff c t, text_eq_iff t c, contains-zero cs t)

-- One more category covers what it holds, where it is not among the others.
pub uncovered-cons :
    (c : Text) (cs : List Text) (o : Option Text) (n : ℕ)
    → contains cs c ≡ false
    → (if in_any cs o then 0 else n)
      ≡ (if in_any (c ∷ cs) o then 0 else n) + (if in_category c o then n else 0)
unfolding in_any contains
uncovered-cons c cs none n h = omega arith
uncovered-cons c cs (some k) n h = ground (arith, text_eq_iff c k, contains_of_eq cs c k)

pub uncovered-nil : (o : Option Text) (n : ℕ) → (if in_any [] o then 0 else n) ≡ n
unfolding in_any contains
uncovered-nil none n = refl
uncovered-nil (some k) n = refl

pub apart :
    (c : Text) (cs : List Text)
    → ((t : Text) → count (text_eq t) (c ∷ cs) ≤ 1)
    → contains cs c ≡ false
apart c cs once = contains-zero cs c (ground (arith, once c, text_eq_refl c))
