-- ===== src/Allocation/Consistent.antt =====
-- The constructor of `BudgetAllocator` in packages/compiler/src/budget-allocator.ts accepts no
-- policy in which a category's minimum is over its maximum.
use ctxalloc.Shared.{
  ℕ, ◌+◌, ◌≤◌, ◌≡◌, refl, inl, inr, true, Option, none, some, List, [], ◌∷◌, arith, if◌then◌else◌,
  Option-cases, Text, text_eq, text_eq_iff, Table, get, put, get-put, text_key,
}
use ctxalloc.Allocation.Issue.{ok, Halves-ok, ok-injective}
use ctxalloc.Allocation.Policy.{
  CategoryConstraint, Policy, constraints_of, has_valid_bounds, is_valid_constraint, all_valid,
  is_accepted, duplicates_from, parse_policy, put_bound, min_lookup, max_lookup, Allocator,
  construct,
}
use ctxalloc.Allocation.Bounds.{IsConsistent}

-- The two lookups while constraints enter them: `seen` has the categories that did.
record Agree (seen min max : Table Text ℕ) : Type 0 where
  ordered : (t : Text) (m n : ℕ) → get t min ≡ some m → get t max ≡ some n → m ≤ n
  fresh : (t : Text) → get t seen ≡ none → (get t min ≡ none) × (get t max ≡ none)

abbrev or_else : Option ℕ → Option ℕ → Option ℕ
or_else none other = other
or_else (some n) other = some n

pub get-put_bound :
    (k t : Text) (o : Option ℕ) (m : Table Text ℕ)
    → get t (put_bound k o m) ≡ (if text_eq k t then or_else o (get t m) else get t m)
unfolding put_bound
get-put_bound k t none m = ground arith
get-put_bound k t (some n) m = get-put k t n m

valid_bounds_le :
    (o p : Option ℕ) (m n : ℕ) → has_valid_bounds o p ≡ true → o ≡ some m → p ≡ some n → m ≤ n
unfolding has_valid_bounds
valid_bounds_le o p m n h e f = ground arith

enter :
    (c : CategoryConstraint) (i : ℕ) (seen min max : Table Text ℕ)
    → has_valid_bounds c.min_blocks c.max_blocks ≡ true
    → get c.category seen ≡ none
    → Agree seen min max
    → Agree
        (put c.category i seen)
        (put_bound c.category c.min_blocks min)
        (put_bound c.category c.max_blocks max)
enter c i seen min max valid new h = record {
  ordered = λ t m n low high. ground (
    arith,
    get-put_bound c.category t c.min_blocks min,
    get-put_bound c.category t c.max_blocks max,
    text_eq_iff c.category t,
    h.fresh c.category new,
    h.ordered t m n,
    valid_bounds_le c.min_blocks c.max_blocks m n valid,
  );
  fresh = λ t unseen. ground (
    arith,
    get-put_bound c.category t c.min_blocks min,
    get-put_bound c.category t c.max_blocks max,
    get-put c.category t i seen,
    h.fresh t,
  );
}

lookups_ordered :
    (cs : List CategoryConstraint) (i : ℕ) (seen min max : Table Text ℕ)
    → duplicates_from i seen cs ≡ []
    → all_valid cs ≡ true
    → Agree seen min max
    → (t : Text) (m n : ℕ) → get t (min_lookup cs min) ≡ some m
    → get t (max_lookup cs max) ≡ some n
    → m ≤ n
unfolding duplicates_from all_valid min_lookup max_lookup is_valid_constraint
lookups_ordered [] i seen min max unique valid h t m n low high = h.ordered t m n low high
lookups_ordered (c ∷ cs) i seen min max unique valid h t m n low high =
    elim (Option-cases (get c.category seen)) [
      | inl new ↦
          lookups_ordered cs (i + 1) (put c.category i seen) _ _ (ground arith) (ground arith)
            (enter c i seen min max (ground arith) new h) t m n low high
      | inr (first, old) ↦ absurd (ground arith)
    ]

pub accepted_parts :
    (p q : Policy)
    → parse_policy p ≡ ok q
    → (p ≡ q)
      × (all_valid (constraints_of p) ≡ true)
      × (duplicates_from 0 [] (constraints_of p) ≡ [])
unfolding parse_policy is_accepted
accepted_parts p q h = ground arith

nothing_agrees : Agree [] [] []
unfolding get
nothing_agrees = record {
  ordered = λ t m n low high. absurd (cc);
  fresh = λ t unseen. (refl, refl);
}

-- In an allocator that its constructor returns, no minimum is over the maximum of its category.
pub construct-IsConsistent : (p : Policy) {a : Allocator} → construct p ≡ ok a → IsConsistent a
unfolding construct
construct-IsConsistent p {a} h =
    let record { value = q; first = parsed; second = built } = Halves-ok (parse_policy p) _ h in
    let (same, valid, unique) = accepted_parts p q parsed in
    rw (← ok-injective built, ← same)
      (record {
        bounds = lookups_ordered (constraints_of p) 0 [] [] [] unique valid nothing_agrees;
      })
