-- ===== src/Compiler/Reference.antt =====
-- The subsets of one size in lexicographic order, of which the search of
-- packages/compiler/src/context-compiler.ts wants those that keep every category's bounds.
use ctxalloc.Shared.{
  ℕ, zero, suc, ◌+◌, ◌≤◌, ◌≡◌, refl, ap, Bool, true, false, ◌&&◌, List, [], ◌∷◌, ◌++◌, map, arith,
  leb, length, select, All, All-map, All-append, count, weigh, one, Text, Table, tally, text_key,
}
use ctxalloc.Candidates.{ScoredCandidate, category_of}
use ctxalloc.Allocation.State.{in_category}
use ctxalloc.Compiler.Search.{CategoryBudget}

unfoldable pub combos {ℓ} : {A : Type ℓ} → ℕ → List A → List (List A)
combos zero xs = [] ∷ []
combos (suc k) [] = []
combos (suc k) (x ∷ xs) = map (λ s. x ∷ s) (combos k xs) ++ combos (suc k) xs

abbrev pub held : Text → List ScoredCandidate → ℕ
held t = count (λ c. in_category t (category_of c))

-- A completion of what is chosen keeps the bounds of every budget.
unfoldable pub completes : List CategoryBudget → Table Text ℕ → List ScoredCandidate → Bool
completes [] counts s = true
completes (b ∷ bs) counts s =
    (leb b.deficit (tally b.category counts + held b.category s)
      && leb (tally b.category counts + held b.category s) b.capacity)
    && completes bs counts s

module _ {ℓ} {A : Type ℓ} where
  pub select-append :
      (p : A → Bool) (xs ys : List A) → select p (xs ++ ys) ≡ select p xs ++ select p ys
  select-append p [] ys = refl
  select-append p (x ∷ xs) ys = ground (arith, select-append p xs ys)

  pub select-nothing : (p : A → Bool) (xs : List A) → All (λ x. p x ≡ false) xs → select p xs ≡ []
  select-nothing p [] h = refl
  select-nothing p (x ∷ xs) h = ground (arith, h.0, select-nothing p xs h.1)

module _ {ℓ κ} {A : Type ℓ} {B : Type κ} where
  pub map-append : (f : A → B) (xs ys : List A) → map f (xs ++ ys) ≡ map f xs ++ map f ys
  map-append f [] ys = refl
  map-append f (x ∷ xs) ys = ap (λ zs. f x ∷ zs) (map-append f xs ys)

  All-image {ν} :
      (P : B → Type ν) (f : A → B) (xs : List A) → All (λ x. P (f x)) xs → All P (map f xs)
  All-image P f [] h = tt
  All-image P f (x ∷ xs) h = (h.0, All-image P f xs h.1)

  pub select-map :
      (p : B → Bool) (q : A → Bool) (f : A → B) (xs : List A)
      → ((x : A) → p (f x) ≡ q x)
      → select p (map f xs) ≡ map f (select q xs)
  select-map p q f [] same = refl
  select-map p q f (x ∷ xs) same = ground (arith, same x, select-map p q f xs same)

-- A subset of a list has the size, and weighs no more than the list.
pub combos-weigh {ℓ} :
    {A : Type ℓ} (k : ℕ) (cs : List A)
    → All (λ s. (length s ≡ k) × ((f : A → ℕ) → weigh f s ≤ weigh f cs)) (combos k cs)
unfolding combos
combos-weigh zero cs = ((refl, λ f. omega arith), tt)
combos-weigh (suc k) [] = tt
combos-weigh (suc k) (c ∷ cs) =
    All-append _ (map (λ s. c ∷ s) (combos k cs)) (combos (suc k) cs)
      (All-image _ (λ s. c ∷ s) (combos k cs)
        (All-map (combos k cs) (λ s h. (omega (arith, h.0), λ f. omega (arith, h.1 f)))
          (combos-weigh k cs)))
      (All-map (combos (suc k) cs) (λ s h. (h.0, λ f. omega (arith, h.1 f)))
        (combos-weigh (suc k) cs))

-- A subset of a list has the size, and no more of a category than the list.
pub combos-within :
    (k : ℕ) (cs : List ScoredCandidate)
    → All (λ s. (length s ≡ k) × ((t : Text) → held t s ≤ held t cs)) (combos k cs)
combos-within k cs =
    All-map (combos k cs) (λ s h. (h.0, λ t. h.1 (λ c. one (in_category t (category_of c)))))
      (combos-weigh k cs)
