-- ===== src/Shared/Lists.antt =====
-- Lists measured by native numbers, filters by Boolean tests, and weights of lists.
use Prim.Native.Nat.{ℕ, zero, suc, ◌+◌, ◌≤◌, min}
use mathlib.Core.Path.{◌≡◌, refl}
use mathlib.Core.Bool.{Bool, true, false, not}
use mathlib.Core.List.{List, [], ◌∷◌, ◌++◌, map}
use native.Mathlib.Omega.{arith}
use ctxalloc.Shared.Tests.{if◌then◌else◌, Bool-cases}
use mathlib.Core.Logic.{inl, inr}

module _ {ℓ} {A : Type ℓ} where
  abbrev pub length : List A → ℕ
  length [] = 0
  length (x ∷ xs) = suc (length xs)

  -- `xs.slice(0, n)`
  abbrev pub take : ℕ → List A → List A
  take zero xs = []
  take (suc n) [] = []
  take (suc n) (x ∷ xs) = x ∷ take n xs

  abbrev pub drop : ℕ → List A → List A
  drop zero xs = xs
  drop (suc n) [] = []
  drop (suc n) (x ∷ xs) = drop n xs

  -- `xs.filter(p)`
  abbrev pub select : (A → Bool) → List A → List A
  select p [] = []
  select p (x ∷ xs) = let rest = select p xs in if p x then x ∷ rest else rest

  -- The sum of the weights of the members. A weight of 0 or 1 counts the members with a property.
  abbrev pub weigh : (A → ℕ) → List A → ℕ
  weigh f [] = 0
  weigh f (x ∷ xs) = f x + weigh f xs

  abbrev pub All {κ} : (A → Type κ) → List A → Type κ
  All P [] = Unit
  All P (x ∷ xs) = P x × All P xs

-- The same members, each as often: every weight gives the two lists the same total.
abbrev pub SameItems {ℓ} : {A : Type ℓ} → List A → List A → Type ℓ
SameItems {A = A} xs ys = (f : A → ℕ) → weigh f xs ≡ weigh f ys

abbrev pub one : Bool → ℕ
one true = 1
one false = 0

-- How many members pass a test.
abbrev pub count {ℓ} : {A : Type ℓ} → (A → Bool) → List A → ℕ
count p = weigh (λ x. one (p x))

module _ {ℓ} {A : Type ℓ} where
  pub length-append : (xs ys : List A) → length (xs ++ ys) ≡ length xs + length ys
  length-append [] ys = omega arith
  length-append (x ∷ xs) ys = omega (arith, length-append xs ys)

  pub weigh-append : (f : A → ℕ) (xs ys : List A) → weigh f (xs ++ ys) ≡ weigh f xs + weigh f ys
  weigh-append f [] ys = omega arith
  weigh-append f (x ∷ xs) ys = omega (arith, weigh-append f xs ys)

  pub take-append-drop : (n : ℕ) (xs : List A) → take n xs ++ drop n xs ≡ xs
  take-append-drop zero xs = refl
  take-append-drop (suc n) [] = refl
  take-append-drop (suc n) (x ∷ xs) = rw (take-append-drop n xs)

  pub length-take : (n : ℕ) (xs : List A) → length (take n xs) ≡ min n (length xs)
  length-take zero xs = omega arith
  length-take (suc n) [] = omega arith
  length-take (suc n) (x ∷ xs) = omega (arith, length-take n xs)

  pub weigh-take-drop :
      (f : A → ℕ) (n : ℕ) (xs : List A) → weigh f (take n xs) + weigh f (drop n xs) ≡ weigh f xs
  weigh-take-drop f zero xs = omega arith
  weigh-take-drop f (suc n) [] = omega arith
  weigh-take-drop f (suc n) (x ∷ xs) = omega (arith, weigh-take-drop f n xs)

  pub weigh-take-le : (f : A → ℕ) (n : ℕ) (xs : List A) → weigh f (take n xs) ≤ weigh f xs
  weigh-take-le f n xs = omega (arith, weigh-take-drop f n xs)

  -- A filter weighs what its members weigh.
  pub weigh-select :
      (f : A → ℕ) (p : A → Bool) (xs : List A)
      → weigh f (select p xs) ≡ weigh (λ x. if p x then f x else 0) xs
  weigh-select f p [] = refl
  weigh-select f p (x ∷ xs) = ground (arith, weigh-select f p xs)

  -- A filter and its complement make up the list.
  pub weigh-partition :
      (f : A → ℕ) (p : A → Bool) (xs : List A)
      → weigh f (select p xs) + weigh f (select (λ x. not (p x)) xs) ≡ weigh f xs
  weigh-partition f p [] = refl
  weigh-partition f p (x ∷ xs) = ground (arith, weigh-partition f p xs)

  -- `xs.filter(p).length`
  pub length-select : (p : A → Bool) (xs : List A) → length (select p xs) ≡ count p xs
  length-select p [] = refl
  length-select p (x ∷ xs) = ground (arith, length-select p xs)

  pub weigh_mono : (f g : A → ℕ) (xs : List A) → ((x : A) → f x ≤ g x) → weigh f xs ≤ weigh g xs
  weigh_mono f g [] h = omega arith
  weigh_mono f g (x ∷ xs) h = omega (arith, h x, weigh_mono f g xs h)

  pub weigh_cong : (f g : A → ℕ) (xs : List A) → ((x : A) → f x ≡ g x) → weigh f xs ≡ weigh g xs
  weigh_cong f g [] h = refl
  weigh_cong f g (x ∷ xs) h = omega (arith, h x, weigh_cong f g xs h)

  -- Two weights that agree on every member.
  pub weigh_cong_All :
      (f g : A → ℕ) (xs : List A) → All (λ x. f x ≡ g x) xs → weigh f xs ≡ weigh g xs
  weigh_cong_All f g [] h = refl
  weigh_cong_All f g (x ∷ xs) h = omega (arith, weigh_cong_All f g xs h.1)

  pub weigh_add : (f g : A → ℕ) (xs : List A) → weigh (λ x. f x + g x) xs ≡ weigh f xs + weigh g xs
  weigh_add f g [] = omega arith
  weigh_add f g (x ∷ xs) = omega (arith, weigh_add f g xs)

  pub weigh-zero : (xs : List A) → weigh (λ _. 0) xs ≡ 0
  weigh-zero [] = refl
  weigh-zero (x ∷ xs) = omega (arith, weigh-zero xs)

  pub weigh_const : (k : Bool) (xs : List A) → count (λ _. k) xs ≡ (if k then length xs else 0)
  weigh_const true [] = refl
  weigh_const false [] = refl
  weigh_const true (x ∷ xs) = omega (arith, weigh_const true xs)
  weigh_const false (x ∷ xs) = omega (arith, weigh_const false xs)

  pub weigh-one-length : (xs : List A) → weigh (λ _. 1) xs ≡ length xs
  weigh-one-length [] = refl
  weigh-one-length (x ∷ xs) = omega (arith, weigh-one-length xs)

  pub SameItems-length : (xs ys : List A) → SameItems xs ys → length xs ≡ length ys
  SameItems-length xs ys h = omega (arith, h (λ _. 1), weigh-one-length xs, weigh-one-length ys)

  pub All-append {κ} : (P : A → Type κ) (xs ys : List A) → All P xs → All P ys → All P (xs ++ ys)
  All-append P [] ys h k = k
  All-append P (x ∷ xs) ys h k = (h.0, All-append P xs ys h.1 k)

  pub All-take {κ} : (P : A → Type κ) (n : ℕ) (xs : List A) → All P xs → All P (take n xs)
  All-take P zero xs h = tt
  All-take P (suc n) [] h = tt
  All-take P (suc n) (x ∷ xs) h = (h.0, All-take P n xs h.1)

  pub All-drop {κ} : (P : A → Type κ) (n : ℕ) (xs : List A) → All P xs → All P (drop n xs)
  All-drop P zero xs h = h
  All-drop P (suc n) [] h = tt
  All-drop P (suc n) (x ∷ xs) h = All-drop P n xs h.1

  pub All-map {κ ν} :
      {P : A → Type κ} {Q : A → Type ν} (xs : List A) → ((x : A) → P x → Q x) → All P xs → All Q xs
  All-map [] k h = tt
  All-map (x ∷ xs) k h = (k x h.0, All-map xs k h.1)

  pub All-both {κ ν} :
      (P : A → Type κ) (Q : A → Type ν) (xs : List A)
      → All P xs
      → All Q xs
      → All (λ x. P x × Q x) xs
  All-both P Q [] h k = tt
  All-both P Q (x ∷ xs) h k = ((h.0, k.0), All-both P Q xs h.1 k.1)

  pub All-selected {κ} :
      (P : A → Type κ) (p : A → Bool) (xs : List A) → All P xs → All P (select p xs)
  All-selected P p [] h = tt
  All-selected P p (x ∷ xs) h = elim (Bool-cases (p x)) [
    | inl e ↦ rw e (h.0, All-selected P p xs h.1)
    | inr e ↦ rw e (All-selected P p xs h.1)
  ]

  pub All-select : (p : A → Bool) (xs : List A) → All (λ x. p x ≡ true) (select p xs)
  All-select p [] = tt
  All-select p (x ∷ xs) = ground (arith, All-select p xs)

module _ {ℓ κ} {A : Type ℓ} {B : Type κ} where
  pub weigh-map :
      (f : B → ℕ) (g : A → B) (xs : List A) → weigh f (map g xs) ≡ weigh (λ x. f (g x)) xs
  weigh-map f g [] = refl
  weigh-map f g (x ∷ xs) = omega (arith, weigh-map f g xs)

  pub length-map : (f : A → B) (xs : List A) → length (map f xs) ≡ length xs
  length-map f [] = refl
  length-map f (x ∷ xs) = omega (arith, length-map f xs)

  -- A property of what a map makes.
  pub All-under {ν} :
      (P : B → Type ν) (f : A → B) (xs : List A) → All (λ x. P (f x)) xs → All P (map f xs)
  All-under P f [] h = tt
  All-under P f (x ∷ xs) h = (h.0, All-under P f xs h.1)

  pub All-over {ν} :
      (P : B → Type ν) (f : A → B) (xs : List A) → All P (map f xs) → All (λ x. P (f x)) xs
  All-over P f [] h = tt
  All-over P f (x ∷ xs) h = (h.0, All-over P f xs h.1)
