-- ===== src/Shared/Pairs.antt =====
-- Relations between every two members of a list.
use mathlib.Core.Logic.{inl, inr}
use mathlib.Core.List.{List, [], ◌∷◌, map}
use Prim.Native.Nat.{Ordering}
use ctxalloc.Shared.Tests.{in_order, Bool-cases}
use ctxalloc.Shared.Lists.{All, All-map, All-both, All-under, All-over}
use ctxalloc.Shared.Sort.{insert, sort, insert-All, sort-All}

abbrev pub Pairwise {ℓ κ} : {A : Type ℓ} → (A → A → Type κ) → List A → Type κ
Pairwise R [] = Unit
Pairwise R (x ∷ xs) = All (R x) xs × Pairwise R xs

module _ {ℓ κ} {A : Type ℓ} (R : A → A → Type κ) where
  -- A relation between members with a property.
  pub Pairwise-map {ν ι} :
      (S : A → A → Type ν) (P : A → Type ι) (xs : List A)
      → ((x y : A) → P x → P y → R x y → S x y)
      → All P xs
      → Pairwise R xs
      → Pairwise S xs
  Pairwise-map S P [] k p h = tt
  Pairwise-map S P (x ∷ xs) k p h = (
    All-map xs (λ y (q, r). k x y p.0 q r) (All-both P (R x) xs p.1 h.0),
    Pairwise-map S P xs k p.1 h.1,
  )

  insert-Pairwise :
      (cmp : A → A → Ordering) (x : A) (xs : List A)
      → ((x y : A) → R x y → R y x)
      → All (R x) xs
      → Pairwise R xs
      → Pairwise R (insert cmp x xs)
  unfolding insert
  insert-Pairwise cmp x [] flips h k = (tt, tt)
  insert-Pairwise cmp x (y ∷ ys) flips h k = elim (Bool-cases (in_order (cmp x y))) [
    | inl e ↦ rw e (h, k)
    | inr e ↦
        rw e (insert-All cmp (R y) x ys (flips x y h.0) k.0, insert-Pairwise cmp x ys flips h.1 k.1)
  ]

  -- A sort keeps what holds between every two members in either order.
  pub sort-Pairwise :
      (cmp : A → A → Ordering) (xs : List A)
      → ((x y : A) → R x y → R y x)
      → Pairwise R xs
      → Pairwise R (sort cmp xs)
  unfolding sort
  sort-Pairwise cmp [] flips h = tt
  sort-Pairwise cmp (x ∷ xs) flips h =
      insert-Pairwise cmp x (sort cmp xs) flips (sort-All cmp (R x) xs h.0)
        (sort-Pairwise cmp xs flips h.1)

module _ {ℓ κ ν} {A : Type ℓ} {B : Type κ} (R : B → B → Type ν) (f : A → B) where
  pub Pairwise-under : (xs : List A) → Pairwise (λ x y. R (f x) (f y)) xs → Pairwise R (map f xs)
  Pairwise-under [] h = tt
  Pairwise-under (x ∷ xs) h = (All-under (R (f x)) f xs h.0, Pairwise-under xs h.1)

  pub Pairwise-over : (xs : List A) → Pairwise R (map f xs) → Pairwise (λ x y. R (f x) (f y)) xs
  Pairwise-over [] h = tt
  Pairwise-over (x ∷ xs) h = (All-over (R (f x)) f xs h.0, Pairwise-over xs h.1)
