-- ===== src/Shared/Sort.antt =====
-- `Array.prototype.sort` with a comparator: a stable sort. A comparator answers -1, 0 or 1, here
-- an `Ordering`, and members that tie keep the order in which they came.
use Prim.Native.Nat.{ℕ, ◌+◌, Ordering}
use mathlib.Core.Path.{◌≡◌, refl, subst, ◌∙◌}
use mathlib.Core.Logic.{◌≢◌, inl, inr}
use mathlib.Core.Bool.{true, false}
use mathlib.Core.List.{List, [], ◌∷◌, Permᴰ}
use native.Mathlib.Omega.{arith}
use ctxalloc.Shared.Tests.{if◌then◌else◌, flip, in_order, Bool-cases}
use ctxalloc.Shared.Lists.{weigh, All, SameItems, All-map}

-- What a comparator owes the sort: it is antisymmetric, and "not after" is transitive.
pub record IsComparator {ℓ} {A : Type ℓ} (cmp : A → A → Ordering) : Type ℓ where
  pub flips : (x y : A) → cmp y x ≡ flip (cmp x y)
  pub trans :
      (x y z : A)
      → in_order (cmp x y) ≡ true
      → in_order (cmp y z) ≡ true
      → in_order (cmp x z) ≡ true

module _ {ℓ} {A : Type ℓ} (cmp : A → A → Ordering) where
  unfoldable pub insert : A → List A → List A
  insert x [] = x ∷ []
  insert x (y ∷ ys) = let rest = insert x ys in if in_order (cmp x y) then x ∷ y ∷ ys else y ∷ rest

  unfoldable pub sort : List A → List A
  unfolding insert
  sort [] = []
  sort (x ∷ xs) = insert x (sort xs)

  -- Every member stands before those that come after it.
  abbrev pub IsSorted : List A → Type 0
  IsSorted [] = Unit
  IsSorted (x ∷ xs) = All (λ y. in_order (cmp x y) ≡ true) xs × IsSorted xs

  -- No two members tie.
  abbrev pub Distinct : List A → Type 0
  Distinct [] = Unit
  Distinct (x ∷ xs) = All (λ y. cmp x y ≢ Ordering.eq) xs × Distinct xs

  insert-weigh : (f : A → ℕ) (x : A) (xs : List A) → weigh f (insert x xs) ≡ f x + weigh f xs
  unfolding insert
  insert-weigh f x [] = refl
  insert-weigh f x (y ∷ ys) = ground (arith, insert-weigh f x ys)

  -- A sort neither loses a member nor makes one up.
  pub sort-SameItems : (xs : List A) → SameItems (sort xs) xs
  unfolding sort
  sort-SameItems [] f = refl
  sort-SameItems (x ∷ xs) f = ground (arith, insert-weigh f x (sort xs), sort-SameItems xs f)

  pub insert-All {κ} : (P : A → Type κ) (x : A) (xs : List A) → P x → All P xs → All P (insert x xs)
  unfolding insert
  insert-All P x [] p h = (p, tt)
  insert-All P x (y ∷ ys) p h = elim (Bool-cases (in_order (cmp x y))) [
    | inl e ↦ rw e (p, h)
    | inr e ↦ rw e (h.0, insert-All P x ys p h.1)
  ]

  pub sort-All {κ} : (P : A → Type κ) (xs : List A) → All P xs → All P (sort xs)
  unfolding sort
  sort-All P [] h = tt
  sort-All P (x ∷ xs) h = insert-All P x (sort xs) h.0 (sort-All P xs h.1)

  insert_past :
      (x y : A) (ys : List A) → in_order (cmp x y) ≡ false → insert x (y ∷ ys) ≡ y ∷ insert x ys
  unfolding insert
  insert_past x y ys e = rw e refl

  insert_here : (x y : A) (ys : List A) → in_order (cmp x y) ≡ true → insert x (y ∷ ys) ≡ x ∷ y ∷ ys
  unfolding insert
  insert_here x y ys e = rw e refl

  All-insert {κ} : (P : A → Type κ) (x : A) (ys : List A) → All P (insert x ys) → P x × All P ys
  unfolding insert
  All-insert P x [] h = h
  All-insert P x (y ∷ ys) h = elim (Bool-cases (in_order (cmp x y))) [
    | inl e ↦ subst (All P) (insert_here x y ys e) h
    | inr e ↦
        let past = subst (All P) (insert_past x y ys e) h in
        let rest = All-insert P x ys past.1 in (rest.0, (past.0, rest.1))
  ]

  -- What holds of the members of a sort holds of what was sorted.
  pub All-sort {κ} : (P : A → Type κ) (xs : List A) → All P (sort xs) → All P xs
  unfolding sort
  All-sort P [] h = tt
  All-sort P (x ∷ xs) h =
      let (first, rest) = All-insert P x (sort xs) h in (first, All-sort P xs rest)

module _ {ℓ} {A : Type ℓ} (cmp : A → A → Ordering) (laws : IsComparator cmp) where
  after-All :
      (x y : A) (ys : List A)
      → in_order (cmp x y) ≡ true
      → All (λ z. in_order (cmp y z) ≡ true) ys
      → All (λ z. in_order (cmp x z) ≡ true) ys
  after-All x y ys e h = All-map ys (λ z. laws.trans x y z e) h

  late : (x y : A) → in_order (cmp x y) ≡ false → in_order (cmp y x) ≡ true
  late x y e = ground (arith, laws.flips x y)

  insert-IsSorted : (x : A) (xs : List A) → IsSorted cmp xs → IsSorted cmp (insert cmp x xs)
  unfolding insert
  insert-IsSorted x [] h = (tt, tt)
  insert-IsSorted x (y ∷ ys) h = elim (Bool-cases (in_order (cmp x y))) [
    | inl e ↦ rw e ((e, after-All x y ys e h.0), h)
    | inr e ↦ rw e (insert-All cmp _ x ys (late x y e) h.0, insert-IsSorted x ys h.1)
  ]

  -- A sort puts its members in order.
  pub sort-IsSorted : (xs : List A) → IsSorted cmp (sort cmp xs)
  unfolding sort
  sort-IsSorted [] = tt
  sort-IsSorted (x ∷ xs) = insert-IsSorted x (sort cmp xs) (sort-IsSorted xs)

  -- Members that the comparator tells apart may be inserted in either order.
  insert_comm :
      (x y : A) (l : List A)
      → cmp x y ≢ Ordering.eq
      → insert cmp x (insert cmp y l) ≡ insert cmp y (insert cmp x l)
  unfolding insert
  insert_comm x y [] d = ground (arith, laws.flips x y)
  insert_comm x y (z ∷ l) d = ground (
    arith,
    laws.flips x y,
    laws.flips x z,
    laws.flips y z,
    laws.trans x y z,
    laws.trans y x z,
    insert_comm x y l d,
  )

  perm-All {κ} : (P : A → Type κ) {xs ys : List A} → Permᴰ xs ys → All P xs → All P ys
  perm-All P Permᴰ.nil h = tt
  perm-All P (Permᴰ.cons e p) h = (subst P e h.0, perm-All P p h.1)
  perm-All P (Permᴰ.swap e e') h = (subst P e' h.1.0, (subst P e h.0, h.1.1))
  perm-All P (Permᴰ.trans p q) h = perm-All P q (perm-All P p h)

  perm-Distinct : {xs ys : List A} → Permᴰ xs ys → Distinct cmp xs → Distinct cmp ys
  perm-Distinct Permᴰ.nil d = tt
  perm-Distinct (Permᴰ.cons {a} {b} {l₁} {l₂} e p) d =
      (subst (λ x. All (λ y. cmp x y ≢ Ordering.eq) l₂) e (perm-All _ p d.0), perm-Distinct p d.1)
  perm-Distinct (Permᴰ.swap {a} {b} {a'} {b'} {l} e e') d = (
    (
      λ t. d.0.0 (ground (arith, laws.flips a' b')),
      subst (λ x. All (λ y. cmp x y ≢ Ordering.eq) l) e' d.1.0,
    ),
    (subst (λ x. All (λ y. cmp x y ≢ Ordering.eq) l) e d.0.1, d.1.1),
  )
  perm-Distinct (Permᴰ.trans p q) d = perm-Distinct q (perm-Distinct p d)

  -- The result of a sort does not depend on the order in which its members came.
  pub sort_perm : {xs ys : List A} → Permᴰ xs ys → Distinct cmp xs → sort cmp xs ≡ sort cmp ys
  unfolding sort
  sort_perm Permᴰ.nil d = refl
  sort_perm (Permᴰ.cons e p) d = cc (e, sort_perm p d.1)
  sort_perm (Permᴰ.swap {a} {b} {l = l} e e') d = insert_comm a b (sort cmp l) d.0.0 ∙ cc (e, e')
  sort_perm (Permᴰ.trans p q) d = sort_perm p d ∙ sort_perm q (perm-Distinct p d)
