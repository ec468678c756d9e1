-- ===== src/Allocation/Cheapest.antt =====
-- Taking the first of a list sorted by cost is the cheapest way to take that many: the reason why
-- `#allocateCategoryMinimums` of packages/compiler/src/budget-allocator.ts may slice a sorted list.
use Prim.Native.Nat.{max}
use ctxalloc.Shared.{
  ℕ, zero, suc, ◌+◌, ◌-◌, ◌*◌, ◌≤◌, ◌≡◌, refl, ap, inl, inr, Bool-cases, Bool, List, [], ◌∷◌, arith,
  if◌then◌else◌, take, drop, length, length-take, weigh, All, All-map, All-drop, weigh-take-drop,
}

mul_mono : (a b c : ℕ) → a ≤ b → a * c ≤ b * c
mul_mono a b c h = grind arith

length_of_take {ℓ} : {A : Type ℓ} (k : ℕ) (xs : List A) → k ≤ length xs → length (take k xs) ≡ k
length_of_take k xs h = omega (arith, length-take k xs)

module _ {ℓ} {A : Type ℓ} (cost : A → ℕ) where
  -- Costs do not fall along the list.
  abbrev pub Ascending : List A → Type 0
  Ascending [] = Unit
  Ascending (x ∷ xs) = All (λ y. cost x ≤ cost y) xs × Ascending xs

  -- What is missing to a threshold.
  abbrev short : ℕ → A → ℕ
  short limit x = limit - cost x

  record Threshold (k : ℕ) (xs : List A) : Type 0 where
    limit : ℕ
    below : All (λ x. cost x ≤ limit) (take k xs)
    above : All (λ x. limit ≤ cost x) (drop k xs)

  All-both :
      (a b : ℕ) (xs : List A)
      → All (λ x. a ≤ cost x) xs
      → All (λ x. b ≤ cost x) xs
      → All (λ x. max a b ≤ cost x) xs
  All-both a b [] h k = tt
  All-both a b (x ∷ xs) h k = (omega arith, All-both a b xs h.1 k.1)

  threshold : (k : ℕ) (xs : List A) → Ascending xs → Threshold k xs
  threshold zero xs h = record { limit = 0; below = tt; above = all_above xs }
    where
      all_above : (xs : List A) → All (λ x. 0 ≤ cost x) xs
      all_above [] = tt
      all_above (x ∷ xs) = (omega arith, all_above xs)
  threshold (suc k) [] h = record { limit = 0; below = tt; above = tt }
  threshold (suc k) (x ∷ xs) h =
      let rest = threshold k xs h.1 in
      record {
        limit = max (cost x) rest.limit;
        below = (omega arith, All-map (take k xs) (λ y below. omega arith) rest.below);
        above = All-both (cost x) rest.limit (drop k xs) (All-drop _ k xs h.0) rest.above;
      }

  -- Up to the threshold, cost and shortfall make up the threshold for each member.
  weigh-short :
      (limit : ℕ) (xs : List A)
      → All (λ x. cost x ≤ limit) xs
      → weigh cost xs + weigh (short limit) xs ≡ length xs * limit
  weigh-short limit [] h = omega arith
  weigh-short limit (x ∷ xs) h = grind (arith, weigh-short limit xs h.1)

  no_shortfall :
      (limit : ℕ) (xs : List A) → All (λ x. limit ≤ cost x) xs → weigh (short limit) xs ≡ 0
  no_shortfall limit [] h = refl
  no_shortfall limit (x ∷ xs) h = omega (arith, no_shortfall limit xs h.1)

  module _ {κ} {B : Type κ} (price : B → ℕ) (mask : B → Bool) where
    reaches :
        (limit : ℕ) (ys : List B)
        → weigh (λ y. if mask y then 1 else 0) ys * limit
          ≤ weigh (λ y. if mask y then price y else 0) ys
            + weigh (λ y. if mask y then limit - price y else 0) ys
    reaches limit [] = omega arith
    reaches limit (y ∷ ys) = elim (Bool-cases (mask y)) [
      | inl in_part ↦ rw in_part (grind (arith, reaches limit ys))
      | inr out ↦ rw out (grind (arith, reaches limit ys))
    ]

  -- Where the members of `ys` under the mask are among `xs` by what they cost, and are at least `k`,
  -- they cost at least what the first `k` of `xs` do.
  pub take_cheapest {κ} :
      {B : Type κ} (price : B → ℕ) (mask : B → Bool) (ys : List B) (k : ℕ) (xs : List A)
      → Ascending xs
      → ((g : ℕ → ℕ)
          → weigh (λ y. if mask y then g (price y) else 0) ys ≤ weigh (λ x. g (cost x)) xs)
      → k ≤ length xs
      → k ≤ weigh (λ y. if mask y then 1 else 0) ys
      → weigh cost (take k xs) ≤ weigh (λ y. if mask y then price y else 0) ys
  take_cheapest price mask ys k xs asc part fits enough =
      let cut = threshold k xs asc in
      omega (
        arith,
        mul_mono k (weigh (λ y. if mask y then 1 else 0) ys) cut.limit enough,
        ap (λ (n : ℕ). n * cut.limit) (length_of_take k xs fits),
        reaches price mask cut.limit ys,
        part (λ p. cut.limit - p),
        weigh-take-drop (short cut.limit) k xs,
        no_shortfall cut.limit (drop k xs) cut.above,
        weigh-short cut.limit (take k xs) cut.below,
      )
