-- ===== src/Compiler/Over.antt =====
-- Loops over a range of numbers.
use ctxalloc.Shared.{
  ℕ, zero, suc, ◌+◌, ◌-◌, ◌≤◌, ◌<◌, ◌≡◌, refl, sym, ap, ◌∙◌, inl, inr, Bool, List, [], ◌∷◌, ◌++◌,
  arith, tests, Bool-cases, ltb, select, All,
}
use mathlib.Core.List.{append_assoc, append-nil}
use ctxalloc.Compiler.Reference.{select-append}

module _ {ℓ} {A : Type ℓ} (f : ℕ → List A) where
  -- What a loop over some sizes, from one on, yields.
  unfoldable pub over : ℕ → ℕ → List A
  over from zero = []
  over from (suc rounds) = f from ++ over (suc from) rounds

  over-nothing :
      (from rounds : ℕ)
      → ((i : ℕ) → from ≤ i → i < from + rounds → f i ≡ [])
      → over from rounds ≡ []
  unfolding over
  over-nothing from zero h = refl
  over-nothing from (suc rounds) h = rw (h from (omega arith) (omega arith)) (
      over-nothing (suc from) rounds (λ i low high. h i (omega (arith, low)) (omega (arith, high))))

  over-split :
      (from m n mid total : ℕ)
      → mid ≡ from + m
      → total ≡ m + n
      → over from total ≡ over from m ++ over mid n
  unfolding over
  over-split from zero n mid total e k =
      let same : mid ≡ from = omega (arith, e) in
      let all : total ≡ n = omega (arith, k) in rw (same, all)
  over-split from (suc m) n mid zero e k = absurd (omega (arith, k))
  over-split from (suc m) n mid (suc total) e k =
      ap (λ xs. f from ++ xs)
        (over-split (suc from) m n mid total (omega (arith, e)) (omega (arith, k)))
      ∙ sym (append_assoc (f from) (over (suc from) m) (over mid n))

  -- Nothing is found from a number on.
  over-extend :
      (low high : ℕ) → low ≤ high → ((i : ℕ) → low ≤ i → f i ≡ []) → over 0 high ≡ over 0 low
  over-extend low high h past =
      over-split 0 low (high - low) low high (omega arith) (omega (arith, h))
      ∙ ap (λ xs. over 0 low ++ xs) (over-nothing low (high - low) (λ i at _. past i at))
      ∙ append-nil (over 0 low)

  over-start :
      (low high : ℕ)
      → ((i : ℕ) → i < low → f i ≡ [])
      → low ≤ high
      → over low (high - low) ≡ over 0 high
  over-start low high below h = sym (
      over-split 0 low (high - low) low high (omega arith) (omega (arith, h))
      ∙ ap (λ xs. xs ++ over low (high - low))
          (over-nothing 0 low (λ i _ under. below i (omega (arith, under)))))

  over_crossed :
      (low high : ℕ)
      → high ≤ low
      → ((i : ℕ) → i < low → f i ≡ [])
      → over low (high - low) ≡ over 0 high
  unfolding over
  over_crossed low high h below =
      rw (nothing_left) (sym (over-nothing 0 high (λ i _ under. below i (omega (arith, under, h)))))
    where
      nothing_left : high - low ≡ 0
      nothing_left = omega (arith, h)

  -- A loop may start at the first number from which on something is found, and stop where nothing
  -- more is found.
  pub over-window :
      (low high last : ℕ)
      → ((i : ℕ) → i < low → f i ≡ [])
      → ((i : ℕ) → high ≤ i → f i ≡ [])
      → ((i : ℕ) → last ≤ i → f i ≡ [])
      → over low (high - low) ≡ over 0 last
  over-window low high last below above beyond = started ∙ finished
    where
      started : over low (high - low) ≡ over 0 high
      started = elim (Bool-cases (ltb high low)) [
        | inl crossed ↦ over_crossed low high (omega (tests, crossed)) below
        | inr straight ↦ over-start low high below (omega (tests, straight))
      ]

      finished : over 0 high ≡ over 0 last
      finished = elim (Bool-cases (ltb high last)) [
        | inl short ↦ sym (over-extend high last (omega (tests, short)) above)
        | inr long ↦ over-extend last high (omega (tests, long)) beyond
      ]

module _ {ℓ} {A : Type ℓ} where
  pub select-over :
      (p : A → Bool) (f : ℕ → List A) (from rounds : ℕ)
      → select p (over f from rounds) ≡ over (λ i. select p (f i)) from rounds
  unfolding over
  select-over p f from zero = refl
  select-over p f from (suc rounds) =
      select-append p (f from) (over f (suc from) rounds)
      ∙ ap (λ xs. select p (f from) ++ xs) (select-over p f (suc from) rounds)

  pub over_cong :
      (f g : ℕ → List A) (from rounds : ℕ)
      → ((i : ℕ) → f i ≡ g i)
      → over f from rounds ≡ over g from rounds
  unfolding over
  over_cong f g from zero h = refl
  over_cong f g from (suc rounds) h = rw (h from, over_cong f g (suc from) rounds h)

  pub select_cong_All :
      (p q : A → Bool) (xs : List A) → All (λ x. p x ≡ q x) xs → select p xs ≡ select q xs
  select_cong_All p q [] h = refl
  select_cong_All p q (x ∷ xs) h = ground (arith, h.0, select_cong_All p q xs h.1)
