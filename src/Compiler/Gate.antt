-- ===== src/Compiler/Gate.antt =====
-- The tests before the loop of `walk` in packages/compiler/src/context-compiler.ts answer as the
-- unpruned search would.
use ctxalloc.Shared.{
  ℕ, zero, suc, ◌+◌, ◌-◌, ◌≤◌, ◌<◌, ◌≡◌, refl, ap, ◌∙◌, inl, inr, false, some, List, [], ◌∷◌, ◌++◌,
  map, arith, Bool-cases, Option-cases, ltb, length, drop, select, All, All-map, Text, Table, tally,
  text_key, IsKeyed,
}
use Prim.Native.Nat.{max}
use ctxalloc.Candidates.{ScoredCandidate}
use ctxalloc.Compiler.Search.{CategoryBudget, owed_of, gate}
use ctxalloc.Compiler.Reference.{combos, combos-within, held, completes, select-nothing}
use ctxalloc.Compiler.Prune.{
  pairs, completes-nil, completes-stuck, completes-owed, counted-le, combos-short,
}

-- No count is over its category's capacity.
abbrev pub IsWithin : List CategoryBudget → Table Text ℕ → Type 0
IsWithin bs counts = All (λ b. tally b.category counts ≤ b.capacity) bs

-- What is chosen with every subset of the candidates ahead that completes it.
abbrev pub answers :
    List CategoryBudget
    → List ScoredCandidate
    → ℕ
    → Table Text ℕ
    → List ScoredCandidate
    → List (List ScoredCandidate)
answers bs cs k counts chosen = map (λ s. chosen ++ s) (select (completes bs counts) (combos k cs))

append-nil {ℓ} : {A : Type ℓ} (xs : List A) → xs ++ [] ≡ xs
append-nil [] = refl
append-nil (x ∷ xs) = ap (λ ys. x ∷ ys) (append-nil xs)

append-cons {ℓ} :
    {A : Type ℓ} (xs : List A) (y : A) (zs : List A) → (xs ++ y ∷ []) ++ zs ≡ xs ++ y ∷ zs
append-cons [] y zs = refl
append-cons (x ∷ xs) y zs = ap (λ ys. x ∷ ys) (append-cons xs y zs)

length-drop {ℓ} : {A : Type ℓ} (n : ℕ) (xs : List A) → length (drop n xs) ≡ length xs - n
length-drop zero xs = omega arith
length-drop (suc n) [] = omega arith
length-drop (suc n) (x ∷ xs) = omega (arith, length-drop n xs)

pub drop-next {ℓ} :
    {A : Type ℓ} (n : ℕ) (xs : List A) (c : A) (cs : List A)
    → drop n xs ≡ c ∷ cs
    → drop (n + 1) xs ≡ cs
drop-next {A = A} n xs c cs h = ap (λ m. drop m xs) one_more ∙ later n xs h
  where
    one_more : n + 1 ≡ suc n
    one_more = omega arith

    later : (n : ℕ) (xs : List A) → drop n xs ≡ c ∷ cs → drop (suc n) xs ≡ cs
    later zero [] h = absurd (ground arith)
    later zero (x ∷ xs) h = ground arith
    later (suc n) [] h = absurd (ground arith)
    later (suc n) (x ∷ xs) h = later n xs h

pub map-push {ℓ} :
    {A : Type ℓ} (chosen : List A) (c : A) (xs : List (List A))
    → map (λ s. chosen ++ s) (map (λ s. c ∷ s) xs) ≡ map (λ s. (chosen ++ c ∷ []) ++ s) xs
map-push chosen c [] = refl
map-push chosen c (x ∷ xs) = cc (append-cons chosen c x, map-push chosen c xs)

pub select-false {ℓ} : {A : Type ℓ} (xs : List A) → select (λ _. false) xs ≡ []
select-false [] = refl
select-false (x ∷ xs) = select-false xs

pub All-everywhere {ℓ κ} : {A : Type ℓ} (P : A → Type κ) (xs : List A) → ((x : A) → P x) → All P xs
All-everywhere P [] h = tt
All-everywhere P (x ∷ xs) h = (h x, All-everywhere P xs h)

pub map-same {ℓ} : {A : Type ℓ} (xs : List (List A)) → map (λ s. [] ++ s) xs ≡ xs
map-same [] = refl
map-same (x ∷ xs) = ap (λ ys. x ∷ ys) (map-same xs)

module _ (bs : List CategoryBudget) (constrained : Table Text CategoryBudget)
    (pool : List ScoredCandidate) (keyed : IsKeyed (pairs bs))
    (spans : (i : ℕ) → All (λ b. b.stop - max i b.start ≡ held b.category (drop i pool)) bs) where
  pub gate-zero :
      (from : ℕ) (counts : Table Text ℕ) (chosen cs : List ScoredCandidate)
      (rest : List (List ScoredCandidate))
      → IsWithin bs counts
      → gate bs constrained (length pool) from zero counts chosen rest
        ≡ answers bs cs zero counts chosen
  unfolding gate combos
  gate-zero from counts chosen cs rest within =
      ground (arith, completes-nil bs counts within, append-nil chosen)

  nothing_completes :
      (from k owed : ℕ) (counts : Table Text ℕ)
      → owed_of bs counts from 0 ≡ some owed
      → k < owed
      → All (λ s. completes bs counts s ≡ false) (combos k (drop from pool))
  nothing_completes from k owed counts h over =
      All-map (combos k (drop from pool))
        (λ s fits. elim (Bool-cases (completes bs counts s)) [
          | inl full ↦ absurd (
              omega (
                arith,
                completes-owed bs counts from 0 owed s h full,
                counted-le bs s keyed,
                fits.0,
              ))
          | inr short ↦ short
        ])
        (combos-within k (drop from pool))

  pub gate-suc :
      (from k : ℕ) (counts : Table Text ℕ) (chosen : List ScoredCandidate)
      (rest : List (List ScoredCandidate))
      → rest ≡ answers bs (drop from pool) (suc k) counts chosen
      → gate bs constrained (length pool) from (suc k) counts chosen rest
        ≡ answers bs (drop from pool) (suc k) counts chosen
  unfolding gate
  gate-suc from k counts chosen rest same = elim (Bool-cases (ltb (length pool - from) (suc k))) [
    | inl short ↦ ground (
      arith,
      short,
      combos-short (suc k) (drop from pool) (ground (arith, short, length-drop from pool)),
    )
    | inr long ↦ elim (Option-cases (owed_of bs counts from 0)) [
      | inl stuck ↦ ground (
        arith,
        long,
        stuck,
        select-nothing (completes bs counts) (combos (suc k) (drop from pool)) (
            All-map (combos (suc k) (drop from pool))
              (λ s fits.
                completes-stuck bs counts from 0 (drop from pool) s (spans from) fits.1 stuck)
              (combos-within (suc k) (drop from pool))),
      )
      | inr (owed, enough) ↦ elim (Bool-cases (ltb (suc k) owed)) [
        | inl over ↦ ground (
          arith,
          long,
          enough,
          over,
          select-nothing (completes bs counts) (combos (suc k) (drop from pool))
              (nothing_completes from (suc k) owed counts enough (ground (arith, over))),
        )
        | inr fits ↦ ground (arith, long, enough, fits, same)
      ]
    ]
  ]
