-- ===== src/Correction/Spans.antt =====
-- What the tuples of `cartesian` in packages/compiler/src/context-compiler.ts are made of.
use ctxalloc.Shared.{
  All-selected, ℕ, zero, suc, true, if◌then◌else◌, text_eq, text_eq_iff, All-both, ◌≤◌, ◌≡◌, refl,
  sym, subst, List, [], ◌∷◌, map, arith, Option, none, some, ap, ◌∙◌, All-select, length, select,
  weigh, one, weigh-append, length-append, length-map, sort-SameItems, sort-All, All, All-map,
  All-append, Text, Table, text_key,
}
use ctxalloc.Candidates.{ScoredCandidate, category_of}
use ctxalloc.Allocation.State.{in_category}
use ctxalloc.Compiler.Reference.{combos, combos-weigh, held}
use ctxalloc.Compiler.Enumerate.{combinations, prefix_each, cartesian}
use ctxalloc.Compiler.Odometer.{combinations-eq-combos}
use ctxalloc.Correction.Deficits.{rounds, CategoryDeficit, preferred, compare_minimum_preference}
use ctxalloc.Correction.Fallback.{flat}
use ctxalloc.Correction.Keys.{IsOf}

rounds-combos {ℓ} : {A : Type ℓ} (k : ℕ) (xs : List A) → length (combos k xs) ≡ rounds k (length xs)
unfolding rounds combos
rounds-combos zero xs = refl
rounds-combos (suc k) [] = refl
rounds-combos (suc k) (x ∷ xs) = omega (
  arith,
  length-append (map (λ s. x ∷ s) (combos k xs)) (combos (suc k) xs),
  length-map (λ s. x ∷ s) (combos k xs),
  rounds-combos k xs,
  rounds-combos (suc k) xs,
)

All-prefix {ℓ κ} :
    {A : Type ℓ} (P : A → Type κ) (x : A) (ss : List (List A))
    → P x
    → All (All P) ss
    → All (All P) (map (λ s. x ∷ s) ss)
All-prefix P x [] p h = tt
All-prefix P x (s ∷ ss) p h = ((p, h.0), All-prefix P x ss p h.1)

-- What holds of the members of a list holds of those of its subsets.
pub combos-All {ℓ κ} :
    {A : Type ℓ} (P : A → Type κ) (k : ℕ) (xs : List A) → All P xs → All (All P) (combos k xs)
unfolding combos
combos-All P zero xs h = (tt, tt)
combos-All P (suc k) [] h = tt
combos-All P (suc k) (x ∷ xs) h =
    All-append _ (map (λ s. x ∷ s) (combos k xs)) (combos (suc k) xs)
      (All-prefix P x (combos k xs) h.0 (combos-All P k xs h.1)) (combos-All P (suc k) xs h.1)

-- Candidates of a list that are known, each as often as in the list at most.
abbrev pub IsPart :
    Table Text ScoredCandidate → List ScoredCandidate → List ScoredCandidate → Type 0
IsPart known whole part =
    ((f : ScoredCandidate → ℕ) → weigh f part ≤ weigh f whole) × IsOf known part

abbrev pub of_category : Text → List ScoredCandidate → List ScoredCandidate
of_category t cs = select (λ c. in_category t (category_of c)) cs

-- Of one category so many candidates, and of the others none.
abbrev pub IsAmount : Text → ℕ → List ScoredCandidate → Type 0
IsAmount t k part = (u : Text) → held u part ≡ (if text_eq t u then k else 0)

in_both : (t u : Text) (o : Option Text) → in_category t o ≡ true → in_category u o ≡ text_eq t u
in_both t u none h = absurd (cc)
in_both t u (some v) h =
    ground
      (arith, text_eq_iff v t, text_eq_iff u v, text_eq_iff t u, text_eq_iff t v, text_eq_iff u t)

held-same :
    (t u : Text) (cs : List ScoredCandidate)
    → All (λ c. in_category t (category_of c) ≡ true) cs
    → held u cs ≡ (if text_eq t u then length cs else 0)
held-same t u [] h = ground arith
held-same t u (c ∷ cs) h = ground (arith, in_both t u (category_of c) h.0, held-same t u cs h.1)

pub preferred-parts :
    (known : Table Text ScoredCandidate) (t : Text) (k : ℕ) (optional : List ScoredCandidate)
    → IsOf known optional
    → All
        (λ p. IsPart known (of_category t optional) p × IsAmount t k p)
        (combinations (rounds k (length (preferred t optional))) (preferred t optional) k)
unfolding preferred
preferred-parts known t k optional h =
    let pool = preferred t optional in
    subst (All (λ p. IsPart known (of_category t optional) p × IsAmount t k p))
      (sym (
        combinations-eq-combos (rounds k (length pool)) pool k
          (omega (arith, rounds-combos k pool))))
      (All-map (combos k pool)
        (λ s h. (
          (
            λ f. omega (
              arith,
              h.0.1 f,
              sort-SameItems compare_minimum_preference (of_category t optional) f,
            ),
            h.1.0,
          ),
          λ u. held-same t u s h.1.1 ∙ ap (λ n. if text_eq t u then n else 0) h.0.0,
        ))
        (All-both _ _ (combos k pool) (combos-weigh k pool) (
          All-both (IsOf known) (All (λ c. in_category t (category_of c) ≡ true)) (combos k pool)
            (combos-All _ k pool (
              sort-All compare_minimum_preference _ (of_category t optional)
                (All-selected _ _ optional h)))
            (combos-All _ k pool (
              sort-All compare_minimum_preference _ (of_category t optional)
                (All-select (λ c. in_category t (category_of c)) optional))))))

-- How many candidates a category is owed, if it has a number at all.
abbrev pub owed_at : (Text → ℕ) → Text → Text → ℕ
owed_at owed u t = if text_eq t u then owed t else 0

-- Each combination of a deficit is a part of its category, with what is owed.
abbrev pub HasParts :
    Table Text ScoredCandidate → List ScoredCandidate → (Text → ℕ) → List CategoryDeficit → Type 0
HasParts known optional owed = All (λ d.
    All
      (λ p.
        IsPart known (of_category d.category optional) p × IsAmount d.category (owed d.category) p)
      d.combinations)

-- A tuple of combinations weighs no more than the categories together, and has what they are owed.
abbrev Spans :
    Table Text ScoredCandidate
    → List ScoredCandidate
    → (Text → ℕ)
    → List CategoryDeficit
    → List (List ScoredCandidate)
    → Type 0
Spans known optional owed ds picks =
    ((f : ScoredCandidate → ℕ)
      → weigh f (flat picks) ≤ weigh (λ d. weigh f (of_category d.category optional)) ds)
    × IsOf known (flat picks)
    × ((u : Text) → held u (flat picks) ≡ weigh (λ d. owed_at owed u d.category) ds)

module _ (known : Table Text ScoredCandidate) (optional : List ScoredCandidate) (owed : Text → ℕ)
    (d : CategoryDeficit) (ds : List CategoryDeficit) where
  Spans-push :
      (p : List ScoredCandidate) (tails : List (List (List ScoredCandidate)))
      → IsPart known (of_category d.category optional) p × IsAmount d.category (owed d.category) p
      → All (Spans known optional owed ds) tails
      → All (Spans known optional owed (d ∷ ds)) (map (λ tail. p ∷ tail) tails)
  unfolding flat
  Spans-push p [] part k = tt
  Spans-push p (tail ∷ tails) part k = (
    (
      (λ f. omega (arith, weigh-append f p (flat tail), part.0.0 f, k.0.0 f)),
      All-append _ p (flat tail) part.0.1 k.0.1,
      λ u. omega (
        arith,
        weigh-append (λ c. one (in_category u (category_of c))) p (flat tail),
        part.1 u,
        k.0.2 u,
      ),
    ),
    Spans-push p tails part k.1,
  )

  Spans-prefix :
      (ps : List (List ScoredCandidate)) (tails : List (List (List ScoredCandidate)))
      → All
          (λ p.
            IsPart known (of_category d.category optional) p
            × IsAmount d.category (owed d.category) p)
          ps
      → All (Spans known optional owed ds) tails
      → All (Spans known optional owed (d ∷ ds)) (prefix_each ps tails)
  unfolding prefix_each
  Spans-prefix [] tails h k = tt
  Spans-prefix (p ∷ ps) tails h k =
      All-append (Spans known optional owed (d ∷ ds)) (map (λ tail. p ∷ tail) tails)
        (prefix_each ps tails) (Spans-push p tails h.0 k) (Spans-prefix ps tails h.1 k)

pub cartesian-Spans :
    (known : Table Text ScoredCandidate) (optional : List ScoredCandidate) (owed : Text → ℕ)
    (ds : List CategoryDeficit)
    → HasParts known optional owed ds
    → All (Spans known optional owed ds) (cartesian (map (λ d. d.combinations) ds))
unfolding cartesian flat
cartesian-Spans known optional owed [] h = (((λ f. omega arith), tt, λ u. refl), tt)
cartesian-Spans known optional owed (d ∷ ds) h =
    Spans-prefix known optional owed d ds d.combinations (cartesian (map (λ d. d.combinations) ds))
      h.0 (cartesian-Spans known optional owed ds h.1)
