-- ===== src/Compiler/Odometer.antt =====
-- The index loop of `combinations` in packages/compiler/src/context-compiler.ts walks every subset
-- of a size, in lexicographic order, and then stops.
use ctxalloc.Shared.{
  ℕ, zero, suc, ◌+◌, ◌≤◌, ◌≡◌, refl, sym, ap, ◌∙◌, inl, inr, false, Option, none, some, List, [],
  ◌∷◌, ◌++◌, map, arith, if◌then◌else◌, Bool-cases, ltb, ◌==◌, length, drop, All, All-append,
  length-map, subst, tests,
}
use ctxalloc.Compiler.Reference.{combos, map-append}
use ctxalloc.Compiler.Prune.{combos-short}
use ctxalloc.Compiler.Gate.{drop-next}
use ctxalloc.Compiler.Enumerate.{run_from, advance, pick, picks_at, odometer, combinations}

-- The first tuple of a list, or what comes after it.
abbrev first : List (List ℕ) → Option (List ℕ) → Option (List ℕ)
first [] o = o
first (t ∷ ts) o = some t

-- Each tuple is the one after its predecessor, and `o` is what comes after the last.
abbrev Leads : ℕ → List (List ℕ) → Option (List ℕ) → Type 0
Leads n [] o = Unit
Leads n (t ∷ ts) o = (advance n t ≡ first ts o) × Leads n ts o

first-append :
    (ts us : List (List ℕ)) (o : Option (List ℕ)) → first (ts ++ us) o ≡ first ts (first us o)
first-append [] us o = refl
first-append (t ∷ ts) us o = refl

Leads-append :
    (n : ℕ) (ts us : List (List ℕ)) (o : Option (List ℕ))
    → Leads n ts (first us o)
    → Leads n us o
    → Leads n (ts ++ us) o
Leads-append n [] us o h k = k
Leads-append n (t ∷ ts) us o h k = (h.0 ∙ sym (first-append ts us o), Leads-append n ts us o h.1 k)

-- The tuple after one that starts with `i` and whose rest has `k` indices, all of them exhausted.
abbrev carry : ℕ → ℕ → ℕ → Option (List ℕ)
carry n i k = if i + suc k == n then none else some (run_from (suc k) (suc i))

Leads-map :
    (n i k : ℕ) (ts : List (List ℕ))
    → All (λ t. length t ≡ k) ts
    → Leads n ts none
    → Leads n (map (λ t. i ∷ t) ts) (carry n i k)
unfolding advance
Leads-map n i k [] sizes h = tt
Leads-map n i k (t ∷ []) sizes h = (rw (advance, h.0, sizes.0), tt)
Leads-map n i k (t ∷ u ∷ ts) sizes h = (rw (advance, h.0), Leads-map n i k (u ∷ ts) sizes.1 h.1)

combos-length : (k : ℕ) (xs : List ℕ) → All (λ t. length t ≡ k) (combos k xs)
unfolding combos
combos-length zero xs = (refl, tt)
combos-length (suc k) [] = tt
combos-length (suc k) (x ∷ xs) =
    All-append _ (map (λ t. x ∷ t) (combos k xs)) (combos (suc k) xs)
      (longer x k (combos k xs) (combos-length k xs)) (combos-length (suc k) xs)
  where
    longer :
        (x k : ℕ) (ts : List (List ℕ))
        → All (λ t. length t ≡ k) ts
        → All (λ t. length t ≡ suc k) (map (λ t. x ∷ t) ts)
    longer x k [] h = tt
    longer x k (t ∷ ts) h = (omega (arith, h.0), longer x k ts h.1)

length-run_from : (m lo : ℕ) → length (run_from m lo) ≡ m
unfolding run_from
length-run_from zero lo = refl
length-run_from (suc m) lo = omega (arith, length-run_from m (suc lo))

first-map :
    (i : ℕ) (ts : List (List ℕ)) (o : Option (List ℕ))
    → first (map (λ t. i ∷ t) ts) o ≡ elim (first ts none) [ none ↦ o | some t ↦ some (i ∷ t) ]
first-map i [] o = refl
first-map i (t ∷ ts) o = refl

first-combos :
    (k m lo : ℕ)
    → first (combos k (run_from m lo)) none ≡ (if ltb m k then none else some (run_from k lo))
unfolding combos run_from
first-combos zero m lo = ground arith
first-combos (suc k) zero lo = ground arith
first-combos (suc k) (suc m) lo =
    first-append (map (λ t. lo ∷ t) (combos k (run_from m (suc lo))))
      (combos (suc k) (run_from m (suc lo))) none
    ∙ first-map lo (combos k (run_from m (suc lo)))
        (first (combos (suc k) (run_from m (suc lo))) none)
    ∙ ground (arith, first-combos k m (suc lo), first-combos (suc k) m (suc lo))

-- What comes after the subsets with the first index at hand are those without it.
carry-combos :
    (n k m lo : ℕ)
    → lo + suc m ≡ n
    → k ≤ m
    → carry n lo k ≡ first (combos (suc k) (run_from m (suc lo))) none
carry-combos n k m lo e h = ground (arith, first-combos (suc k) m (suc lo))

Leads-combos : (n k m lo : ℕ) → lo + m ≡ n → Leads n (combos k (run_from m lo)) none
unfolding combos run_from advance
Leads-combos n zero m lo e = (refl, tt)
Leads-combos n (suc k) zero lo e = tt
Leads-combos n (suc k) (suc m) lo e =
    Leads-append n (map (λ t. lo ∷ t) (combos k (run_from m (suc lo))))
      (combos (suc k) (run_from m (suc lo))) none
      (elim (Bool-cases (ltb m k)) [
        | inl short ↦
            subst
              (λ ts.
                Leads n (map (λ t. lo ∷ t) ts) (first (combos (suc k) (run_from m (suc lo))) none))
              (sym (
                combos-short k (run_from m (suc lo))
                  (omega (tests, length-run_from m (suc lo), short))))
              tt
        | inr long ↦
            subst (Leads n (map (λ t. lo ∷ t) (combos k (run_from m (suc lo)))))
              (carry-combos n k m lo e (omega (tests, long)))
              (Leads-map n lo k (combos k (run_from m (suc lo)))
                (combos-length k (run_from m (suc lo)))
                (Leads-combos n k m (suc lo) (omega (arith, e))))
      ])
      (Leads-combos n (suc k) m (suc lo) (omega (arith, e)))

-- The loop yields such a list from its first tuple on, and ends with it.
odometer-Leads :
    (fuel n : ℕ) (t : List ℕ) (ts : List (List ℕ))
    → Leads n (t ∷ ts) none
    → length (t ∷ ts) ≤ fuel
    → odometer fuel n t ≡ t ∷ ts
unfolding odometer
odometer-Leads zero n t ts h k = absurd (omega (arith, k))
odometer-Leads (suc fuel) n t [] h k = rw (odometer, h.0)
odometer-Leads (suc fuel) n t (u ∷ ts) h k =
    rw (odometer, h.0) (ap (λ us. t ∷ us) (odometer-Leads fuel n u ts h.1 (omega (arith, k))))

odometer-combos :
    (fuel k m : ℕ)
    → k ≤ m
    → length (combos k (run_from m 0)) ≤ fuel
    → odometer fuel m (run_from k 0) ≡ combos k (run_from m 0)
odometer-combos fuel k m h enough = started (combos k (run_from m 0)) refl
  where
    started :
        (ts : List (List ℕ))
        → combos k (run_from m 0) ≡ ts
        → odometer fuel m (run_from k 0) ≡ combos k (run_from m 0)
    started [] e = absurd (ground (arith, e, first-combos k m 0))
    started (t ∷ ts) e =
        ap (odometer fuel m) (ground (arith, e, first-combos k m 0))
        ∙ odometer-Leads fuel m t ts
            (subst (λ us. Leads m us none) e (Leads-combos m k m 0 (omega arith)))
            (subst (λ us. length us ≤ fuel) e enough)
        ∙ sym e

positive : (k : ℕ) → (suc k == 0) ≡ false
positive k = ground arith

one_more : (n : ℕ) → suc n ≡ n + 1
one_more n = omega arith

module _ {ℓ} {A : Type ℓ} where
  pick-drop :
      (pool : List A) (lo : ℕ) (c : A) (cs : List A) → drop lo pool ≡ c ∷ cs → pick pool lo ≡ c ∷ []
  unfolding pick
  pick-drop [] zero c cs h = absurd (ground (arith, h))
  pick-drop [] (suc lo) c cs h = absurd (ground (arith, h))
  pick-drop (x ∷ xs) zero c cs h = cc (h)
  pick-drop (x ∷ xs) (suc lo) c cs h = pick-drop xs lo c cs h

  picks-map :
      (pool : List A) (lo : ℕ) (c : A) (ts : List (List ℕ))
      → pick pool lo ≡ c ∷ []
      → map (picks_at pool) (map (λ t. lo ∷ t) ts) ≡ map (λ s. c ∷ s) (map (picks_at pool) ts)
  unfolding picks_at
  picks-map pool lo c [] h = refl
  picks-map pool lo c (t ∷ ts) h = rw (h, picks-map pool lo c ts h)

  -- The candidates at the subsets of the indices are the subsets of the candidates.
  picks-combos :
      (pool : List A) (k lo : ℕ) (cs : List A)
      → drop lo pool ≡ cs
      → map (picks_at pool) (combos k (run_from (length cs) lo)) ≡ combos k cs
  unfolding combos run_from picks_at
  picks-combos pool zero lo cs h = refl
  picks-combos pool (suc k) lo [] h = refl
  picks-combos pool (suc k) lo (c ∷ cs) h =
      let next : drop (suc lo) pool ≡ cs =
        ap (λ n. drop n pool) (one_more lo) ∙ drop-next lo pool c cs h in
      map-append (picks_at pool) (map (λ t. lo ∷ t) (combos k (run_from (length cs) (suc lo))))
        (combos (suc k) (run_from (length cs) (suc lo)))
      ∙ ap (λ ts. ts ++ map (picks_at pool) (combos (suc k) (run_from (length cs) (suc lo))))
          (picks-map pool lo c (combos k (run_from (length cs) (suc lo))) (pick-drop pool lo c cs h)
            ∙ ap (map (λ s. c ∷ s)) (picks-combos pool k (suc lo) cs next))
      ∙ ap (λ ts. map (λ s. c ∷ s) (combos k cs) ++ ts) (picks-combos pool (suc k) (suc lo) cs next)

  combos-size :
      (k lo : ℕ) (pool cs : List A)
      → drop lo pool ≡ cs
      → length (combos k (run_from (length cs) lo)) ≡ length (combos k cs)
  combos-size k lo pool cs h =
      sym (length-map (picks_at pool) (combos k (run_from (length cs) lo)))
      ∙ ap length (picks-combos pool k lo cs h)

  -- With as many rounds as there are subsets of the size, the loop of `combinations` has ended, and
  -- has yielded exactly these subsets, each once and in the lexicographic order of their indices.
  pub combinations-eq-combos :
      (fuel : ℕ) (pool : List A) (size : ℕ)
      → length (combos size pool) ≤ fuel
      → combinations fuel pool size ≡ combos size pool
  unfolding combinations combos
  combinations-eq-combos fuel pool zero h = refl
  combinations-eq-combos fuel pool (suc k) h = elim (Bool-cases (ltb (length pool) (suc k))) [
    | inl short ↦ rw (positive k, short) (sym (combos-short (suc k) pool (omega (tests, short))))
    | inr long ↦
        rw (positive k, long)
          (ap (map (picks_at pool)) (
              odometer-combos fuel (suc k) (length pool) (omega (tests, long))
                (omega (arith, h, combos-size (suc k) 0 pool pool refl)))
            ∙ picks-combos pool (suc k) 0 pool refl)
  ]
