-- ===== src/Compiler/Subsets.antt =====
-- The pruned search of packages/compiler/src/context-compiler.ts yields what the unpruned one would,
-- in its order.
use ctxalloc.Shared.{
  ℕ, zero, suc, ◌+◌, ◌-◌, ◌≤◌, ◌<◌, ◌≡◌, refl, sym, subst, ap, ◌∙◌, inl, inr, true, false, none,
  some, List, [], ◌∷◌, ◌++◌, map, arith, Bool-cases, Option-cases, leb, length, drop, select, All,
  All-map, All-both, Text, text_eq, text_eq_iff, Table, get, put, tally, tally-put, text_key,
  IsKeyed,
}
use Prim.Native.Nat.{max}
use ctxalloc.Candidates.{ScoredCandidate, category_of}
use ctxalloc.Allocation.State.{in_category}
use ctxalloc.Compiler.Search.{CategoryBudget, budget_for, gate, walk, subsets_of_size}
use ctxalloc.Compiler.Reference.{combos, held, completes, select-append, select-map, map-append}
use ctxalloc.Compiler.Prune.{
  pairs, pairs-category, no_budget, one_budget, completes-uncounted, completes-counted,
  completes-full,
}
use ctxalloc.Compiler.Gate.{
  IsWithin, answers, map-push, select-false, All-everywhere, map-same, drop-next, gate-zero,
  gate-suc,
}

module _ (bs : List CategoryBudget) (constrained : Table Text CategoryBudget)
    (pool : List ScoredCandidate) (keyed : IsKeyed (pairs bs))
    (spans : (i : ℕ) → All (λ b. b.stop - max i b.start ≡ held b.category (drop i pool)) bs) where
  -- What the loop answers from an index on, for the selections that lack one member or more.
  abbrev Walks : ℕ → Type 0
  Walks index =
      (k : ℕ) (counts : Table Text ℕ) (chosen : List ScoredCandidate)
      → IsWithin bs counts
      → walk bs constrained (length pool) (drop index pool) index (suc k) counts chosen
        ≡ answers bs (drop index pool) (suc k) counts chosen

  deeper :
      (index k : ℕ) (counts : Table Text ℕ) (chosen : List ScoredCandidate)
      → Walks index
      → IsWithin bs counts
      → gate bs constrained
          (length pool)
          index
          k
          counts
          chosen
          (walk bs constrained (length pool) (drop index pool) index k counts chosen)
        ≡ answers bs (drop index pool) k counts chosen
  deeper index zero counts chosen ih within =
      gate-zero bs constrained pool keyed spans index counts chosen (drop index pool) _ within
  deeper index (suc k) counts chosen ih within =
      gate-suc bs constrained pool keyed spans index k counts chosen _ (ih k counts chosen within)

  -- The answers that take the candidate at hand.
  answers-take :
      (c : ScoredCandidate) (cs : List ScoredCandidate) (k : ℕ) (counts counts' : Table Text ℕ)
      (chosen : List ScoredCandidate)
      → ((s : List ScoredCandidate) → completes bs counts (c ∷ s) ≡ completes bs counts' s)
      → answers bs (c ∷ cs) (suc k) counts chosen
        ≡ answers bs cs k counts' (chosen ++ c ∷ []) ++ answers bs cs (suc k) counts chosen
  unfolding combos
  answers-take c cs k counts counts' chosen same =
      ap (map (λ s. chosen ++ s))
        (select-append (completes bs counts) (map (λ s. c ∷ s) (combos k cs)) (combos (suc k) cs))
      ∙ map-append (λ s. chosen ++ s)
          (select (completes bs counts) (map (λ s. c ∷ s) (combos k cs)))
          (select (completes bs counts) (combos (suc k) cs))
      ∙ ap (λ first. first ++ answers bs cs (suc k) counts chosen)
          (ap (map (λ s. chosen ++ s)) (
              select-map (completes bs counts) (completes bs counts') (λ s. c ∷ s) (combos k cs)
                same)
            ∙ map-push chosen c (select (completes bs counts') (combos k cs)))

  -- And those of a candidate that cannot be taken.
  answers-skip :
      (c : ScoredCandidate) (cs : List ScoredCandidate) (k : ℕ) (counts : Table Text ℕ)
      (chosen : List ScoredCandidate)
      → ((s : List ScoredCandidate) → completes bs counts (c ∷ s) ≡ false)
      → answers bs (c ∷ cs) (suc k) counts chosen ≡ answers bs cs (suc k) counts chosen
  unfolding combos
  answers-skip c cs k counts chosen none_full = ap (map (λ s. chosen ++ s)) (
      select-append (completes bs counts) (map (λ s. c ∷ s) (combos k cs)) (combos (suc k) cs)
      ∙ ap (λ first. first ++ select (completes bs counts) (combos (suc k) cs))
          (select-map (completes bs counts) (λ _. false) (λ s. c ∷ s) (combos k cs) none_full
            ∙ ap (map (λ s. c ∷ s)) (select-false (combos k cs))))

  -- A candidate that fits its category leaves every count within its capacity.
  put-IsWithin :
      (counts : Table Text ℕ) (t : Text) (b : CategoryBudget)
      → get t (pairs bs) ≡ some b
      → tally t counts < b.capacity
      → IsWithin bs counts
      → IsWithin bs (put t (tally t counts + 1) counts)
  put-IsWithin counts t b found room within =
      All-map bs
        (λ b' (low, same). ground (
          arith,
          low,
          room,
          tally-put t b'.category (tally t counts + 1) counts,
          text_eq_iff t b'.category,
          text_eq_iff b'.category t,
          same,
        ))
        (All-both (λ b'. tally b'.category counts ≤ b'.capacity)
          (λ b'. text_eq b'.category t ≡ true → b'.capacity ≡ b.capacity) bs within
          (one_budget bs t b keyed found))

  sub_one : (k : ℕ) → suc k - 1 ≡ k
  sub_one k = omega arith

  -- Taking the candidate at hand or not, with the counts after it.
  taken-or-not :
      (c : ScoredCandidate) (index k left : ℕ) (counts counts' : Table Text ℕ)
      (chosen : List ScoredCandidate)
      → left ≡ k
      → Walks (index + 1)
      → IsWithin bs counts
      → IsWithin bs counts'
      → ((s : List ScoredCandidate) → completes bs counts (c ∷ s) ≡ completes bs counts' s)
      → (gate bs constrained (length pool) (index + 1) left counts' (chosen ++ c ∷ []) (
            walk bs constrained
              (length pool)
              (drop (index + 1) pool)
              (index + 1)
              left
              counts'
              (chosen ++ c ∷ []))
          ++ walk bs constrained
              (length pool)
              (drop (index + 1) pool)
              (index + 1)
              (suc k)
              counts
              chosen)
        ≡ answers bs (c ∷ drop (index + 1) pool) (suc k) counts chosen
  taken-or-not c index k left counts counts' chosen e ih within within' same =
      ap
        (λ first.
          first
          ++ walk bs constrained (length pool) (drop (index + 1) pool) (index + 1) (suc k) counts
              chosen)
        (deeper (index + 1) left counts' (chosen ++ c ∷ []) ih within'
          ∙ ap (λ n. answers bs (drop (index + 1) pool) n counts' (chosen ++ c ∷ [])) e)
      ∙ ap (λ second. answers bs (drop (index + 1) pool) k counts' (chosen ++ c ∷ []) ++ second)
          (ih k counts chosen within)
      ∙ sym (answers-take c (drop (index + 1) pool) k counts counts' chosen same)

  walk-bare :
      (c : ScoredCandidate) (index k : ℕ) (counts : Table Text ℕ) (chosen : List ScoredCandidate)
      → Walks (index + 1)
      → IsWithin bs counts
      → budget_for constrained c ≡ none
      → All (λ b. in_category b.category (category_of c) ≡ false) bs
      → walk bs constrained (length pool) (c ∷ drop (index + 1) pool) index (suc k) counts chosen
        ≡ answers bs (c ∷ drop (index + 1) pool) (suc k) counts chosen
  unfolding walk
  walk-bare c index k counts chosen ih within e free =
      rw (walk, e)
        (taken-or-not c index k (suc k - 1) counts counts chosen (sub_one k) ih within within
          (λ s. completes-uncounted bs counts c s free))

  walk-counted :
      (c : ScoredCandidate) (index k : ℕ) (counts : Table Text ℕ) (chosen : List ScoredCandidate)
      (b : CategoryBudget)
      → Walks (index + 1)
      → IsWithin bs counts
      → budget_for constrained c ≡ some b
      → category_of c ≡ some b.category
      → get b.category (pairs bs) ≡ some b
      → walk bs constrained (length pool) (c ∷ drop (index + 1) pool) index (suc k) counts chosen
        ≡ answers bs (c ∷ drop (index + 1) pool) (suc k) counts chosen
  unfolding walk
  walk-counted c index k counts chosen b ih within e given found =
      elim (Bool-cases (leb b.capacity (tally b.category counts))) [
        | inl full ↦
            rw (walk, e, full)
              (ih k counts chosen within
                ∙ sym (
                    answers-skip c (drop (index + 1) pool) k counts chosen (λ s.
                      completes-full bs counts c s b.category b given found
                        (ground (arith, full)))))
        | inr room ↦
            rw (walk, e, room)
              (taken-or-not c index k (suc k - 1) counts
                (put b.category (tally b.category counts + 1) counts) chosen (sub_one k) ih within
                (put-IsWithin counts b.category b found (ground (arith, room)) within)
                (λ s. completes-counted bs counts c s b.category given))
      ]

  module _ (same : (t : Text) → get t constrained ≡ get t (pairs bs)) where
    walk-step :
        (c : ScoredCandidate) (index : ℕ)
        → Walks (index + 1)
        → (k : ℕ) (counts : Table Text ℕ) (chosen : List ScoredCandidate) → IsWithin bs counts
        → walk bs constrained (length pool) (c ∷ drop (index + 1) pool) index (suc k) counts chosen
          ≡ answers bs (c ∷ drop (index + 1) pool) (suc k) counts chosen
    unfolding budget_for
    walk-step c index ih k counts chosen within = elim (Option-cases (category_of c)) [
      | inl bare ↦ walk-bare c index k counts chosen ih within (ground (arith, bare)) (
          All-everywhere (λ b. in_category b.category (category_of c) ≡ false) bs
            (λ b. ground (arith, bare)))
      | inr (t, given) ↦ elim (Option-cases (get t (pairs bs))) [
        | inl free ↦
            walk-bare c index k counts chosen ih within (ground (arith, given, same t, free)) (
              All-map bs
                (λ b other.
                  ground (arith, given, other, text_eq_iff t b.category, text_eq_iff b.category t))
                (no_budget bs t free))
        | inr (b, found) ↦
            let here = pairs-category bs t b found in
            walk-counted c index k counts chosen b ih within (ground (arith, given, same t, found))
              (given ∙ ap (λ u. some u) (sym here)) (ap (λ u. get u (pairs bs)) here ∙ found)
      ]
    ]

    walk-eq : (cs : List ScoredCandidate) (index : ℕ) → drop index pool ≡ cs → Walks index
    unfolding walk combos
    walk-eq [] index at k counts chosen within =
        subst
          (λ ahead.
            walk bs constrained (length pool) ahead index (suc k) counts chosen
            ≡ answers bs ahead (suc k) counts chosen)
          (sym at) refl
    walk-eq (c ∷ cs) index at k counts chosen within =
        let next = drop-next index pool c cs at in
        subst
          (λ ahead.
            walk bs constrained (length pool) ahead index (suc k) counts chosen
            ≡ answers bs ahead (suc k) counts chosen)
          (sym (at ∙ ap (λ ahead. c ∷ ahead) (sym next)))
          (walk-step c index (walk-eq cs (index + 1) next) k counts chosen within)

    whole : (size : ℕ) → subsets_of_size pool size bs constrained ≡ answers bs pool size [] []
    unfolding subsets_of_size get
    whole zero =
        gate-zero bs constrained pool keyed spans 0 [] [] pool
          (walk bs constrained (length pool) pool 0 zero [] [])
          (All-everywhere (λ b. tally b.category [] ≤ b.capacity) bs (λ b. omega arith))
    whole (suc k) =
        gate-suc bs constrained pool keyed spans 0 k [] []
          (walk bs constrained (length pool) pool 0 (suc k) [] [])
          (walk-eq pool 0 refl k [] []
            (All-everywhere (λ b. tally b.category [] ≤ b.capacity) bs (λ b. omega arith)))

-- The categories of the budgets are contiguous in the pool, where the budgets say.
abbrev pub IsGrouped : List CategoryBudget → List ScoredCandidate → Type 0
IsGrouped bs pool = (i : ℕ) → All (λ b. b.stop - max i b.start ≡ held b.category (drop i pool)) bs

-- Where the budgets are of different categories, the map holds them by category and each category is
-- contiguous in the pool where its budget says, the search yields exactly the subsets of the size
-- that keep every budget's minimum and maximum, in lexicographic order: the tests that cut branches
-- off lose none of them, and let no other through.
pub subsets_of_size-pruned :
    (bs : List CategoryBudget) (constrained : Table Text CategoryBudget)
    (pool : List ScoredCandidate) (size : ℕ)
    → IsKeyed (pairs bs)
    → IsGrouped bs pool
    → ((t : Text) → get t constrained ≡ get t (pairs bs))
    → subsets_of_size pool size bs constrained ≡ select (completes bs []) (combos size pool)
subsets_of_size-pruned bs constrained pool size keyed grouped same =
    whole bs constrained pool keyed grouped same size
    ∙ map-same (select (completes bs []) (combos size pool))
