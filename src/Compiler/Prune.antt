-- ===== src/Compiler/Prune.antt =====
-- What the tests of `subsetsOfSize` in packages/compiler/src/context-compiler.ts cut off.
use ctxalloc.Shared.{
  ℕ, zero, suc, ◌+◌, ◌-◌, ◌≤◌, ◌<◌, ◌≡◌, refl, inl, inr, true, false, Option, none, some, List, [],
  ◌∷◌, map, arith, Bool-cases, length, All, All-map, weigh, weigh_cong_All, weigh-zero, weigh_add,
  one, Text, text_eq, text_eq_iff, Table, get, put, tally, tally-put, text_key, IsKeyed,
}
use Prim.Native.Nat.{max}
use ctxalloc.Candidates.{ScoredCandidate, category_of}
use ctxalloc.Allocation.State.{in_category}
use ctxalloc.Compiler.Search.{CategoryBudget, is_satisfied, owed_of}
use ctxalloc.Compiler.Reference.{combos, held, completes}

-- The budgets by category.
abbrev pub pairs : List CategoryBudget → Table Text CategoryBudget
pairs bs = map (λ b. (b.category, b)) bs

-- Of a category without a budget, no budget counts anything.
pub no_budget :
    (bs : List CategoryBudget) (t : Text)
    → get t (pairs bs) ≡ none
    → All (λ b. text_eq b.category t ≡ false) bs
unfolding get
no_budget [] t h = tt
no_budget (b ∷ bs) t h = (ground (arith, h), no_budget bs t (ground (arith, h)))

-- Every budget of the category is the one that the map has.
pub one_budget :
    (bs : List CategoryBudget) (t : Text) (b : CategoryBudget)
    → IsKeyed (pairs bs)
    → get t (pairs bs) ≡ some b
    → All (λ b'. text_eq b'.category t ≡ true → b'.capacity ≡ b.capacity) bs
unfolding get
one_budget [] t b k h = tt
one_budget (b' ∷ bs) t b k h = elim (Bool-cases (text_eq b'.category t)) [
  | inl here ↦ (
    (λ _. ground (arith, here, h)),
    All-map bs (λ b'' other same. absurd (ground (arith, other, same)))
        (no_budget bs t (ground (arith, k.0, text_eq_iff b'.category t, here))),
  )
  | inr gone ↦ (
    (λ same. absurd (ground (arith, gone, same))),
    one_budget bs t b k.1 (ground (arith, gone, h)),
  )
]

-- A candidate without a category, or of one without a budget, changes no count.
pub completes-uncounted :
    (bs : List CategoryBudget) (counts : Table Text ℕ) (c : ScoredCandidate)
    (s : List ScoredCandidate)
    → All (λ b. in_category b.category (category_of c) ≡ false) bs
    → completes bs counts (c ∷ s) ≡ completes bs counts s
unfolding completes
completes-uncounted [] counts c s h = refl
completes-uncounted (b ∷ bs) counts c s h =
    ground (arith, h.0, completes-uncounted bs counts c s h.1)

-- A candidate of a category may be counted at once.
pub completes-counted :
    (bs : List CategoryBudget) (counts : Table Text ℕ) (c : ScoredCandidate)
    (s : List ScoredCandidate) (t : Text)
    → category_of c ≡ some t
    → completes bs counts (c ∷ s) ≡ completes bs (put t (tally t counts + 1) counts) s
unfolding completes
completes-counted [] counts c s t given = refl
completes-counted (b ∷ bs) counts c s t given = ground (
  arith,
  given,
  tally-put t b.category (tally t counts + 1) counts,
  text_eq_iff t b.category,
  text_eq_iff b.category t,
  completes-counted bs counts c s t given,
)

-- A candidate of a full category completes nothing.
pub completes-full :
    (bs : List CategoryBudget) (counts : Table Text ℕ) (c : ScoredCandidate)
    (s : List ScoredCandidate) (t : Text) (b : CategoryBudget)
    → category_of c ≡ some t
    → get t (pairs bs) ≡ some b
    → b.capacity ≤ tally t counts
    → completes bs counts (c ∷ s) ≡ false
unfolding completes get
completes-full [] counts c s t b given found full = absurd (ground arith)
completes-full (b' ∷ bs) counts c s t b given found full =
    elim (Bool-cases (text_eq b'.category t)) [
      | inl here ↦ ground (arith, given, here, found, full, text_eq_iff b'.category t)
      | inr gone ↦
          ground (arith, completes-full bs counts c s t b given (ground (arith, gone, found)) full)
    ]

-- Where no count is over its capacity, the counts complete as they stand if they meet the minimums.
pub completes-nil :
    (bs : List CategoryBudget) (counts : Table Text ℕ)
    → All (λ b. tally b.category counts ≤ b.capacity) bs
    → completes bs counts [] ≡ is_satisfied bs counts
unfolding completes is_satisfied
completes-nil [] counts h = refl
completes-nil (b ∷ bs) counts h = ground (arith, h.0, completes-nil bs counts h.1)

-- A category with too few candidates ahead is not completed from them.
pub completes-stuck :
    (bs : List CategoryBudget) (counts : Table Text ℕ) (from owed : ℕ) (cs s : List ScoredCandidate)
    → All (λ b. b.stop - max from b.start ≡ held b.category cs) bs
    → ((t : Text) → held t s ≤ held t cs)
    → owed_of bs counts from owed ≡ none
    → completes bs counts s ≡ false
unfolding completes owed_of
completes-stuck [] counts from owed cs s span few h = absurd (ground arith)
completes-stuck (b ∷ bs) counts from owed cs s span few h = ground (
  arith,
  span.0,
  few b.category,
  h,
  completes-stuck bs counts from owed cs s span.1 few,
  completes-stuck bs counts from (owed + (b.deficit - tally b.category counts)) cs s span.1 few,
)

-- How many members of a selection the budgets count.
abbrev pub counted : List CategoryBudget → List ScoredCandidate → ℕ
counted bs s = weigh (λ b. held b.category s) bs

-- A completion fills the slots that are owed.
pub completes-owed :
    (bs : List CategoryBudget) (counts : Table Text ℕ) (from owed total : ℕ)
    (s : List ScoredCandidate)
    → owed_of bs counts from owed ≡ some total
    → completes bs counts s ≡ true
    → total ≤ owed + counted bs s
unfolding completes owed_of
completes-owed [] counts from owed total s h full = ground (arith, h)
completes-owed (b ∷ bs) counts from owed total s h full = ground (
  arith,
  h,
  full,
  completes-owed bs counts from owed total s,
  completes-owed bs counts from (owed + (b.deficit - tally b.category counts)) total s,
)

once :
    (bs : List CategoryBudget) (t : Text)
    → IsKeyed (pairs bs)
    → weigh (λ b. one (text_eq b.category t)) bs ≤ 1
once [] t k = omega arith
once (b ∷ bs) t k = elim (Bool-cases (text_eq b.category t)) [
  | inl here ↦ ground (
    arith,
    here,
    weigh_cong_All (λ (b : CategoryBudget). one (text_eq b.category t)) (λ _. 0) bs
        (All-map bs (λ b' other. rw other refl)
          (no_budget bs t (ground (arith, k.0, text_eq_iff b.category t, here)))),
    weigh-zero bs,
  )
  | inr gone ↦ ground (arith, gone, once bs t k.1)
]

once_of :
    (bs : List CategoryBudget) (o : Option Text)
    → IsKeyed (pairs bs)
    → weigh (λ b. one (in_category b.category o)) bs ≤ 1
once_of bs none k = omega (arith, weigh-zero bs)
once_of bs (some t) k = once bs t k

-- The budgets count each member of a selection at most once.
pub counted-le :
    (bs : List CategoryBudget) (s : List ScoredCandidate)
    → IsKeyed (pairs bs)
    → counted bs s ≤ length s
counted-le bs [] k = omega (arith, weigh-zero bs)
counted-le bs (c ∷ s) k = omega (
  arith,
  weigh_add (λ (b : CategoryBudget). one (in_category b.category (category_of c)))
      (λ b. held b.category s) bs,
  once_of bs (category_of c) k,
  counted-le bs s k,
)

-- No subset is larger than the list.
pub combos-short {ℓ} : {A : Type ℓ} (k : ℕ) (cs : List A) → length cs < k → combos k cs ≡ []
unfolding combos
combos-short zero cs h = absurd (omega (arith, h))
combos-short (suc k) [] h = refl
combos-short (suc k) (c ∷ cs) h =
    rw (combos-short k cs (omega (arith, h)), combos-short (suc k) cs (omega (arith, h)))

-- A budget stands under its category.
pub pairs-category :
    (bs : List CategoryBudget) (t : Text) (b : CategoryBudget)
    → get t (pairs bs) ≡ some b
    → b.category ≡ t
unfolding get
pairs-category [] t b h = absurd (ground arith)
pairs-category (b' ∷ bs) t b h = elim (Bool-cases (text_eq b'.category t)) [
  | inl here ↦ ground (arith, here, h, text_eq_iff b'.category t)
  | inr gone ↦ pairs-category bs t b (ground (arith, gone, h))
]
