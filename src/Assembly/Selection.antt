-- ===== src/Assembly/Selection.antt =====
-- A selection that keeps what `#settle` of packages/compiler/src/context-compiler.ts promises passes
-- the checks of `verifyResult`.
use ctxalloc.Shared.{
  ℕ, ◌+◌, ◌≤◌, ◌≡◌, refl, sym, ap, subst, ◌∙◌, inl, inr, true, false, ◌&&◌, ◌||◌, not, Option, none,
  some, Option-cases, Bool-cases, if◌then◌else◌, List, [], ◌∷◌, ◌++◌, arith, length, ltb, leb, sort,
  sort-SameItems, sort-All, All, All-map, All-both, All-under, weigh, weigh-map, weigh-select,
  weigh_cong_All, weigh_cong, count, one, Text, text_eq, text_eq_iff, contains, Table, get, put,
  get-put, put_new, tally, tally-put, text_key, IsKeyed, same_refl, identity_key, or_zero,
}
use mathlib.Core.List.{append_assoc, append-nil}
use ctxalloc.Domain.ContextBlock.{ContextBlock}
use ctxalloc.Candidates.{ScoredCandidate, block_of, id_of, required_of, category_of}
use ctxalloc.Allocation.Policy.{CategoryConstraint, constraints_of}
use ctxalloc.Allocation.State.{in_category}
use ctxalloc.Orderer.Compare.{compare_blocks}
use ctxalloc.Orderer.Order.{order_candidates_for_rendering}
use ctxalloc.Compiler.Reference.{held}
use ctxalloc.Compiler.Valid.{at_most, in_bounds}
use ctxalloc.Correction.Measure.{blocks_of, arranged}
use ctxalloc.Correction.Settle.{CompilationRun, by_id}
use ctxalloc.Correction.Keys.{by_ids}
use ctxalloc.Correction.Visits.{IsSelection}
use ctxalloc.Correction.Eligible.{required_among}
use ctxalloc.Correction.Bounded.{KeepsBounds}
use ctxalloc.Correction.Initial.{eligible_of}
use ctxalloc.Assembly.Result.{
  included_twice, not_eligible, required_absent, below_minimum, over_maximum,
}
use ctxalloc.Assembly.Verify.{
  ids_of, is_known, category_under, count_selected, check_minimum, check_maximum, check_constraint,
  check_selection,
}
use ctxalloc.Assembly.Sets.{
  met, for_each-none, flat-none, set_size-length, contains-count, self_counted,
}

others :
    (cs : List ScoredCandidate) (t : Text)
    → get t (by_ids cs) ≡ none
    → All (λ c. text_eq t (id_of c) ≡ false) cs
unfolding get
others [] t h = tt
others (c ∷ cs) t h = (
  ground (arith, h, text_eq_iff t (id_of c), text_eq_iff (id_of c) t),
  others cs t (ground (arith, h)),
)

by_id-append :
    (cs : List ScoredCandidate) (m : Table Text ScoredCandidate)
    → IsKeyed (by_ids cs)
    → All (λ c. get (id_of c) m ≡ none) cs
    → by_id cs m ≡ m ++ by_ids cs
unfolding by_id
by_id-append [] m h new = sym (append-nil m)
by_id-append (c ∷ cs) m h new =
    ap (by_id cs) (put_new (id_of c) c m new.0)
    ∙ by_id-append cs (m ++ (id_of c, c) ∷ []) h.1 (
        subst (λ t. All (λ d. get (id_of d) t ≡ none) cs) (put_new (id_of c) c m new.0)
          (All-map cs (λ d both. ground (arith, both.0, both.1, get-put (id_of c) (id_of d) c m))
            (All-both _ _ cs (others cs (id_of c) h.0) new.1)))
    ∙ append_assoc m ((id_of c, c) ∷ []) (by_ids cs)

nowhere : (cs : List ScoredCandidate) → All (λ c. get (id_of c) (by_ids []) ≡ none) cs
unfolding get
nowhere [] = tt
nowhere (c ∷ cs) = (refl, nowhere cs)

-- The table of the candidates is their list of entries.
pub by_id-by_ids : (cs : List ScoredCandidate) → IsKeyed (by_ids cs) → by_id cs [] ≡ by_ids cs
by_id-by_ids cs h = by_id-append cs [] h (nowhere cs)

-- The identifiers in the rendering order are those of the selection.
pub ids-weigh :
    (f : Text → ℕ) (cs : List ScoredCandidate)
    → weigh f (ids_of (arranged (blocks_of cs))) ≡ weigh (λ c. f (id_of c)) cs
unfolding arranged order_candidates_for_rendering
ids-weigh f cs =
    weigh-map f (λ (b : ContextBlock). b.id) (sort compare_blocks (blocks_of cs))
    ∙ sort-SameItems compare_blocks (blocks_of cs) (λ b. f b.id)
    ∙ weigh-map (λ (b : ContextBlock). f b.id) block_of cs

count_selected-tally :
    (eligible : Table Text ScoredCandidate) (ts : List Text) (m : Table Text ℕ) (t : Text)
    → tally t (count_selected eligible ts m)
      ≡ tally t m + count (λ u. in_category t (category_under (get u eligible))) ts
unfolding count_selected
count_selected-tally eligible [] m t = omega arith
count_selected-tally eligible (u ∷ us) m t = elim (Option-cases (category_under (get u eligible))) [
  | inl free ↦ rw (count_selected, free) (omega (arith, count_selected-tally eligible us m t))
  | inr (k, given) ↦
      rw (count_selected, given)
        (ground (
          arith,
          count_selected-tally eligible us (put k (tally k m + 1) m) t,
          tally-put k t (tally k m + 1) m,
          text_eq_iff k t,
          text_eq_iff t k,
        ))
]

-- Bounds that are kept are not reported.
bounds_kept :
    (t : Text) (least most : Option ℕ) (n : ℕ)
    → (leb (or_zero least) n && at_most most n) ≡ true
    → check_minimum t least n ++ check_maximum t most n ≡ []
bounds_kept t none none n h = refl
bounds_kept t none (some hi) n h = met (not (ltb hi n)) (over_maximum t) (ground (arith, h))
bounds_kept t (some lo) none n h =
    ap (λ is. is ++ []) (met (not (ltb n lo)) (below_minimum t) (ground (arith, h)))
bounds_kept t (some lo) (some hi) n h =
    rw (met (not (ltb n lo)) (below_minimum t) (ground (arith, h)))
      (met (not (ltb hi n)) (over_maximum t) (ground (arith, h)))

module _ (run : CompilationRun) (cs : List ScoredCandidate)
    (keyed : IsKeyed (by_ids (eligible_of run)))
    (selection : IsSelection (by_ids (eligible_of run)) cs)
    (bounds : KeepsBounds (constraints_of run.allocation_policy) cs)
    (required : (f : ScoredCandidate → ℕ)
      → weigh f (required_among (eligible_of run)) ≤ weigh f cs) where
  abbrev known : Table Text ScoredCandidate
  known = by_ids (eligible_of run)

  -- The identifiers that are published.
  abbrev pub published : List Text
  published = ids_of (arranged (blocks_of cs))

  published-count :
      (t : Text) → count (λ u. text_eq u t) published ≡ count (λ c. text_eq (id_of c) t) cs
  published-count t = ids-weigh (λ u. one (text_eq u t)) cs

  pub published_unique : (t : Text) → count (λ u. text_eq u t) published ≤ 1
  published_unique t = omega (arith, published-count t, selection.1 t)

  pub published-known : All (λ t. is_known (get t known) ≡ true) published
  unfolding arranged order_candidates_for_rendering
  published-known =
      All-under _ (λ b. b.id) (sort compare_blocks (blocks_of cs))
        (sort-All compare_blocks _ (blocks_of cs)
          (All-under _ block_of cs (All-map cs (λ c e. ground (arith, e)) selection.0)))

  -- A category has as many of the published blocks as of the selection.
  selected-held : (t : Text) → tally t (count_selected known published []) ≡ held t cs
  unfolding get
  selected-held t = omega (
    arith,
    count_selected-tally known published [] t,
    ids-weigh (λ u. one (in_category t (category_under (get u known)))) cs,
    weigh_cong_All (λ c. one (in_category t (category_under (get (id_of c) known))))
        (λ c. one (in_category t (category_of c))) cs
        (All-map cs (λ c e. ap (λ o. one (in_category t (category_under o))) e) selection.0),
  )

  constraint-none :
      (k : CategoryConstraint)
      → in_bounds k (held k.category cs) ≡ true
      → check_constraint (count_selected known published []) k ≡ []
  unfolding check_constraint
  constraint-none k h =
      rw (selected-held k.category)
        (bounds_kept k.category k.min_blocks k.max_blocks (held k.category cs) h)

  required-published :
      All (λ c. (not (required_of c) || contains published (id_of c)) ≡ true) (eligible_of run)
  required-published =
      All-map (eligible_of run)
        (λ c itself. elim (Bool-cases (required_of c)) [
          | inl needed ↦
              rw
                (contains-count published (id_of c) (
                  omega (
                    arith,
                    published-count (id_of c),
                    required (λ d. one (text_eq (id_of d) (id_of c))),
                    itself needed,
                    weigh-select (λ d. one (text_eq (id_of d) (id_of c))) required_of
                        (eligible_of run),
                    weigh_cong (λ d. one (text_eq (id_of d) (id_of c) && required_of d))
                        (λ d. if required_of d then one (text_eq (id_of d) (id_of c)) else 0)
                        (eligible_of run) (λ d. ground arith),
                  )))
                (ground arith)
          | inr free ↦ rw free refl
        ])
        (self_counted required_of id_of (eligible_of run))

  pub check_selection-none : check_selection run published ≡ []
  unfolding check_selection
  check_selection-none = rw (by_id-by_ids (eligible_of run) keyed) (
      flat-none _ (
        met _ included_twice
            (rw (set_size-length published published_unique) (same_refl (length published))),
        (
          for_each-none _ published
              (All-map published (λ t e. met _ (not_eligible t) e) published-known),
          (
            for_each-none _ _ (
                sort-All _ _ known (
                  All-under _ (λ c. (id_of c, c)) (eligible_of run)
                    (All-map (eligible_of run) (λ c e. met _ (required_absent (id_of c)) e)
                      required-published))),
            (
              for_each-none _ _ (
                  sort-All _ _ (constraints_of run.allocation_policy)
                    (All-map (constraints_of run.allocation_policy) constraint-none bounds)),
              tt,
            ),
          ),
        ),
      ))
