-- ===== src/Allocation/Eviction.antt =====
-- `optionalEvictionOrder` of packages/compiler/src/budget-allocator.ts: every prefix of it may be
-- removed from the selection.
use ctxalloc.Shared.{
  ℕ, zero, suc, ◌+◌, ◌-◌, ◌≤◌, ◌≡◌, refl, ap, ◌∙◌, inl, inr, Bool, true, false, Option, none, some,
  List, [], ◌∷◌, map, arith, if◌then◌else◌, Option-cases, Text, text_eq_iff, sort, sort-SameItems,
  select, weigh-partition, or_zero, take, weigh, count, one, weigh-map, weigh-select, weigh_cong,
  weigh_add, Table, get, tally, tally-put, text_key,
}
use ctxalloc.Domain.TokenBudget.{TokenBudget}
use ctxalloc.Candidates.{ScoredCandidate, ScoredCandidateSet, id_of, required_of, category_of}
use ctxalloc.Allocation.Issue.{ok}
use ctxalloc.Allocation.Policy.{Allocator}
use ctxalloc.Allocation.State.{
  in_category, compare_eviction, InclusionReason, included_required, included_category_minimum,
  included_score_order, Included, State,
}
use ctxalloc.Allocation.Passes.{give_back, evict}
use ctxalloc.Allocation.Allocate.{is_optional_inclusion, eviction_order, assemble, allocate}
use ctxalloc.Allocation.Reconcile.{Allocated}
use ctxalloc.Allocation.Ledger.{taken}
use ctxalloc.Allocation.Accounting.{
  run-IsLedger, run-decides, run-required, only_required, if_required, allocate-Run,
}
use ctxalloc.Allocation.Bounds.{run-min}
use ctxalloc.Allocation.Guarantees.{included_of}
use ctxalloc.Allocation.Run.{Run}

in_category-none : (c : Text) (o : Option Text) → o ≡ none → in_category c o ≡ false
in_category-none c none h = refl
in_category-none c (some k) h = cc

-- Giving a block back lowers the count of its category alone, and only above the minimum.
give_back-tally :
    (a : Allocator) (x : ScoredCandidate) (counts : Table Text ℕ) {counts' : Table Text ℕ}
    → give_back a x counts ≡ some counts'
    → (c : Text) (m : ℕ) → get c a.min_blocks ≡ some m
    → m ≤ tally c counts
    → (tally c counts' + one (in_category c (category_of x)) ≡ tally c counts)
      × (m ≤ tally c counts')
unfolding give_back
give_back-tally a x counts {counts'} h c m least enough = elim (Option-cases (category_of x)) [
  | inl bare ↦ ground (arith, in_category-none c (category_of x) bare)
  | inr (k, given) ↦
      ground (arith, text_eq_iff c k, text_eq_iff k c, tally-put k c (tally k counts - 1) counts)
]

module _ (a : Allocator) where
  evict-le :
      (f : ScoredCandidate → ℕ) (xs : List ScoredCandidate) (counts : Table Text ℕ) (k : ℕ)
      → weigh f (take k (evict a xs counts)) ≤ weigh f xs
  unfolding evict
  evict-le f [] counts zero = omega arith
  evict-le f [] counts (suc k) = omega arith
  evict-le f (x ∷ xs) counts zero = omega arith
  evict-le f (x ∷ xs) counts (suc k) = elim (Option-cases (give_back a x counts)) [
    | inl held ↦ rw (held, evict) (omega (arith, evict-le f xs counts (suc k)))
    | inr (counts', back) ↦ rw (back, evict) (omega (arith, evict-le f xs counts' k))
  ]

  evict_safe :
      (c : Text) (m : ℕ) (xs : List ScoredCandidate) (counts : Table Text ℕ) (k : ℕ)
      → get c a.min_blocks ≡ some m
      → m ≤ tally c counts
      → m + count (λ x. in_category c (category_of x)) (take k (evict a xs counts)) ≤ tally c counts
  unfolding evict
  evict_safe c m [] counts zero least h = omega arith
  evict_safe c m [] counts (suc k) least h = omega arith
  evict_safe c m (x ∷ xs) counts zero least h = omega arith
  evict_safe c m (x ∷ xs) counts (suc k) least h = elim (Option-cases (give_back a x counts)) [
    | inl held ↦ rw (held, evict) (evict_safe c m xs counts (suc k) least h)
    | inr (counts', back) ↦
        let step = give_back-tally a x counts back c m least h in
        rw (back, evict) (omega (arith, step, evict_safe c m xs counts' k least step.1))
  ]

-- A weight of the inclusions whose reason is another than INCLUDED_REQUIRED.
abbrev not_required : (ScoredCandidate → ℕ) → InclusionReason → ScoredCandidate → ℕ
not_required f included_required c = 0
not_required f included_category_minimum c = f c
not_required f included_score_order c = f c

required_and_not :
    (f : ScoredCandidate → ℕ) (why : InclusionReason) (c : ScoredCandidate)
    → f c ≡ only_required f why c + not_required f why c
required_and_not f included_required c = omega arith
required_and_not f included_category_minimum c = omega arith
required_and_not f included_score_order c = omega arith

by_reason :
    (f : ScoredCandidate → ℕ) (why : InclusionReason) (c : ScoredCandidate)
    → (if (elim why [ included_required ↦ false | _ ↦ true ]) then f c else 0)
      ≡ not_required f why c
by_reason f included_required c = refl
by_reason f included_category_minimum c = refl
by_reason f included_score_order c = refl

-- The candidates that `#evictionOrder` sorts.
abbrev pub optional_inclusions : List Included → List ScoredCandidate
optional_inclusions ds = map (λ d. d.candidate) (select is_optional_inclusion ds)

weigh-optional_inclusions :
    (f : ScoredCandidate → ℕ) (s : State)
    → weigh f (optional_inclusions s.included) ≡ taken (not_required f) s
weigh-optional_inclusions f s =
    weigh-map f (λ (d : Included). d.candidate) (select is_optional_inclusion s.included)
    ∙ weigh-select (λ (d : Included). f d.candidate) is_optional_inclusion s.included
    ∙ weigh_cong _ (λ d. not_required f d.reason d.candidate) s.included
        (λ d. by_reason f d.reason d.candidate)

map-take : (k : ℕ) (xs : List ScoredCandidate) → map id_of (take k xs) ≡ take k (map id_of xs)
map-take zero xs = refl
map-take (suc k) [] = refl
map-take (suc k) (x ∷ xs) = ap (◌∷◌ (id_of x)) (map-take k xs)

module _ {a : Allocator} {input : ScoredCandidateSet} {available : ℕ} {t : State}
    (r : Run a input available t) where
  -- No inclusion of another reason is of a required candidate.
  pub optional_not_required : weigh (λ c. one (required_of c)) (optional_inclusions t.included) ≡ 0
  optional_not_required = omega (
    arith,
    weigh-optional_inclusions f t,
    run-decides r f,
    run-required r f,
    weigh_cong (if_required f) f input.candidates (λ c. masked (required_of c)),
    weigh_cong (λ (d : Included). f d.candidate)
        (λ d. only_required f d.reason d.candidate + not_required f d.reason d.candidate) t.included
        (λ d. required_and_not f d.reason d.candidate),
    weigh_add (λ (d : Included). only_required f d.reason d.candidate)
        (λ d. not_required f d.reason d.candidate) t.included,
  )
    where
      f : ScoredCandidate → ℕ
      f c = one (required_of c)

      masked : (b : Bool) → (if b then one b else 0) ≡ one b
      masked true = refl
      masked false = refl

  abbrev pub evicted : ℕ → List ScoredCandidate
  evicted k = take k (eviction_order a t)

  evicted-le :
      (f : ScoredCandidate → ℕ) (k : ℕ)
      → weigh f (evicted k) ≤ weigh f (optional_inclusions t.included)
  unfolding eviction_order
  evicted-le f k = omega (
    arith,
    evict-le a f (sort compare_eviction (optional_inclusions t.included)) t.selected_by_category k,
    sort-SameItems compare_eviction (optional_inclusions t.included) f,
  )

  pub evicted_safe :
      (c : Text) (m k : ℕ)
      → get c a.min_blocks ≡ some m
      → m + count (λ x. in_category c (category_of x)) (evicted k)
        ≤ taken (λ _ x. one (in_category c (category_of x))) t
  unfolding eviction_order
  evicted_safe c m k least =
      let books = run-IsLedger r in
      omega (
        arith,
        books.tallies c,
        evict_safe a c m (sort compare_eviction (optional_inclusions t.included))
            t.selected_by_category k least (omega (arith, run-min r c m least, books.tallies c)),
      )

  optional-le :
      (f : ScoredCandidate → ℕ)
      → weigh f (optional_inclusions t.included)
        ≤ weigh f (map (λ (d : Included). d.candidate) t.included)
  optional-le f = omega (
    arith,
    weigh-map f (λ (d : Included). d.candidate) t.included,
    weigh-map f (λ (d : Included). d.candidate) (select is_optional_inclusion t.included),
    weigh-partition (λ (d : Included). f d.candidate) is_optional_inclusion t.included,
  )

  -- What stays keeps every minimum, which is 0 where none is set.
  kept_safe :
      (c : Text) (k : ℕ)
      → tally c a.min_blocks + count (λ x. in_category c (category_of x)) (evicted k)
        ≤ count
            (λ x. in_category c (category_of x))
            (map (λ (d : Included). d.candidate) t.included)
  kept_safe c k =
      let f = λ (x : ScoredCandidate). one (in_category c (category_of x)) in
      elim (Option-cases (get c a.min_blocks)) [
        | inl free ↦ omega (arith, ap or_zero free, evicted-le f k, optional-le f)
        | inr (m, least) ↦ omega (
          arith,
          ap or_zero least,
          evicted_safe c m k least,
          weigh-map f (λ (d : Included). d.candidate) t.included,
        )
      ]

-- For every prefix of a result's eviction order, whatever the policy, there are candidates with
-- those block identifiers, all of them inclusions with another reason than INCLUDED_REQUIRED and
-- none of them required, without which every category still has as many included blocks as its
-- minimum, which is 0 where none is set.
pub allocate-evicts_safely :
    (a : Allocator) (input : ScoredCandidateSet) (budget : TokenBudget) {r : Allocated}
    → allocate a input budget ≡ ok r
    → (k : ℕ)
    → (prefix : List ScoredCandidate) × (map id_of prefix ≡ take k r.optional_eviction_order)
      × ((f : ScoredCandidate → ℕ) → weigh f prefix ≤ weigh f (optional_inclusions r.included))
      × (count required_of prefix ≡ 0)
      × ((c : Text)
          → tally c a.min_blocks + count (λ x. in_category c (category_of x)) prefix
            ≤ included_of c r)
unfolding assemble
allocate-evicts_safely a input budget h k =
    let (s, run, same) = allocate-Run a input budget h in
    rw same (
      evicted run k,
      map-take k (eviction_order a s),
      λ f. evicted-le run f k,
      omega (arith, evicted-le run (λ x. one (required_of x)) k, optional_not_required run),
      λ c. kept_safe run c k,
    )
