-- ===== src/Allocation/Origins.antt =====
-- Where the inclusions of packages/compiler/src/budget-allocator.ts come from: what holds of every
-- candidate of the batch holds of the included ones.
use ctxalloc.Shared.{
  ℕ, suc, ◌≡◌, subst, inl, inr, List, [], ◌∷◌, map, arith, ltb, sort, length, not, Option-cases,
  Bool-cases, All, All-append, All-selected, All-take, All-under, sort-All, Text, get, text_key,
}
use ctxalloc.Domain.TokenBudget.{TokenBudget, reserves_fit_total, available_input_tokens}
use ctxalloc.Candidates.{ScoredCandidate, ScoredCandidateSet, tokens_of, required_of}
use ctxalloc.Allocation.Issue.{ok, ◌>>=◌, Halves-ok, ok-injective}
use ctxalloc.Allocation.Policy.{Allocator, constrained_categories}
use ctxalloc.Allocation.State.{
  AllocationCandidate, views_from, compare_traversal, compare_required, compare_minimum_cost,
  compare_score_order, State, start, Included, include, exclude, InclusionReason,
}
use ctxalloc.Allocation.Passes.{
  picks_of, picks, detect_count_failures, allocate_required, reserve, at_maximum, consider, has,
  allocate_optional,
}
use ctxalloc.Allocation.Allocate.{
  views, required_views, optional_views, unreserved, raise_any, run_passes, assemble, allocate,
}
use ctxalloc.Allocation.Run.{union_of}
use ctxalloc.Allocation.Reconcile.{Allocated, reconcile}

module _ {κ} (P : ScoredCandidate → Type κ) where
  abbrev OfViews : List AllocationCandidate → Type κ
  OfViews = All (λ e. P e.scored)

  abbrev Holds : State → Type κ
  Holds s = All (λ (d : Included). P d.candidate) s.included

  include-Holds :
      (e : AllocationCandidate) (why : InclusionReason) (s : State)
      → P e.scored
      → Holds s
      → Holds (include e why s)
  unfolding include
  include-Holds e why s p h = All-append _ s.included _ h (p, tt)

  allocate_required-Holds :
      (available : ℕ) (es : List AllocationCandidate) (s : State) {t : State}
      → OfViews es
      → Holds s
      → allocate_required available es s ≡ ok t
      → Holds t
  unfolding allocate_required
  allocate_required-Holds available [] s of_es h e = subst Holds (ok-injective e) h
  allocate_required-Holds available (v ∷ es) s of_es h e =
      elim (Bool-cases (ltb s.remaining (tokens_of v.scored))) [
        | inl over ↦ absurd (ground (arith, e, over))
        | inr fits ↦
            allocate_required-Holds available es _ of_es.1 (include-Holds v _ s of_es.0 h)
              (rw fits at e)
      ]

  reserve-Holds :
      (available needs : ℕ) (es : List AllocationCandidate) (s : State) (hs : List ℕ)
      {r : State × List ℕ}
      → OfViews es
      → Holds s
      → reserve available needs es s hs ≡ ok r
      → Holds r.0
  unfolding reserve
  reserve-Holds available needs [] s hs of_es h e = subst (λ r. Holds r.0) (ok-injective e) h
  reserve-Holds available needs (v ∷ es) s hs of_es h e =
      elim (Bool-cases (ltb s.remaining (tokens_of v.scored))) [
        | inl over ↦ absurd (ground (arith, e, over))
        | inr fits ↦
            reserve-Holds available needs es _ (v.handle ∷ hs) of_es.1
              (include-Holds v _ s of_es.0 h) (rw fits at e)
      ]

  consider-Holds :
      (a : Allocator) (v : AllocationCandidate) (s : State)
      → P v.scored
      → Holds s
      → Holds (consider a v s)
  unfolding consider exclude
  consider-Holds a v s p h = elim (Bool-cases (at_maximum a v s)) [
    | inl full ↦ rw full h
    | inr room ↦ elim (Bool-cases (ltb s.remaining (tokens_of v.scored))) [
      | inl over ↦ rw (room, over) h
      | inr fits ↦ rw (room, fits) (include-Holds v _ s p h)
    ]
  ]

  allocate_optional-Holds :
      (a : Allocator) (es : List AllocationCandidate) (s : State)
      → OfViews es
      → Holds s
      → Holds (allocate_optional a es s)
  unfolding allocate_optional
  allocate_optional-Holds a [] s of_es h = h
  allocate_optional-Holds a (v ∷ es) s of_es h =
      allocate_optional-Holds a es (consider a v s) of_es.1 (consider-Holds a v s of_es.0 h)

  views_from-OfViews : (n : ℕ) (cs : List ScoredCandidate) → All P cs → OfViews (views_from n cs)
  unfolding views_from
  views_from-OfViews n [] h = tt
  views_from-OfViews n (c ∷ cs) h = (h.0, views_from-OfViews (suc n) cs h.1)

  picks_of-OfViews :
      (a : Allocator) (required optional : List AllocationCandidate) (t : Text)
      → OfViews optional
      → OfViews (picks_of a required optional t)
  unfolding picks_of
  picks_of-OfViews a required optional t h = elim (Option-cases (get t a.min_blocks)) [
    | inl unset ↦ rw (picks_of, unset) tt
    | inr (m, set) ↦
        rw (picks_of, set)
          (All-take _ _ _ (sort-All compare_minimum_cost _ _ (All-selected _ _ optional h)))
  ]

  picks-OfViews :
      (a : Allocator) (required optional : List AllocationCandidate) (ts : List Text)
      → OfViews optional
      → OfViews (picks a required optional ts)
  unfolding picks
  picks-OfViews a required optional [] h = tt
  picks-OfViews a required optional (t ∷ ts) h =
      All-append _ (picks_of a required optional t) (picks a required optional ts)
        (picks_of-OfViews a required optional t h) (picks-OfViews a required optional ts h)

  module _ (a : Allocator) (input : ScoredCandidateSet) (h : All P input.candidates) where
    of_views : OfViews (views input)
    unfolding views
    of_views = views_from-OfViews 0 _ (sort-All compare_traversal P input.candidates h)

    -- The passes after the counts were checked.
    passes-Holds :
        (available : ℕ) {t : State}
        → (allocate_required available
              (sort compare_required (required_views input))
              (start available)
            >>= (λ s.
                reserve available (length (union_of a input)) (union_of a input) s [] >>= (λ r. ok (
                  allocate_optional a
                    (sort compare_score_order (unreserved r.1 (optional_views input)))
                    r.0))))
          ≡ ok t
        → Holds t
    passes-Holds available {t} e =
        let required =
          All-selected (λ v. P v.scored) (λ v. required_of v.scored) (views input) of_views in
        let optional =
          All-selected (λ v. P v.scored) (λ v. not (required_of v.scored)) (views input) of_views in
        let record { value = s; first = allocated; second = e₁ } =
          Halves-ok
            (allocate_required available (sort compare_required (required_views input))
              (start available))
            (λ s. reserve available (length (union_of a input)) (union_of a input) s [] >>= (λ r.
              ok (
                allocate_optional a
                  (sort compare_score_order (unreserved r.1 (optional_views input))) r.0)))
            e in
        let record { value = r; first = reserved; second = e₂ } =
          Halves-ok (reserve available (length (union_of a input)) (union_of a input) s [])
            (λ r. ok (
              allocate_optional a (sort compare_score_order (unreserved r.1 (optional_views input)))
                r.0))
            e₁ in
        let from_required =
          allocate_required-Holds available (sort compare_required (required_views input))
            (start available) (sort-All compare_required _ (required_views input) required) tt
            allocated in
        let from_minimums =
          reserve-Holds available (length (union_of a input)) (union_of a input) s []
            (picks-OfViews a (required_views input) (optional_views input)
              (constrained_categories a) optional)
            from_required reserved in
        subst Holds (ok-injective e₂) (
          allocate_optional-Holds a
            (sort compare_score_order (unreserved r.1 (optional_views input))) r.0
            (sort-All compare_score_order _ (unreserved r.1 (optional_views input)) (
              All-selected (λ v. P v.scored) (λ v. not (has r.1 v)) (optional_views input)
                optional))
            from_minimums)

    run_passes-Holds : (available : ℕ) {t : State} → run_passes a input available ≡ ok t → Holds t
    unfolding run_passes
    run_passes-Holds available {t} e =
        let record { value = u; first = counted; second = e₁ } =
          Halves-ok
            (raise_any (
              detect_count_failures a (required_views input) (optional_views input)
                (constrained_categories a)))
            (λ _.
              allocate_required available (sort compare_required (required_views input))
                (start available)
              >>= (λ s.
                  reserve available (length (union_of a input)) (union_of a input) s [] >>= (λ r.
                    ok (
                      allocate_optional a
                        (sort compare_score_order (unreserved r.1 (optional_views input))) r.0))))
            e in
        passes-Holds available e₁

    pub allocate-included :
        (budget : TokenBudget) {r : Allocated}
        → allocate a input budget ≡ ok r
        → All P (map (λ (d : Included). d.candidate) r.included)
    unfolding allocate assemble
    allocate-included budget {r} e = elim (Bool-cases (reserves_fit_total budget)) [
      | inr no_fit ↦ absurd (ground (arith, e, no_fit))
      | inl fit ↦ opened (rw fit at e)
    ]
      where
        opened :
            (run_passes a input (available_input_tokens budget) >>= (λ s.
                raise_any (
                  reconcile
                    (assemble a input budget s)
                    (views input)
                    (available_input_tokens budget))
                >>= (λ _. ok (assemble a input budget s))))
              ≡ ok r
            → All P (map (λ (d : Included). d.candidate) r.included)
        opened e' =
            let record { value = s; first = ran; second = e₁ } =
              Halves-ok (run_passes a input _) _ e' in
            let record { value = u; first = checked; second = e₂ } =
              Halves-ok
                (raise_any (
                  reconcile (assemble a input budget s) (views input)
                    (available_input_tokens budget)))
                (λ _. ok (assemble a input budget s)) e₁ in
            subst (λ (r : Allocated). All P (map (λ (d : Included). d.candidate) r.included))
              (ok-injective e₂)
              (All-under P (λ (d : Included). d.candidate) s.included (run_passes-Holds _ ran))
