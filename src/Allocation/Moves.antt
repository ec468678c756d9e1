-- ===== src/Allocation/Moves.antt =====
-- What the passes of packages/compiler/src/budget-allocator.ts do to the ledger of the state.
use ctxalloc.Shared.{
  ℕ, ◌+◌, ◌≤◌, ◌≡◌, refl, sym, ap, subst, ◌∙◌, List, [], ◌∷◌, arith, ltb, ltb→le, Bool-cases, inl,
  inr, weigh, text_key,
}
use ctxalloc.Candidates.{ScoredCandidate, tokens_of}
use ctxalloc.Allocation.Issue.{ok, ok-injective}
use ctxalloc.Allocation.State.{
  AllocationCandidate, InclusionReason, included_required, included_category_minimum,
  included_score_order, ExclusionReason, excluded_category_maximum, excluded_budget_exhausted,
  State, include, exclude,
}
use ctxalloc.Allocation.Policy.{Allocator}
use ctxalloc.Allocation.Passes.{allocate_required, reserve, at_maximum, consider, allocate_optional}
use ctxalloc.Allocation.Ledger.{
  IsLedger, taken, dropped, taken-include, dropped-include, remaining-include, include-IsLedger,
  taken-exclude, dropped-exclude, remaining-exclude, exclude-IsLedger,
}

-- What a pass that only includes does to the books.
pub record Adds (why : InclusionReason) (es : List AllocationCandidate) (s t : State) : Type 0 where
  pub takes :
      (f : InclusionReason → ScoredCandidate → ℕ)
      → taken f t ≡ taken f s + weigh (λ e. f why e.scored) es
  pub drops : (f : ScoredCandidate → ℕ) → dropped f t ≡ dropped f s
  pub keeps : (available : ℕ) → IsLedger available s → IsLedger available t

Adds-none : (why : InclusionReason) (s : State) → Adds why [] s s
Adds-none why s = record { takes = λ f. omega arith; drops = λ f. refl; keeps = λ available h. h }

Adds-include :
    (why : InclusionReason) (e : AllocationCandidate) (es : List AllocationCandidate) (s t : State)
    → tokens_of e.scored ≤ s.remaining
    → Adds why es (include e why s) t
    → Adds why (e ∷ es) s t
Adds-include why e es s t fits h = record {
  takes = λ f. omega (arith, h.takes f, taken-include e why s f);
  drops = λ f. h.drops f ∙ dropped-include e why s f;
  keeps = λ available l. h.keeps available (include-IsLedger e why s available fits l);
}

pub allocate_required-Adds :
    (available : ℕ) (es : List AllocationCandidate) (s : State) {t : State}
    → allocate_required available es s ≡ ok t
    → Adds included_required es s t
unfolding allocate_required
allocate_required-Adds available [] s {t} h =
    subst (Adds included_required [] s) (ok-injective h) (Adds-none included_required s)
allocate_required-Adds available (e ∷ es) s {t} h =
    elim (Bool-cases (ltb s.remaining (tokens_of e.scored))) [
      | inl over ↦ absurd (ground arith)
      | inr fits ↦
          Adds-include included_required e es s t (ltb→le _ _ fits)
            (allocate_required-Adds available es _ (rw fits at h))
    ]

-- The handles that the set `reserved` holds after a list of views was added to it.
abbrev pub add_handles : List AllocationCandidate → List ℕ → List ℕ
add_handles [] hs = hs
add_handles (e ∷ es) hs = add_handles es (e.handle ∷ hs)

pub reserve-Adds :
    (available needs : ℕ) (es : List AllocationCandidate) (s : State) (hs : List ℕ)
    {r : State × List ℕ}
    → reserve available needs es s hs ≡ ok r
    → Adds included_category_minimum es s r.0 × (r.1 ≡ add_handles es hs)
unfolding reserve
reserve-Adds available needs [] s hs h = (
  subst (λ r. Adds included_category_minimum [] s r.0) (ok-injective h) (Adds-none _ s),
  ap (λ r. r.1) (sym (ok-injective h)),
)
reserve-Adds available needs (e ∷ es) s hs h =
    elim (Bool-cases (ltb s.remaining (tokens_of e.scored))) [
      | inl over ↦ absurd (ground arith)
      | inr fits ↦
          let rest = reserve-Adds available needs es _ (e.handle ∷ hs) (rw fits at h) in
          (Adds-include included_category_minimum e es s _ (ltb→le _ _ fits) rest.0, rest.1)
    ]

-- The general pass decides each candidate, by an inclusion or by an exclusion.
pub record Decides (es : List AllocationCandidate) (s t : State) : Type 0 where
  pub decides :
      (f : ScoredCandidate → ℕ)
      → taken (λ why c. f c) t + dropped f t
        ≡ taken (λ why c. f c) s + dropped f s + weigh (λ e. f e.scored) es
  -- what an earlier pass took stays as it was
  pub keeps_taken :
      (f : InclusionReason → ScoredCandidate → ℕ)
      → ((c : ScoredCandidate) → f included_score_order c ≡ 0)
      → taken f t ≡ taken f s
  pub grows : (f : ScoredCandidate → ℕ) → taken (λ _ c. f c) s ≤ taken (λ _ c. f c) t
  -- the remainder only falls
  pub spends : t.remaining ≤ s.remaining
  pub keeps : (available : ℕ) → IsLedger available s → IsLedger available t

Decides-exclude :
    (e : AllocationCandidate) (why : ExclusionReason) (s : State)
    → Decides (e ∷ []) s (exclude e why s)
Decides-exclude e why s = record {
  decides = λ f. omega (arith, taken-exclude e why s (λ _ c. f c), dropped-exclude e why s f);
  keeps_taken = λ f z. taken-exclude e why s f;
  grows = λ f. omega (arith, taken-exclude e why s (λ _ c. f c));
  spends = remaining-exclude e why s;
  keeps = λ available h. exclude-IsLedger e why s available h;
}

Decides-include :
    (e : AllocationCandidate) (s : State)
    → tokens_of e.scored ≤ s.remaining
    → Decides (e ∷ []) s (include e included_score_order s)
Decides-include e s fits = record {
  decides = λ f. omega (
    arith,
    taken-include e included_score_order s (λ _ c. f c),
    dropped-include e included_score_order s f,
  );
  keeps_taken = λ f z. omega (arith, taken-include e included_score_order s f, z e.scored);
  grows = λ f. omega (arith, taken-include e included_score_order s (λ _ c. f c));
  spends = remaining-include e included_score_order s;
  keeps = λ available h. include-IsLedger e included_score_order s available fits h;
}

pub consider-Decides :
    (a : Allocator) (e : AllocationCandidate) (s : State) → Decides (e ∷ []) s (consider a e s)
unfolding consider
consider-Decides a e s = elim (Bool-cases (at_maximum a e s)) [
  | inl full ↦ rw full (Decides-exclude e excluded_category_maximum s)
  | inr room ↦ elim (Bool-cases (ltb s.remaining (tokens_of e.scored))) [
    | inl over ↦ rw (room, over) (Decides-exclude e excluded_budget_exhausted s)
    | inr fits ↦ rw (room, fits) (Decides-include e s (ltb→le _ _ fits))
  ]
]

pub allocate_optional-Decides :
    (a : Allocator) (es : List AllocationCandidate) (s : State)
    → Decides es s (allocate_optional a es s)
unfolding allocate_optional
allocate_optional-Decides a [] s = record {
  decides = λ f. omega arith;
  keeps_taken = λ f z. refl;
  grows = λ f. omega arith;
  spends = omega arith;
  keeps = λ available h. h;
}
allocate_optional-Decides a (e ∷ es) s =
    let one = consider-Decides a e s in
    let rest = allocate_optional-Decides a es (consider a e s) in
    record {
      decides = λ f. omega (arith, one.decides f, rest.decides f);
      keeps_taken = λ f z. rest.keeps_taken f z ∙ one.keeps_taken f z;
      grows = λ f. omega (arith, one.grows f, rest.grows f);
      spends = omega (arith, one.spends, rest.spends);
      keeps = λ available h. rest.keeps available (one.keeps available h);
    }
