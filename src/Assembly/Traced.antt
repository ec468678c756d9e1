-- ===== src/Assembly/Traced.antt =====
-- What `traceGroup` of packages/compiler/src/compilation-trace.ts makes of the groups: each keeps its
-- identifier and the verdict of its candidate.
use ctxalloc.Shared.{
  ℕ, ◌≤◌, ◌≡◌, refl, sym, ap, subst, ◌∙◌, inl, inr, Bool, Option, none, some, Bool-cases, List, [],
  ◌∷◌, map, arith, All, All-map, All-over, weigh, weigh-map, weigh_cong_All, count, one, Text,
  text_eq, text_eq_refl, Table, get, put, get-put, text_key,
}
use ctxalloc.Shared.Outcome.{returned}
use ctxalloc.Candidates.{DeduplicatedCandidate, CandidateScore, id_of}
use ctxalloc.Filter.Decide.{Decision, is_eligible}
use ctxalloc.Filter.Decisions.{after-Steps, returned-injective}
use ctxalloc.Correction.Keys.{IsUnique}
use ctxalloc.Assembly.Trace.{
  AllocationDecision, included, excluded, TraceGroup, GroupEvidence, enter_entries, trace_allocated,
  trace_known, trace_group, trace_groups,
}
use ctxalloc.Assembly.Groups.{Traces}

module _ {ℓ} {V : Type ℓ} where
  absent-entries :
      (es : List (Text × V)) (m : Table Text V) (t : Text)
      → count (λ e. text_eq e.0 t) es ≡ 0
      → get t (enter_entries es m) ≡ get t m
  unfolding enter_entries
  absent-entries [] m t h = refl
  absent-entries (e ∷ es) m t h =
      ground (arith, h, absent-entries es (put e.0 e.1 m) t, get-put e.0 t e.1 m)

  -- Entries with different keys are all found.
  pub entries-found :
      (es : List (Text × V)) (m : Table Text V)
      → ((t : Text) → count (λ e. text_eq e.0 t) es ≤ 1)
      → All (λ e. get e.0 (enter_entries es m) ≡ some e.1) es
  unfolding enter_entries
  entries-found [] m h = tt
  entries-found (e ∷ es) m h = (
    ground (
      arith,
      h e.0,
      text_eq_refl e.0,
      absent-entries es (put e.0 e.1 m) e.0,
      get-put e.0 e.0 e.1 m,
    ),
    entries-found es (put e.0 e.1 m) (λ t. omega (arith, h t)),
  )

-- A group is that of the decision found for it.
abbrev IsFrom : Option Decision → Text → TraceGroup → Type 0
IsFrom none t g = ⊥
IsFrom (some d) t g = (g.block_id ≡ t) × (g.filtering ≡ d.verdict)

trace_allocated-IsFrom :
    (group : DeduplicatedCandidate) (score : CandidateScore) (d : Decision) (ev : GroupEvidence)
    (o : Option AllocationDecision) {g : TraceGroup}
    → trace_allocated group score d.verdict ev o ≡ returned g
    → IsFrom (some d) group.canonical_block.id g
unfolding trace_allocated
trace_allocated-IsFrom group score d ev none h = absurd (cc)
trace_allocated-IsFrom group score d ev (some (included why)) {g} h =
    subst (IsFrom (some d) group.canonical_block.id) (returned-injective h) (refl, refl)
trace_allocated-IsFrom group score d ev (some (excluded why)) {g} h =
    subst (IsFrom (some d) group.canonical_block.id) (returned-injective h) (refl, refl)

trace_known-IsFrom :
    (group : DeduplicatedCandidate) (ev : GroupEvidence) (o : Option Decision)
    (p : Option CandidateScore) {g : TraceGroup}
    → trace_known group ev o p ≡ returned g
    → IsFrom o group.canonical_block.id g
unfolding trace_known
trace_known-IsFrom group ev none p h = absurd (cc)
trace_known-IsFrom group ev (some d) none h = absurd (cc)
trace_known-IsFrom group ev (some d) (some score) {g} h =
    elim (Bool-cases (is_eligible d.verdict)) [
      | inl eligible ↦
          trace_allocated-IsFrom group score d ev (get group.canonical_block.id ev.allocation)
            (rw (trace_known, eligible) at h)
      | inr filtered ↦
          subst (IsFrom (some d) group.canonical_block.id)
            (returned-injective (rw (trace_known, filtered) at h)) (refl, refl)
    ]

-- The weight of what is found for a group.
abbrev found_weight : (Text → Bool → ℕ) → Text → Option Decision → ℕ
found_weight f t none = 0
found_weight f t (some d) = f t (is_eligible d.verdict)

IsFrom-weight :
    (f : Text → Bool → ℕ) (o : Option Decision) (t : Text) (g : TraceGroup)
    → IsFrom o t g
    → f g.block_id (is_eligible g.filtering) ≡ found_weight f t o
IsFrom-weight f none t g h = absurd h
IsFrom-weight f (some d) t g h =
    ap (λ u. f u (is_eligible g.filtering)) h.0 ∙ ap (λ v. f t (is_eligible v)) h.1

trace_groups-weigh :
    (ev : GroupEvidence) (groups : List DeduplicatedCandidate) {gs : List TraceGroup}
    (f : Text → Bool → ℕ)
    → trace_groups ev groups ≡ returned gs
    → weigh (λ g. f g.block_id (is_eligible g.filtering)) gs
      ≡ weigh
          (λ group.
            found_weight f group.canonical_block.id (get group.canonical_block.id ev.filtering))
          groups
unfolding trace_groups trace_group
trace_groups-weigh ev [] f h =
    ap (weigh (λ (g : TraceGroup). f g.block_id (is_eligible g.filtering)))
      (sym (returned-injective h))
trace_groups-weigh ev (group ∷ groups) {gs} f h =
    let record { value = g; first = traced; second = others } =
      after-Steps (trace_group ev group) _ h in
    let record { value = rest; first = below; second = built } =
      after-Steps (trace_groups ev groups) _ others in
    let t = group.canonical_block.id in
    ap (weigh (λ (g : TraceGroup). f g.block_id (is_eligible g.filtering)))
      (sym (returned-injective built))
    ∙ omega (
      arith,
      IsFrom-weight f (get t ev.filtering) t g
          (trace_known-IsFrom group ev (get t ev.filtering) (get t ev.score) traced),
      trace_groups-weigh ev groups f below,
    )

-- Groups of the identifiers that were decided are traced with their verdicts.
pub trace_groups-Traces :
    (ev : GroupEvidence) (groups : List DeduplicatedCandidate) (ds : List Decision)
    {gs : List TraceGroup}
    → ev.filtering ≡ enter_entries (map (λ d. (id_of d.candidate, d)) ds) []
    → IsUnique (map (λ d. d.candidate) ds)
    → ((f : Text → ℕ)
        → weigh (λ group. f group.canonical_block.id) groups
          ≡ weigh (λ d. f (id_of d.candidate)) ds)
    → trace_groups ev groups ≡ returned gs
    → Traces gs ds
trace_groups-Traces ev groups ds {gs} table unique same h f =
    let entries = map (λ (d : Decision). (id_of d.candidate, d)) ds in
    trace_groups-weigh ev groups f h
    ∙ same (λ t. found_weight f t (get t ev.filtering))
    ∙ weigh_cong_All _ (λ d. f (id_of d.candidate) (is_eligible d.verdict)) ds
        (All-map ds
          (λ d e.
            ap (λ m. found_weight f (id_of d.candidate) (get (id_of d.candidate) m)) table
            ∙ ap (found_weight f (id_of d.candidate)) e)
          (All-over _ (λ d. (id_of d.candidate, d)) ds
            (entries-found entries [] (λ t. omega (
              arith,
              unique t,
              weigh-map (λ (e : Text × Decision). one (text_eq e.0 t))
                  (λ (d : Decision). (id_of d.candidate, d)) ds,
              weigh-map (λ c. one (text_eq (id_of c) t)) (λ (d : Decision). d.candidate) ds,
            )))))
