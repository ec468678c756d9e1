-- ===== src/Assembly/Dispositions.antt =====
-- What `traceGroup` of packages/compiler/src/compilation-trace.ts shows of a group, from what the maps
-- of `build` hold of its identifier.
use ctxalloc.Shared.{
  ℕ, ◌≡◌, refl, ap, ◌∙◌, inl, inr, true, false, Option, none, some, Bool-cases, Option-cases,
  some-injective, List, [], ◌∷◌, map, arith, subst, All, weigh, Text, get, text_key,
}
use ctxalloc.Shared.Outcome.{Outcome, returned, after}
use ctxalloc.Candidates.{DeduplicatedCandidate, CandidateScore}
use ctxalloc.Filter.Decide.{Decision, is_eligible}
use ctxalloc.Assembly.Trace.{
  AllocationDecision, included, excluded, Disposition, filtered_group, included_group,
  excluded_group, TraceIssue, TraceGroup, GroupEvidence, trace_member, trace_allocated, trace_known,
  trace_group, trace_groups,
}

abbrev pub allocated_disposition : Option AllocationDecision → Option Disposition
allocated_disposition none = none
allocated_disposition (some (included why)) = some included_group
allocated_disposition (some (excluded why)) = some excluded_group

abbrev pub disposition_from :
    Option Decision → Option CandidateScore → Option AllocationDecision → Option Disposition
disposition_from none score o = none
disposition_from (some d) none o = none
disposition_from (some d) (some score) o = elim (is_eligible d.verdict) [
  | false ↦ some filtered_group
  | true ↦ allocated_disposition o
]

-- The disposition of an identifier, where the maps hold enough of it.
abbrev pub disposition_of : GroupEvidence → Text → Option Disposition
disposition_of ev t = disposition_from (get t ev.filtering) (get t ev.score) (get t ev.allocation)

-- The render position of an identifier, where it is shown as included.
abbrev pub placed_at : GroupEvidence → Text → Disposition → Option ℕ
placed_at ev t filtered_group = none
placed_at ev t included_group = get t ev.render_position
placed_at ev t excluded_group = none

-- A group that is shown with a disposition.
record IsShown (ev : GroupEvidence) (group : DeduplicatedCandidate) (w : Disposition)
    (g : TraceGroup) : Type 0 where
  pub named : g.block_id ≡ group.canonical_block.id
  pub sized : g.token_count ≡ group.canonical_block.token_count
  pub listed : g.members ≡ map trace_member group.members
  pub disposed : g.current_disposition ≡ w
  pub placed : g.render_position ≡ placed_at ev group.canonical_block.id w

abbrev Shows :
    GroupEvidence → DeduplicatedCandidate → Outcome TraceIssue TraceGroup → Disposition → Type 0
Shows ev group o w = (g : TraceGroup) × (o ≡ returned g) × IsShown ev group w g

trace_allocated-IsShown :
    (group : DeduplicatedCandidate) (score : CandidateScore) (d : Decision) (ev : GroupEvidence)
    (o : Option AllocationDecision) (w : Disposition)
    → allocated_disposition o ≡ some w
    → Shows ev group (trace_allocated group score d.verdict ev o) w
unfolding trace_allocated
trace_allocated-IsShown group score d ev none w h = absurd (cc)
trace_allocated-IsShown group score d ev (some (included why)) w h =
    subst (Shows ev group (trace_allocated group score d.verdict ev (some (included why))))
      (some-injective h)
      (
        _,
        refl,
        record { named = refl; sized = refl; listed = refl; disposed = refl; placed = refl },
      )
trace_allocated-IsShown group score d ev (some (excluded why)) w h =
    subst (Shows ev group (trace_allocated group score d.verdict ev (some (excluded why))))
      (some-injective h)
      (
        _,
        refl,
        record { named = refl; sized = refl; listed = refl; disposed = refl; placed = refl },
      )

trace_known-IsShown :
    (group : DeduplicatedCandidate) (ev : GroupEvidence) (o : Option Decision)
    (p : Option CandidateScore) (w : Disposition)
    → disposition_from o p (get group.canonical_block.id ev.allocation) ≡ some w
    → Shows ev group (trace_known group ev o p) w
unfolding trace_known
trace_known-IsShown group ev none p w h = absurd (cc)
trace_known-IsShown group ev (some d) none w h = absurd (cc)
trace_known-IsShown group ev (some d) (some score) w h = elim (Bool-cases (is_eligible d.verdict)) [
  | inl eligible ↦
      rw (trace_known, eligible)
        (trace_allocated-IsShown group score d ev (get group.canonical_block.id ev.allocation) w
          (rw (disposition_from, eligible) at h))
  | inr filtered ↦
      rw (trace_known, filtered)
        (subst (Shows ev group _) (some-injective (rw (disposition_from, filtered) at h)) (
          _,
          refl,
          record { named = refl; sized = refl; listed = refl; disposed = refl; placed = refl },
        ))
]

-- One where nothing is found.
abbrev pub missing : Option Disposition → ℕ
missing none = 1
missing (some w) = 0

-- Groups that were traced, with the weights of their dispositions.
pub record AreShown (ev : GroupEvidence) (groups : List DeduplicatedCandidate)
    (gs : List TraceGroup) : Type 0 where
  pub named : map (λ g. g.block_id) gs ≡ map (λ group. group.canonical_block.id) groups
  pub sized : map (λ g. g.token_count) gs ≡ map (λ group. group.canonical_block.token_count) groups
  pub listed : map (λ g. g.members) gs ≡ map (λ group. map trace_member group.members) groups
  pub placed : All (λ g. g.render_position ≡ placed_at ev g.block_id g.current_disposition) gs
  pub disposed :
      (f : Text → Option Disposition → ℕ)
      → weigh (λ g. f g.block_id (some g.current_disposition)) gs
        ≡ weigh
            (λ group. f group.canonical_block.id (disposition_of ev group.canonical_block.id))
            groups

-- Groups are traced where none of them misses its evidence.
pub trace_groups-AreShown :
    (ev : GroupEvidence) (groups : List DeduplicatedCandidate)
    → weigh
        (λ (group : DeduplicatedCandidate). missing (disposition_of ev group.canonical_block.id))
        groups
      ≡ 0
    → (gs : List TraceGroup) × (trace_groups ev groups ≡ returned gs) × AreShown ev groups gs
unfolding trace_groups trace_group
trace_groups-AreShown ev [] h = (
  [],
  refl,
  record { named = refl; sized = refl; listed = refl; placed = tt; disposed = λ f. refl },
)
trace_groups-AreShown ev (group ∷ groups) h =
    let t = group.canonical_block.id in
    elim (Option-cases (disposition_of ev t)) [
      | inl gone ↦ absurd (omega (arith, h, ap missing gone))
      | inr (w, found) ↦
          let (g, traced, shown) =
            trace_known-IsShown group ev (get t ev.filtering) (get t ev.score) w found in
          let (gs, others, rest) = trace_groups-AreShown ev groups (omega (arith, h)) in
          (
            g ∷ gs,
            ap (λ m. after m (λ g. after (trace_groups ev groups) (λ gs. returned (g ∷ gs)))) traced
                ∙ ap (λ m. after m (λ gs. returned (g ∷ gs))) others,
            record {
              named = rw (shown.named, rest.named);
              sized = rw (shown.sized, rest.sized);
              listed = rw (shown.listed, rest.listed);
              placed = (rw (shown.named, shown.disposed) shown.placed, rest.placed);
              disposed = λ f. omega (
                arith,
                rest.disposed f,
                ap (λ u. f u (some g.current_disposition)) shown.named,
                ap (λ u. f t (some u)) shown.disposed,
                ap (f t) found,
              );
            },
          )
    ]
