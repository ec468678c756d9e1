-- ===== src/Assembly/Complete.antt =====
-- `build` of packages/compiler/src/compilation-trace.ts after the stages of
-- packages/compiler/src/context-compiler.ts: no group of the batch misses its evidence.
use ctxalloc.Shared.{
  ℕ, ◌≡◌, refl, sym, ap, subst, ◌∙◌, ◌+◌, Option, none, some, List, [], map, ◌++◌, arith, SameItems,
  weigh, weigh-map, weigh-append, weigh-zero, Text, text_key, IsKeyed,
}
use ctxalloc.Shared.Outcome.{returned}
use ctxalloc.Domain.TokenBudget.{TokenBudget}
use ctxalloc.Candidates.{DeduplicatedCandidate, ScoredCandidate, ScoredCandidateSet, id_of}
use ctxalloc.Filter.Decide.{Decision, FilteredCandidateSet, filtered_set}
use ctxalloc.Filter.Decisions.{filter-Filtered}
use ctxalloc.Filter.Guarantees.{dropped, filter-partitions}
use ctxalloc.Allocation.Guarantees.{excluded_candidates, allocate-decides_once}
use ctxalloc.Renderer.Tokenizer.{Tokenizer}
use ctxalloc.Renderer.Measures.{render-measures}
use ctxalloc.Orderer.Order.{OrderedCandidateSet, order}
use ctxalloc.Correction.Settle.{CompilationRun}
use ctxalloc.Correction.Keys.{by_ids, IsUnique}
use ctxalloc.Correction.Eligible.{by_ids-IsUnique}
use ctxalloc.Correction.Initial.{included_of}
use ctxalloc.Compilation.Compile.{CompilationPolicy}
use ctxalloc.Compilation.Runs.{Staged, renderer, orderer}
use ctxalloc.Assembly.Trace.{
  Disposition, filtered_group, included_group, excluded_group, TraceGroup, allocation_entries,
  enter_entries, trace_groups, evidence_of,
}
use ctxalloc.Assembly.Dispositions.{disposition_of, missing, AreShown, trace_groups-AreShown}
use ctxalloc.Assembly.Evidence.{IsEvidence, dispositions-weigh}

-- A candidate with what the trace shows of it.
abbrev pub shown_as : Disposition → ScoredCandidate → Text × Disposition
shown_as w c = (id_of c, w)

abbrev pub group_shown : TraceGroup → Text × Disposition
group_shown g = (g.block_id, g.current_disposition)

-- The weight of a text with its disposition, where there is one.
abbrev seen : (Text × Disposition → ℕ) → Text → Option Disposition → ℕ
seen f t none = 0
seen f t (some w) = f (t, w)

module _ (policy : CompilationPolicy) (tokenizer : Tokenizer) (max_selections : ℕ)
    (budget : TokenBudget) (scored : ScoredCandidateSet)
    (keyed : IsKeyed (by_ids scored.candidates)) (run : CompilationRun)
    (staged : Staged policy tokenizer max_selections budget scored run) where
  pub in_order :
      run.rendered.ordered
      ≡ order (orderer policy tokenizer max_selections budget scored) run.allocated
  in_order =
      (render-measures (renderer policy tokenizer max_selections budget scored)
        (order (orderer policy tokenizer max_selections budget scored) run.allocated) run.rendered
        staged.rendered).3

  partitioned : map (λ d. d.candidate) run.filtered.decisions ≡ scored.candidates
  partitioned = (filter-partitions policy.filtering scored staged.filtered).0

  abbrev shown : Text → Option Disposition
  shown = disposition_of (evidence_of run.filtered run.rendered)

  run-IsEvidence :
      IsEvidence run.filtered.decisions run.allocated (evidence_of run.filtered run.rendered)
  unfolding evidence_of filtered_set order
  run-IsEvidence =
      let made = (filter-Filtered policy.filtering scored staged.filtered).published in
      record {
        unique = subst IsUnique (sym partitioned) (by_ids-IsUnique scored.candidates keyed);
        decided = refl;
        scored =
            ap (λ (cs : List ScoredCandidate). enter_entries (map (λ c. (id_of c, c.score)) cs) [])
              (sym (ap (λ (r : FilteredCandidateSet). r.scored.candidates) made) ∙ sym partitioned);
        allotted =
            ap (λ (o : OrderedCandidateSet). enter_entries (allocation_entries o.allocation) [])
              in_order;
        allocated = λ f.
            allocate-decides_once staged.allocator run.filtered.eligible budget staged.allocated f
            ∙ ap (λ (r : FilteredCandidateSet). weigh f r.eligible.candidates) (sym made);
      }

  -- The dispositions of the batch, by any weight of theirs.
  batch-weigh :
      (groups : List DeduplicatedCandidate)
      → ((f : Text → ℕ)
          → weigh (λ (g : DeduplicatedCandidate). f g.canonical_block.id) groups
            ≡ weigh (λ c. f (id_of c)) scored.candidates)
      → (f : Text → Option Disposition → ℕ)
      → weigh (λ g. f g.canonical_block.id (shown g.canonical_block.id)) groups
        ≡ weigh (λ c. f (id_of c) (some filtered_group)) (dropped run.filtered.decisions)
          + (weigh (λ c. f (id_of c) (some included_group)) (included_of run)
              + weigh (λ c. f (id_of c) (some excluded_group)) (excluded_candidates run.allocated))
  batch-weigh groups same f =
      same (λ t. f t (shown t))
      ∙ ap (weigh (λ c. f (id_of c) (shown (id_of c)))) (sym partitioned)
      ∙ weigh-map (λ c. f (id_of c) (shown (id_of c))) (λ (d : Decision). d.candidate)
          run.filtered.decisions
      ∙ dispositions-weigh run.filtered.decisions run.allocated
          (evidence_of run.filtered run.rendered) run-IsEvidence f

  decided-weigh :
      (f : Text × Disposition → ℕ)
      → weigh f (
          map (shown_as filtered_group) (dropped run.filtered.decisions)
          ++ map (shown_as included_group) (included_of run)
          ++ map (shown_as excluded_group) (excluded_candidates run.allocated))
        ≡ weigh (λ c. f (id_of c, filtered_group)) (dropped run.filtered.decisions)
          + (weigh (λ c. f (id_of c, included_group)) (included_of run)
              + weigh (λ c. f (id_of c, excluded_group)) (excluded_candidates run.allocated))
  decided-weigh f = omega (
    arith,
    weigh-append f
        (map (shown_as filtered_group) (dropped run.filtered.decisions)
          ++ map (shown_as included_group) (included_of run))
        (map (shown_as excluded_group) (excluded_candidates run.allocated)),
    weigh-append f (map (shown_as filtered_group) (dropped run.filtered.decisions))
        (map (shown_as included_group) (included_of run)),
    weigh-map f (shown_as filtered_group) (dropped run.filtered.decisions),
    weigh-map f (shown_as included_group) (included_of run),
    weigh-map f (shown_as excluded_group) (excluded_candidates run.allocated),
  )

  -- The groups of the batch are traced, with what the maps hold of them.
  pub batch-AreShown :
      (groups : List DeduplicatedCandidate)
      → ((f : Text → ℕ)
          → weigh (λ (g : DeduplicatedCandidate). f g.canonical_block.id) groups
            ≡ weigh (λ c. f (id_of c)) scored.candidates)
      → (gs : List TraceGroup) × (trace_groups (evidence_of run.filtered run.rendered) groups
          ≡ returned gs)
        × AreShown (evidence_of run.filtered run.rendered) groups gs
  batch-AreShown groups same =
      trace_groups-AreShown (evidence_of run.filtered run.rendered) groups (
        omega (
          arith,
          batch-weigh groups same (λ t o. missing o),
          weigh-zero (dropped run.filtered.decisions),
          weigh-zero (included_of run),
          weigh-zero (excluded_candidates run.allocated),
        ))

  -- Groups that are shown have the dispositions of the batch.
  pub shown-weigh :
      (groups : List DeduplicatedCandidate) (gs : List TraceGroup)
      → ((f : Text → ℕ)
          → weigh (λ (g : DeduplicatedCandidate). f g.canonical_block.id) groups
            ≡ weigh (λ c. f (id_of c)) scored.candidates)
      → AreShown (evidence_of run.filtered run.rendered) groups gs
      → (f : Text × Disposition → ℕ)
      → weigh (λ g. f (group_shown g)) gs
        ≡ weigh (λ c. f (id_of c, filtered_group)) (dropped run.filtered.decisions)
          + (weigh (λ c. f (id_of c, included_group)) (included_of run)
              + weigh (λ c. f (id_of c, excluded_group)) (excluded_candidates run.allocated))
  shown-weigh groups gs same facts f = facts.disposed (seen f) ∙ batch-weigh groups same (seen f)

  -- For a scored batch with distinct block identifiers, a run that the stages made, and groups of
  -- the identifiers of that batch in any order: every group is traced, in that order, and the
  -- groups are shown as filtered, included or excluded as the filter and the allocation decided on
  -- their candidates, each candidate once.
  pub trace_groups_complete :
      (groups : List DeduplicatedCandidate)
      → ((f : Text → ℕ)
          → weigh (λ (g : DeduplicatedCandidate). f g.canonical_block.id) groups
            ≡ weigh (λ c. f (id_of c)) scored.candidates)
      → (gs : List TraceGroup) × (trace_groups (evidence_of run.filtered run.rendered) groups
          ≡ returned gs)
        × (map (λ g. g.block_id) gs ≡ map (λ g. g.canonical_block.id) groups)
        × SameItems (map group_shown gs) (
            map (shown_as filtered_group) (dropped run.filtered.decisions)
            ++ map (shown_as included_group) (included_of run)
            ++ map (shown_as excluded_group) (excluded_candidates run.allocated))
  trace_groups_complete groups same =
      let (gs, traced, facts) = batch-AreShown groups same in
      (
        gs,
        traced,
        facts.named,
        λ f.
            weigh-map f group_shown gs ∙ shown-weigh groups gs same facts f ∙ sym (decided-weigh f),
      )
