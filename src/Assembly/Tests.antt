-- ===== src/Assembly/Tests.antt =====
-- The theorems about the result of packages/compiler/src/context-compiler.ts at a compilation of three
-- candidates.
use ctxalloc.Shared.{
  ℕ, ◌≤◌, none, [], ◌∷◌, ◌∙◌, arith, weigh, ◌≡◌, ◌↔◌, refl, subst, true, some, List, map, ◌++◌,
  SameItems, weigh-map, Text, units,
}
use ctxalloc.Shared.Outcome.{returned, Ends}
use ctxalloc.Candidates.{same_block_id, DeduplicatedCandidate, id_of}
use ctxalloc.Renderer.Tokenizer.{max_safe_integer}
use ctxalloc.Assembly.Totals.{Totals, calculate_totals}
use ctxalloc.Assembly.Sums.{wrappers, wrapper_tokens}
use ctxalloc.Assembly.Totalled.{AreRepresented, calculate_totals_iff}
use ctxalloc.Correction.Fixture.{tokenizer}
use ctxalloc.Compilation.Fixture.{policy, scored, reserving, keyed, settles}
use ctxalloc.Compilation.Fixture as Compiled
use ctxalloc.Compilation.Runs.{Staged, Compiled, Failed, compile-Ends}
use ctxalloc.Filter.Guarantees.{dropped}
use ctxalloc.Allocation.Guarantees.{excluded_candidates}
use ctxalloc.Correction.Initial.{included_of}
use ctxalloc.Assembly.Numbers.{is_safe_count}
use ctxalloc.Assembly.Trace.{
  rendering_attempt_only, filtered_group, included_group, excluded_group, TraceGroup, enter_entries,
  positions_from, trace_allocated, trace_known, trace_group, trace_groups, evidence_of,
}
use ctxalloc.Assembly.Decisions.{decided_id, final_decisions}
use ctxalloc.Assembly.Result.{CompilationResult, ResultRun}
use ctxalloc.Assembly.Verify.{ids_of}
use ctxalloc.Assembly.Assemble.{included_content, assemble}
use ctxalloc.Assembly.Places.{placements, indexed}
use ctxalloc.Assembly.Complete.{shown_as, group_shown, trace_groups_complete}
use ctxalloc.Assembly.Promises.{assemble_iff, final_decisions-placements}

-- The groups are those of the batch.
abbrev groups : List DeduplicatedCandidate
groups = map (λ c. c.candidate) scored.candidates

traced :
    (gs : List TraceGroup) × (trace_groups
        (evidence_of settles.0.run.filtered settles.0.run.rendered)
        groups
      ≡ returned gs)
unfolding settles Compiled.code enter_entries positions_from trace_allocated trace_known trace_group
    trace_groups evidence_of
traced = (_, refl)

abbrev run : ResultRun
run = record {
  compilation_id = units "compilation";
  request_id = units "request";
  candidate_tokens = some 6;
  stages = settles.0.run;
  snapshot = record { tokenizer_coverage = rendering_attempt_only; groups = traced.0 };
}

abbrev hash : Text → Text
hash t = t

assemble_iff_example :
    ((result : CompilationResult) × (assemble hash run settles.0.settlement ≡ returned result)) ↔ (
      (is_safe_count run.candidate_tokens ≡ true)
      × (is_safe_count (included_content hash run settles.0.settlement) ≡ true))
assemble_iff_example =
    assemble_iff policy tokenizer 10 (reserving 5) scored keyed run settles.0.settlement settles.1
      groups (λ f. weigh-map (λ g. f g.canonical_block.id) (λ c. c.candidate) scored.candidates)
      traced.1 hash

final_decisions-placements_example :
    let blocks = settles.0.settlement.measurement.blocks in
    (map decided_id (final_decisions run.snapshot.groups settles.0.settlement blocks)
      ≡ map (λ g. g.block_id) run.snapshot.groups)
    × SameItems
        (placements (final_decisions run.snapshot.groups settles.0.settlement blocks))
        (indexed 0 (ids_of blocks))
final_decisions-placements_example =
    final_decisions-placements policy tokenizer 10 (reserving 5) scored keyed run
      settles.0.settlement settles.1 groups
      (λ f. weigh-map (λ g. f g.canonical_block.id) (λ c. c.candidate) scored.candidates) traced.1

staged : Staged policy tokenizer 10 (reserving 5) scored settles.0.run
staged =
    (subst
      (Ends (Compiled policy tokenizer 10 (reserving 5) scored)
        (Failed policy tokenizer 10 (reserving 5) scored))
      settles.1 (compile-Ends policy tokenizer 10 (reserving 5) scored)).staged

trace_groups_complete_example :
    let stages = settles.0.run in
    (gs : List TraceGroup) × (trace_groups (evidence_of stages.filtered stages.rendered) groups
      ≡ returned gs)
    × (map (λ g. g.block_id) gs ≡ map (λ g. g.canonical_block.id) groups)
    × SameItems (map group_shown gs) (
        map (shown_as filtered_group) (dropped stages.filtered.decisions)
        ++ map (shown_as included_group) (included_of stages)
        ++ map (shown_as excluded_group) (excluded_candidates stages.allocated))
trace_groups_complete_example =
    trace_groups_complete policy tokenizer 10 (reserving 5) scored keyed settles.0.run staged groups
      (λ f. weigh-map (λ g. f g.canonical_block.id) (λ c. c.candidate) scored.candidates)

-- Each group has its own block as its one candidate.
abbrev with_member : DeduplicatedCandidate → DeduplicatedCandidate
with_member group = record group {
  members =
      record {
        candidate = record { block = group.canonical_block; retrieval = none };
        match_reason = same_block_id;
      }
      ∷ [];
}

abbrev full_groups : List DeduplicatedCandidate
full_groups = map with_member groups

full_same :
    (f : Text → ℕ)
    → weigh (λ (g : DeduplicatedCandidate). f g.canonical_block.id) full_groups
      ≡ weigh (λ c. f (id_of c)) scored.candidates
full_same f =
    weigh-map (λ (g : DeduplicatedCandidate). f g.canonical_block.id) with_member groups
    ∙ weigh-map (λ g. f g.canonical_block.id) (λ c. c.candidate) scored.candidates

full_traced :
    (gs : List TraceGroup) × (trace_groups
        (evidence_of settles.0.run.filtered settles.0.run.rendered)
        full_groups
      ≡ returned gs)
full_traced =
    let (gs, made, named, kept) =
      trace_groups_complete policy tokenizer 10 (reserving 5) scored keyed settles.0.run staged
        full_groups full_same in
    (gs, made)

represented : AreRepresented full_groups
represented = (λ f. omega arith, (λ f. omega arith, (λ f. omega arith, tt)))

calculate_totals_iff_example :
    ((t : Totals) × (calculate_totals full_traced.0 full_groups ≡ returned t))
    ↔ ((wrappers full_groups ≤ max_safe_integer) × (wrapper_tokens full_groups ≤ max_safe_integer))
calculate_totals_iff_example =
    calculate_totals_iff policy tokenizer 10 (reserving 5) scored keyed settles.0.run staged
      full_groups full_traced.0 full_same represented full_traced.1
