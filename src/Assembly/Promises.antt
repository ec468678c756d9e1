-- ===== src/Assembly/Promises.antt =====
-- What a caller of `#assemble` in packages/compiler/src/context-compiler.ts may rely on, after
-- `compile` has settled on a selection.
use ctxalloc.Shared.{
  ℕ, ◌≤◌, ◌≡◌, ◌↔◌, refl, sym, ap, subst, ◌∙◌, inl, inr, true, some, Option-cases, List, [], ◌∷◌,
  map, arith, SameItems, select, weigh, weigh-map, count, Text, text_eq, text_key, IsKeyed,
}
use ctxalloc.Shared.Outcome.{returned, Ends}
use ctxalloc.Domain.TokenBudget.{TokenBudget, available_input_tokens}
use ctxalloc.Candidates.{DeduplicatedCandidate, ScoredCandidate, ScoredCandidateSet, id_of}
use ctxalloc.Filter.Decide.{Decision, is_eligible, FilteredCandidateSet, filtered_set}
use ctxalloc.Filter.Decisions.{filter-Filtered}
use ctxalloc.Filter.Guarantees.{filter-partitions}
use ctxalloc.Renderer.Tokenizer.{Tokenizer}
use ctxalloc.Correction.Fallback.{Settlement}
use ctxalloc.Correction.Keys.{by_ids, IsUnique}
use ctxalloc.Correction.Eligible.{by_ids-IsUnique}
use ctxalloc.Correction.Bounded.{KeepsBounds}
use ctxalloc.Allocation.Policy.{constraints_of}
use ctxalloc.Correction.Visits.{HoldsContent}
use ctxalloc.Assembly.Checks.{verify_result-none, places}
use ctxalloc.Correction.Initial.{eligible_of}
use ctxalloc.Compilation.Compile.{CompilationPolicy, Compilation, compile}
use ctxalloc.Compilation.Inputs.{filter-IsKeyed}
use ctxalloc.Compilation.Runs.{Compiled, Failed, compile-Ends}
use ctxalloc.Compilation.Promises.{ceiling, compile-fits}
use ctxalloc.Assembly.Numbers.{is_safe_count}
use ctxalloc.Assembly.Trace.{trace_groups, evidence_of}
use ctxalloc.Assembly.Decisions.{decided_id, render_positions, final_decisions}
use ctxalloc.Assembly.Result.{CompilationResult, ResultRun, ResultIssue}
use ctxalloc.Assembly.Verify.{ids_of, verify_result}
use ctxalloc.Assembly.Assemble.{unless_found, included_content, usage_of, assembled, assemble}
use ctxalloc.Assembly.Sets.{flat-parts}
use ctxalloc.Assembly.Arithmetic.{check_usage-sums}
use ctxalloc.Assembly.Places.{placements, indexed}
use ctxalloc.Assembly.Groups.{Traces, decided-ids}
use ctxalloc.Assembly.Traced.{trace_groups-Traces}

-- Nothing was found where a result is returned.
nothing_found :
    (is : List ResultIssue) (made : CompilationResult) {result : CompilationResult}
    → unless_found is made ≡ returned result
    → is ≡ []
nothing_found [] made h = refl
nothing_found (i ∷ is) made h = absurd (cc)

sums_safe :
    (hash_rendered_context : Text → Text) (run : ResultRun) (s : Settlement)
    → verify_result hash_rendered_context run (assembled hash_rendered_context run s) ≡ []
    → (is_safe_count run.candidate_tokens ≡ true)
      × (is_safe_count (included_content hash_rendered_context run s) ≡ true)
unfolding verify_result assembled usage_of
sums_safe hash run s h =
    check_usage-sums (usage_of hash run s) s.measurement.blocks (flat-parts _ h).0

module _ (policy : CompilationPolicy) (tokenizer : Tokenizer) (max_selections : ℕ)
    (budget : TokenBudget) (scored : ScoredCandidateSet)
    (keyed : IsKeyed (by_ids scored.candidates)) (run : ResultRun) (s : Settlement)
    (compiled : compile policy tokenizer max_selections budget scored
      ≡ returned (record { run = run.stages; settlement = s }))
    (groups : List DeduplicatedCandidate)
    (same : (f : Text → ℕ)
      → weigh (λ (g : DeduplicatedCandidate). f g.canonical_block.id) groups
        ≡ weigh (λ c. f (id_of c)) scored.candidates)
    (traced : trace_groups (evidence_of run.stages.filtered run.stages.rendered) groups
      ≡ returned run.snapshot.groups) where
  abbrev settled_run : Compilation
  settled_run = record { run = run.stages; settlement = s }

  stages : Compiled policy tokenizer max_selections budget scored settled_run
  stages =
      subst
        (Ends (Compiled policy tokenizer max_selections budget scored)
          (Failed policy tokenizer max_selections budget scored))
        compiled (compile-Ends policy tokenizer max_selections budget scored)

  eligible_keyed : IsKeyed (by_ids (eligible_of run.stages))
  eligible_keyed = filter-IsKeyed policy.filtering scored stages.staged.filtered keyed

  abbrev decided : List Decision
  decided = run.stages.filtered.decisions

  partitioned : map (λ d. d.candidate) decided ≡ scored.candidates
  partitioned = (filter-partitions policy.filtering scored stages.staged.filtered).0

  eligible_same :
      eligible_of run.stages
      ≡ map (λ d. d.candidate) (select (λ (d : Decision). is_eligible d.verdict) decided)
  unfolding filtered_set
  eligible_same =
      ap (λ (r : FilteredCandidateSet). r.eligible.candidates)
        (sym (filter-Filtered policy.filtering scored stages.staged.filtered).published)

  traces : Traces run.snapshot.groups decided
  unfolding evidence_of
  traces =
      trace_groups-Traces (evidence_of run.stages.filtered run.stages.rendered) groups decided refl
        (subst (λ cs. (t : Text) → count (λ c. text_eq (id_of c) t) cs ≤ 1) (sym partitioned)
          (by_ids-IsUnique scored.candidates keyed))
        (λ f.
          same f
          ∙ ap (weigh (λ c. f (id_of c))) (sym partitioned)
          ∙ weigh-map (λ c. f (id_of c)) (λ (d : Decision). d.candidate) decided)
        traced

  decided-IsUnique : IsUnique (map (λ d. d.candidate) decided)
  decided-IsUnique = subst IsUnique (sym partitioned) (by_ids-IsUnique scored.candidates keyed)

  -- The run's ceiling and policy in what `compile` promises.
  for_run : (P : ℕ → Type 0) → P (available_input_tokens budget) → P run.stages.available_tokens
  for_run P =
      subst P
        (sym (ceiling policy tokenizer max_selections budget scored keyed run.stages stages.staged))

  for_policy :
      (cs : List ScoredCandidate)
      → KeepsBounds (constraints_of policy.allocation) cs
      → KeepsBounds (constraints_of run.stages.allocation_policy) cs
  for_policy cs = subst (λ p. KeepsBounds (constraints_of p) cs) (sym stages.staged.governed)

  verified :
      (hash_rendered_context : Text → Text) (n : ℕ)
      → is_safe_count run.candidate_tokens ≡ true
      → included_content hash_rendered_context run s ≡ some n
      → verify_result hash_rendered_context run (assembled hash_rendered_context run s) ≡ []
  verified hash =
      let fits =
        compile-fits policy tokenizer max_selections budget scored keyed settled_run compiled in
      let (cs, (selection, measured, bounds, content, required)) = fits.0 in
      verify_result-none hash run s tokenizer cs eligible_keyed selection measured
        (for_policy cs bounds) (for_run (λ n. HoldsContent n cs) content) required
        (for_run (λ n. s.measurement.rendered_tokens ≤ n) fits.1) decided-IsUnique eligible_same
        traces

  -- For a scored batch with distinct block identifiers that `compile` settled, and a trace whose
  -- groups were built of the identifiers of that batch in any order: a result is returned exactly
  -- when the token counts of the validated candidates and those of the settled blocks have safe
  -- sums. No other check of the result finds anything, whatever the digest of the rendered text
  -- is.
  pub assemble_iff :
      (hash_rendered_context : Text → Text)
      → ((result : CompilationResult) × (assemble hash_rendered_context run s ≡ returned result))
        ↔ ((is_safe_count run.candidate_tokens ≡ true)
            × (is_safe_count (included_content hash_rendered_context run s) ≡ true))
  unfolding assemble is_safe_count
  assemble_iff hash = (
    λ (result, made).
        sums_safe hash run s (
          nothing_found (verify_result hash run (assembled hash run s)) (assembled hash run s)
            made),
    λ (candidates, safe). elim (Option-cases (included_content hash run s)) [
      | inl unsafe ↦ absurd (ground (arith, unsafe, safe))
      | inr (n, sum) ↦ (
        assembled hash run s,
        ap (λ is. unless_found is (assembled hash run s)) (verified hash n candidates sum),
      )
    ],
  )

  -- For a scored batch with distinct block identifiers that `compile` settled, and a trace whose
  -- groups were built of the identifiers of that batch in any order: the final decisions are of
  -- the groups, one for each in their order, and the included ones among them are the published
  -- blocks, each once and with its place in the rendering order.
  pub final_decisions-placements :
      (map decided_id (final_decisions run.snapshot.groups s s.measurement.blocks)
        ≡ map (λ g. g.block_id) run.snapshot.groups)
      × SameItems
          (placements (final_decisions run.snapshot.groups s s.measurement.blocks))
          (indexed 0 (ids_of s.measurement.blocks))
  unfolding final_decisions
  final_decisions-placements =
      let fits =
        compile-fits policy tokenizer max_selections budget scored keyed settled_run compiled in
      let (cs, (selection, measured, bounds, content, required)) = fits.0 in
      (
        decided-ids s (render_positions s.measurement.blocks) run.snapshot.groups,
        places (λ t. t) run s tokenizer cs eligible_keyed selection measured (for_policy cs bounds)
            (for_run (λ n. HoldsContent n cs) content) required
            (for_run (λ n. s.measurement.rendered_tokens ≤ n) fits.1) decided-IsUnique eligible_same
            traces,
      )
