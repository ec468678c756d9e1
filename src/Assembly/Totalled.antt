-- ===== src/Assembly/Totalled.antt =====
-- What `build` of packages/compiler/src/compilation-trace.ts makes of its totals after the stages.
use ctxalloc.Shared.{
  ℕ, ◌≤◌, ◌≡◌, ◌↔◌, refl, sym, ap, subst, ◌∙◌, Option, none, some, List, [], ◌∷◌, map, arith,
  length, length-map, All, weigh, weigh-map, weigh-one-length, weigh_cong, Text, text_key, IsKeyed,
}
use ctxalloc.Shared.Outcome.{Outcome, returned, after}
use ctxalloc.Domain.ContextBlock.{ContextBlock}
use ctxalloc.Domain.TokenBudget.{TokenBudget}
use ctxalloc.Candidates.{DeduplicatedCandidate, ScoredCandidateSet, id_of}
use ctxalloc.Filter.Decisions.{returned-injective}
use ctxalloc.Renderer.Tokenizer.{Tokenizer, max_safe_integer}
use ctxalloc.Correction.Settle.{CompilationRun}
use ctxalloc.Correction.Keys.{by_ids}
use ctxalloc.Compilation.Compile.{CompilationPolicy}
use ctxalloc.Compilation.Runs.{Staged}
use ctxalloc.Assembly.Trace.{trace_member, TraceGroup, trace_groups, evidence_of, GroupEvidence}
use ctxalloc.Assembly.Dispositions.{AreShown}
use ctxalloc.Assembly.Complete.{batch-AreShown}
use ctxalloc.Assembly.Totals.{
  Totals, TotalsIssue, Sums, sums_unsafe, sums_of, check_render_positions, or_thrown,
  calculate_totals,
}
use ctxalloc.Assembly.Sums.{
  AreAccounted, wrappers, wrapper_tokens, exact_totals, sums_of-exact, sums_of-safe,
  derived_totals-exact,
}
use ctxalloc.Assembly.Reconciled.{check_totals-none}
use ctxalloc.Assembly.Shown.{check_render_positions-none}

-- The block of each group is that of one of its candidates.
abbrev pub AreRepresented : List DeduplicatedCandidate → Type 0
AreRepresented groups =
    All
      (λ group.
        (f : ContextBlock → ℕ)
        → f group.canonical_block ≤ weigh (λ m. f m.candidate.block) group.members)
      groups

represented-weigh :
    (f : ContextBlock → ℕ) (groups : List DeduplicatedCandidate)
    → AreRepresented groups
    → weigh (λ (group : DeduplicatedCandidate). f group.canonical_block) groups
      ≤ weigh
          (λ (group : DeduplicatedCandidate). weigh (λ m. f m.candidate.block) group.members)
          groups
represented-weigh f [] h = omega arith
represented-weigh f (group ∷ groups) h = omega (arith, h.0 f, represented-weigh f groups h.1)

shown-AreAccounted :
    (ev : GroupEvidence) (groups : List DeduplicatedCandidate) (gs : List TraceGroup)
    → AreRepresented groups
    → AreShown ev groups gs
    → AreAccounted groups gs
shown-AreAccounted ev groups gs h facts = record {
  counted =
      sym (weigh-map length (λ (g : TraceGroup). g.members) gs)
      ∙ ap (weigh length) facts.listed
      ∙ weigh-map length (λ (group : DeduplicatedCandidate). map trace_member group.members) groups
      ∙ weigh_cong _ _ groups (λ group. length-map trace_member group.members);
  some_in_each = omega (
    arith,
    represented-weigh (λ _. 1) groups h,
    weigh_cong (λ (group : DeduplicatedCandidate). weigh (λ _. 1) group.members)
        (λ group. length group.members) groups (λ group. weigh-one-length group.members),
    weigh-one-length groups,
    length-map (λ (group : DeduplicatedCandidate). group.canonical_block.id) groups,
    length-map (λ (g : TraceGroup). g.block_id) gs,
    ap length facts.named,
  );
  own_among = omega (
    arith,
    represented-weigh (λ block. block.token_count) groups h,
    ap (weigh (λ v. v)) facts.sized,
    weigh-map (λ v. v) (λ (g : TraceGroup). g.token_count) gs,
    weigh-map (λ v. v) (λ (group : DeduplicatedCandidate). group.canonical_block.token_count)
        groups,
  );
}

made_of_some :
    {t : Totals} (o : Option Sums) (f : Sums → Outcome TotalsIssue Totals)
    → after (or_thrown sums_unsafe o) f ≡ returned t
    → (s : Sums) × (o ≡ some s)
made_of_some none f h = absurd (cc)
made_of_some (some s) f h = (s, refl)

module _ (groups : List DeduplicatedCandidate) (gs : List TraceGroup)
    (facts : AreAccounted groups gs) (covered : check_render_positions gs ≡ []) where
  calculate_totals-exact :
      wrappers groups ≤ max_safe_integer
      → wrapper_tokens groups ≤ max_safe_integer
      → calculate_totals gs groups ≡ returned (exact_totals groups gs facts)
  unfolding calculate_totals
  calculate_totals-exact h k =
      rw
        (
          calculate_totals,
          sums_of-exact groups gs facts h k,
          derived_totals-exact groups gs facts h k,
          check_totals-none groups gs facts h k,
          covered,
        )
        refl

  calculate_totals-safe :
      (t : Totals)
      → calculate_totals gs groups ≡ returned t
      → (wrappers groups ≤ max_safe_integer) × (wrapper_tokens groups ≤ max_safe_integer)
  unfolding calculate_totals
  calculate_totals-safe t h =
      let (s, e) = made_of_some (sums_of gs groups) _ h in sums_of-safe groups gs facts s e

module _ (policy : CompilationPolicy) (tokenizer : Tokenizer) (max_selections : ℕ)
    (budget : TokenBudget) (scored : ScoredCandidateSet)
    (keyed : IsKeyed (by_ids scored.candidates)) (run : CompilationRun)
    (staged : Staged policy tokenizer max_selections budget scored run) where
  -- For a scored batch with distinct block identifiers, a run that the stages made, groups of the
  -- identifiers of that batch in any order, each with its own block among its candidates, and the
  -- trace of these groups: totals are returned exactly when the number of the candidates and the
  -- sum of their token counts are safe integers. No derived total, none of the six equations and
  -- no render position is ever at fault.
  pub calculate_totals_iff :
      (groups : List DeduplicatedCandidate) (gs : List TraceGroup)
      → ((f : Text → ℕ)
          → weigh (λ (g : DeduplicatedCandidate). f g.canonical_block.id) groups
            ≡ weigh (λ c. f (id_of c)) scored.candidates)
      → AreRepresented groups
      → trace_groups (evidence_of run.filtered run.rendered) groups ≡ returned gs
      → ((t : Totals) × (calculate_totals gs groups ≡ returned t))
        ↔ ((wrappers groups ≤ max_safe_integer) × (wrapper_tokens groups ≤ max_safe_integer))
  calculate_totals_iff groups gs same represented traced =
      let ev = evidence_of run.filtered run.rendered in
      let (made, done, shown) =
        batch-AreShown policy tokenizer max_selections budget scored keyed run staged groups same in
      let shown = subst (AreShown ev groups) (returned-injective (sym done ∙ traced)) shown in
      let facts = shown-AreAccounted ev groups gs represented shown in
      let covered =
        check_render_positions-none policy tokenizer max_selections budget scored keyed run staged
          groups same gs shown in
      (
        λ (t, h). calculate_totals-safe groups gs facts covered t h,
        λ (h, k).
            (exact_totals groups gs facts, calculate_totals-exact groups gs facts covered h k),
      )
