-- ===== src/Assembly/Checks.antt =====
-- The result that `#assemble` of packages/compiler/src/context-compiler.ts makes of a settled
-- selection passes `verifyResult` where its sums are safe.
use ctxalloc.Shared.{
  ℕ, ◌≤◌, ◌≡◌, refl, sym, ap, subst, ◌∙◌, Bool, true, ◌&&◌, Option, some, List, [], map, arith,
  SameItems, select, All, All-map, weigh, count, Text, text_eq, text_eq_refl, text_key, IsKeyed,
  same_refl, identity_key,
}
use ctxalloc.Shared.Json.{array, strings}
use ctxalloc.Canonical.{canonical_json}
use ctxalloc.Candidates.{ScoredCandidate, id_of}
use ctxalloc.Filter.Decide.{Decision, is_eligible}
use ctxalloc.Renderer.Tokenizer.{Tokenizer}
use ctxalloc.Renderer.Records.{render_ordered_candidates}
use ctxalloc.Correction.Measure.{sum_tokens}
use ctxalloc.Correction.Fallback.{Settlement}
use ctxalloc.Correction.Keys.{by_ids, IsUnique}
use ctxalloc.Correction.Eligible.{required_among}
use ctxalloc.Correction.Bounded.{KeepsBounds}
use ctxalloc.Allocation.Policy.{constraints_of}
use ctxalloc.Domain.ContextBlock.{ContextBlock}
use ctxalloc.Correction.Visits.{IsSelection, Measures, HoldsContent, text_of}
use ctxalloc.Correction.Content.{sum-within}
use ctxalloc.Correction.Initial.{eligible_of}
use ctxalloc.Assembly.Numbers.{strictly_equal, difference, minus, is_safe_count}
use ctxalloc.Assembly.Decisions.{render_positions, final_decisions}
use ctxalloc.Assembly.Result.{
  CompilationResult, ResultRun, context_differs, not_settled, other_compilation_id, wrong_coverage,
  order_differs, trace_tokens_differ, trace_hash_differs, trace_usage_differs,
}
use ctxalloc.Assembly.Verify.{
  ids_of, check_usage, check_selection, check_decisions, check_trace, verify_result,
}
use ctxalloc.Assembly.Assemble.{
  included_content, usage_of, trace_settlement, settle_compilation_trace, assembled,
}
use ctxalloc.Assembly.Sets.{met, flat-none}
use ctxalloc.Assembly.Arithmetic.{same_integer_refl, check_usage-none}
use ctxalloc.Assembly.Selection.{published, published_unique, published-known, check_selection-none}
use ctxalloc.Assembly.Places.{placements, indexed}
use ctxalloc.Assembly.Groups.{Traces, known-count}
use ctxalloc.Assembly.Decided.{placements-indexed, check_decisions-none}

all_four : (a b c d : Bool) → a ≡ true → b ≡ true → c ≡ true → d ≡ true → (a && b && c && d) ≡ true
all_four a b c d h k l m = ground (arith, h, k, l, m)

module _ (hash_rendered_context : Text → Text) (run : ResultRun) (s : Settlement)
    (tokenizer : Tokenizer) (cs : List ScoredCandidate)
    (keyed : IsKeyed (by_ids (eligible_of run.stages)))
    (selection : IsSelection (by_ids (eligible_of run.stages)) cs)
    (measured : Measures tokenizer cs s.measurement)
    (bounds : KeepsBounds (constraints_of run.stages.allocation_policy) cs)
    (content : HoldsContent run.stages.available_tokens cs)
    (required : (f : ScoredCandidate → ℕ)
      → weigh f (required_among (eligible_of run.stages)) ≤ weigh f cs)
    (within : s.measurement.rendered_tokens ≤ run.stages.available_tokens)
    (unique : IsUnique (map (λ d. d.candidate) run.stages.filtered.decisions))
    (eligible_same : eligible_of run.stages
      ≡ map
          (λ d. d.candidate)
          (select (λ (d : Decision). is_eligible d.verdict) run.stages.filtered.decisions))
    (traces : Traces run.snapshot.groups run.stages.filtered.decisions) where
  abbrev ids : List Text
  ids = ids_of s.measurement.blocks

  abbrev result : CompilationResult
  result = assembled hash_rendered_context run s

  -- What holds of the published identifiers.
  of_published :
      (P : List Text → Type 0) → P (published run.stages cs keyed selection bounds required) → P ids
  of_published P = subst (λ bs. P (ids_of bs)) (sym measured.0)

  ids_unique : (t : Text) → count (λ u. text_eq u t) ids ≤ 1
  ids_unique =
      of_published (λ ts. (t : Text) → count (λ u. text_eq u t) ts ≤ 1)
        (published_unique run.stages cs keyed selection bounds required)

  abbrev AreEligible : List Text → Type 0
  AreEligible = All (λ t.
      1
      ≤ count (λ c. text_eq (id_of c) t)
          (map (λ d. d.candidate)
            (select (λ (d : Decision). is_eligible d.verdict) run.stages.filtered.decisions)))

  ids_eligible : AreEligible ids
  ids_eligible = of_published AreEligible (
      All-map (published run.stages cs keyed selection bounds required)
        (λ t e.
          subst (λ es. 1 ≤ count (λ c. text_eq (id_of c) t) es) eligible_same
            (known-count (eligible_of run.stages) t e))
        (published-known run.stages cs keyed selection bounds required))

  selection-none : check_selection run.stages ids ≡ []
  selection-none =
      of_published (λ ts. check_selection run.stages ts ≡ [])
        (check_selection-none run.stages cs keyed selection bounds required)

  pub places :
      SameItems
        (placements (final_decisions run.snapshot.groups s s.measurement.blocks))
        (indexed 0 ids)
  unfolding final_decisions render_positions
  places =
      placements-indexed run.snapshot.groups run.stages.filtered.decisions ids s traces unique
        ids_unique ids_eligible

  decisions-none :
      check_decisions run.snapshot.groups
        (final_decisions run.snapshot.groups s s.measurement.blocks)
        ids
      ≡ []
  unfolding final_decisions render_positions
  decisions-none =
      check_decisions-none run.snapshot.groups run.stages.filtered.decisions ids s traces unique
        ids_unique ids_eligible

  abbrev sum : Option ℕ
  sum = included_content hash_rendered_context run s

  usage-none :
      (n : ℕ)
      → is_safe_count run.candidate_tokens ≡ true
      → sum ≡ some n
      → check_usage result.usage s.measurement.blocks ≡ []
  unfolding assembled usage_of
  usage-none n candidates safe =
      check_usage-none (usage_of hash_rendered_context run s) s.measurement.blocks refl refl refl
        measured.2.1 within n candidates safe
        (sum-within run.stages.available_tokens n cs content (
          ap (λ (bs : List ContextBlock). sum_tokens (map (λ b. b.token_count) bs)) (sym measured.0)
          ∙ safe))

  rendered-same :
      text_eq (render_ordered_candidates s.measurement.blocks) s.measurement.rendered_context ≡ true
  rendered-same = rw (measured.0, measured.1) (text_eq_refl (text_of cs))

  trace-none : (n : ℕ) → sum ≡ some n → check_trace hash_rendered_context result ≡ []
  unfolding check_trace assembled trace_settlement settle_compilation_trace usage_of strictly_equal
      minus
  trace-none n safe = flat-none _ (
    met _ context_differs rendered-same,
    (
      met _ not_settled refl,
      (
        met _ other_compilation_id (text_eq_refl run.compilation_id),
        (
          met _ wrong_coverage refl,
          (
            met _ order_differs (text_eq_refl (canonical_json (array (strings ids)))),
            (
              met _ trace_tokens_differ (same_refl s.measurement.rendered_tokens),
              (
                met _ trace_hash_differs
                    (text_eq_refl (hash_rendered_context s.measurement.rendered_context)),
                (
                  met _ trace_usage_differs (
                      rw safe (
                        all_four _ _ _ _ (same_refl run.stages.available_tokens) (same_refl n)
                          (same_integer_refl
                            (difference run.stages.available_tokens s.measurement.rendered_tokens))
                          (same_integer_refl (difference s.measurement.rendered_tokens n)))),
                  tt,
                ),
              ),
            ),
          ),
        ),
      ),
    ),
  )

  pub verify_result-none :
      (n : ℕ)
      → is_safe_count run.candidate_tokens ≡ true
      → sum ≡ some n
      → verify_result hash_rendered_context run result ≡ []
  unfolding verify_result assembled trace_settlement settle_compilation_trace
  verify_result-none n candidates safe =
      flat-none _
        (usage-none n candidates safe, (selection-none, (trace-none n safe, (decisions-none, tt))))
