-- ===== src/Assembly/Reconciled.antt =====
-- The totals that `calculateTotals` of packages/compiler/src/compilation-trace.ts takes reconcile.
use ctxalloc.Shared.{
  ℕ, ◌+◌, ◌≤◌, ◌≡◌, refl, ap, ◌∙◌, List, [], ◌++◌, map, arith, ==_iff, length, sort, sort-All, All,
  All-map, All-under, weigh-one-length, Text, compare_code_units,
}
use ctxalloc.Candidates.{DeduplicatedCandidate}
use ctxalloc.Renderer.Tokenizer.{max_safe_integer}
use ctxalloc.Correction.Fallback.{flat}
use ctxalloc.Assembly.Trace.{filtered_group, included_group, excluded_group, TraceGroup}
use ctxalloc.Assembly.Totals.{
  Totals, by_disposition, entries_of, check_entry, check_equation, equations_of, check_totals,
}
use ctxalloc.Assembly.Sets.{flat-none}
use ctxalloc.Assembly.Sums.{
  AreAccounted, wrappers, wrapper_tokens, exact_totals, by_disposition-weigh,
}

check_entry-none : (e : Text × ℕ) → e.1 ≤ max_safe_integer → check_entry e ≡ []
check_entry-none e h = ground (arith, h)

check_equation-none : (equation : Text) (a b : ℕ) → a ≡ b → check_equation equation a b ≡ []
check_equation-none equation a b h = ground (arith, h, ==_iff a b)

-- Totals that are safe and satisfy the six equations.
record AreReconciled (t : Totals) : Type 0 where
  pub safe : All (λ (e : Text × ℕ). e.1 ≤ max_safe_integer) (entries_of t)
  pub wrapped : t.candidate_count ≡ t.deduplicated_group_count + t.duplicate_wrapper_count
  pub eligible : t.eligible_group_count ≡ t.included_group_count + t.allocation_excluded_group_count
  pub grouped : t.deduplicated_group_count ≡ t.filtered_group_count + t.eligible_group_count
  pub duplicated : t.candidate_tokens ≡ t.canonical_content_tokens + t.duplicate_candidate_tokens
  pub dropped :
      t.excluded_canonical_content_tokens
      ≡ t.filtered_content_tokens + t.allocation_excluded_content_tokens
  pub shared :
      t.canonical_content_tokens ≡ t.included_content_tokens + t.excluded_canonical_content_tokens

check_totals-reconciled : (t : Totals) → AreReconciled t → check_totals t ≡ []
unfolding check_totals
check_totals-reconciled t h =
    let entries = entries_of t in
    ap (λ is. is ++ flat (equations_of t))
      (flat-none (map check_entry (sort (λ a b. compare_code_units a.0 b.0) entries)) (
        All-under _ check_entry (sort (λ a b. compare_code_units a.0 b.0) entries) (
          All-map _ check_entry-none
            (sort-All (λ a b. compare_code_units a.0 b.0) _ entries h.safe))))
    ∙ flat-none (equations_of t) (
      check_equation-none _ _ _ h.wrapped,
      (
        check_equation-none _ _ _ h.eligible,
        (
          check_equation-none _ _ _ h.grouped,
          (
            check_equation-none _ _ _ h.duplicated,
            (check_equation-none _ _ _ h.dropped, (check_equation-none _ _ _ h.shared, tt)),
          ),
        ),
      ),
    )

module _ (groups : List DeduplicatedCandidate) (gs : List TraceGroup)
    (facts : AreAccounted groups gs) (h : wrappers groups ≤ max_safe_integer)
    (k : wrapper_tokens groups ≤ max_safe_integer) where
  counts :
      length (by_disposition filtered_group gs)
        + (length (by_disposition included_group gs) + length (by_disposition excluded_group gs))
      ≡ length gs
  counts = omega (
    arith,
    by_disposition-weigh (λ _. 1) gs,
    weigh-one-length (by_disposition filtered_group gs),
    weigh-one-length (by_disposition included_group gs),
    weigh-one-length (by_disposition excluded_group gs),
    weigh-one-length gs,
  )

  exact_totals-AreReconciled : AreReconciled (exact_totals groups gs facts)
  exact_totals-AreReconciled =
      let parts = by_disposition-weigh (λ g. g.token_count) gs in
      let each = facts.some_in_each in
      let own = facts.own_among in
      record {
        safe = (
          h,
          (
            omega (arith, h, each),
            (
              omega (arith, h, each),
              (
                omega (arith, h, each, counts),
                (
                  omega (arith, h, each, counts),
                  (
                    omega (arith, h, each, counts),
                    (
                      omega (arith, h, each, counts),
                      (
                        k,
                        (
                          omega (arith, k, own),
                          (
                            omega (arith, k, own),
                            (
                              omega (arith, k, own, parts),
                              (
                                omega (arith, k, own, parts),
                                (omega (arith, k, own, parts), (omega (arith, k, own, parts), tt)),
                              ),
                            ),
                          ),
                        ),
                      ),
                    ),
                  ),
                ),
              ),
            ),
          ),
        );
        wrapped = omega (arith, each);
        eligible = refl;
        grouped = omega (arith, counts);
        duplicated = omega (arith, own);
        dropped = refl;
        shared = omega (arith, parts);
      }

  pub check_totals-none : check_totals (exact_totals groups gs facts) ≡ []
  check_totals-none =
      check_totals-reconciled (exact_totals groups gs facts) exact_totals-AreReconciled
