-- ===== src/Correction/Fixture.antt =====
-- Three candidates for the correction of packages/compiler/src/context-compiler.ts: a required one, and
-- two of a category that wants one, of which the cheaper one has the longer rendered text.
use ctxalloc.Shared.{
  true, none, some, List, [], ◌∷◌, units, length, leb, if◌then◌else◌, get, put, text_eq, text_key,
  sort, insert, contains, compare_code_units,
}
use ctxalloc.Canonical.{
  canonical_json, quote_json, join, compare_entries, render_entry, render_object,
}
use ctxalloc.Shared.Json.{optional, strings}
use ctxalloc.Candidates.{ScoredCandidate}
use ctxalloc.Allocation.Fixture.{block, scored}
use ctxalloc.Allocation.Policy.{Policy}
use ctxalloc.Compiler.Search.{budget_for, is_satisfied, owed_of, gate, walk, subsets_of_size}
use ctxalloc.Compiler.Budgets.{
  compare_rescue_order, start_of, capacity_of, category_budget, category_budgets, index_budgets,
}
use ctxalloc.Compiler.Valid.{keeps}
use ctxalloc.Compiler.Over.{over}
use ctxalloc.Compiler.Reference.{combos}
use ctxalloc.Compiler.Enumerate.{
  combinations, odometer, advance, run_from, picks_at, pick, cartesian, prefix_each,
  policy_valid_optional_selections, sizes_from, is_unconstrained,
}
use ctxalloc.Orderer.Compare.{compare_blocks, compare_location}
use ctxalloc.Orderer.Order.{ContextOrderer, order, order_candidates_for_rendering}
use ctxalloc.Renderer.Records.{render_ordered_candidates, join_lines}
use ctxalloc.Renderer.Tokenizer.{number, Tokenizer, check_answer, count_tokens_safely}
use ctxalloc.Renderer.Render.{ContextRenderer, render, rendered_text, count}
use ctxalloc.Correction.Measure.{
  measurement, arranged, visit, admit, measure_within, measure, measure_anew, selection_key,
  sum_tokens, sum_from, exceeds,
}
use ctxalloc.Correction.Deficits.{
  category_deficits, deficits_of, category_deficit, minimum_of, minimum_categories, preferred,
  compare_minimum_preference, rounds,
}
use ctxalloc.Correction.Fallback.{
  search_fallback, hard_bases, rescue, find_fitting, settled, exhausted_failure, conclude, proceed,
  flat, reasons_from,
}
use ctxalloc.Correction.Settle.{
  settle, evict_until_fits, selected_by_id, by_id, allocator_reasons, after_evictions, remove,
}

-- A text of 165 code units or more is 20 tokens, any other is 5.
abbrev pub tokenizer : Tokenizer
tokenizer = record {
  id = units "two";
  version = units "1";
  count_tokens = λ t. number (if leb 165 (length t) then 20 else 5);
}

abbrev pub renderer : ContextRenderer
renderer = record {
  policy = record { policy_id = units "rendering"; policy_version = units "1" };
  tokenizer = tokenizer;
}

abbrev pub orderer : ContextOrderer
orderer = record { policy = record { policy_id = units "ordering"; policy_version = units "1" } }

abbrev pub needed : ScoredCandidate
needed = scored 0 (block (units "r") 1 (some true) none) 0

abbrev pub cheap : ScoredCandidate
cheap = scored 1 (block (units "a long name") 1 none (some (units "facts"))) 0

abbrev pub short : ScoredCandidate
short = scored 2 (block (units "b") 2 none (some (units "facts"))) 0

abbrev pub policy : Policy
policy = record {
  policy_id = units "allocation";
  policy_version = units "1";
  category_constraints =
      some (record { category = units "facts"; min_blocks = some 1; max_blocks = none } ∷ []);
}

abbrev pub eligible : List ScoredCandidate
eligible = needed ∷ cheap ∷ short ∷ []

-- The code that the tests run.
unfoldable pub code : Unit {0}
unfolding get put text_eq contains sort insert compare_code_units canonical_json quote_json join
    compare_entries render_entry render_object optional strings compare_blocks compare_location
    order order_candidates_for_rendering render_ordered_candidates join_lines rendered_text render
    count count_tokens_safely check_answer settle evict_until_fits selected_by_id by_id
    allocator_reasons after_evictions remove search_fallback hard_bases rescue find_fitting settled
    exhausted_failure conclude proceed flat reasons_from category_deficits deficits_of
    category_deficit minimum_of minimum_categories preferred compare_minimum_preference rounds visit
    admit measure_within measure measure_anew measurement arranged selection_key sum_tokens sum_from
    exceeds combinations odometer advance run_from picks_at pick cartesian prefix_each
    policy_valid_optional_selections sizes_from subsets_of_size walk gate is_satisfied owed_of
    budget_for category_budgets category_budget capacity_of start_of index_budgets
    compare_rescue_order is_unconstrained keeps over combos
code = tt
