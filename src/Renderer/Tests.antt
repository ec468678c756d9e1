-- ===== src/Renderer/Tests.antt =====
-- The theorems about packages/compiler/src/context-renderer.ts at an allocation with three inclusions,
-- for a tokenizer that counts the code units of a text.
use ctxalloc.Shared.{
  ℕ, ◌≡◌, ◌≤◌, ◌↔◌, ◌⊎◌, refl, true, some, List, [], ◌∷◌, map, units, length, sort,
}
use ctxalloc.Shared.Outcome.{returned, thrown}
use ctxalloc.Canonical.{quote_json, join, render_object}
use ctxalloc.Shared.Json.{optional}
use ctxalloc.Domain.ContextBlock.{ContextBlock}
use ctxalloc.Candidates.{block_of}
use ctxalloc.Allocation.Fixture.{outcome}
use ctxalloc.Orderer.Compare.{compare_blocks}
use ctxalloc.Orderer.Order.{ContextOrderer, OrderedCandidateSet, order}
use ctxalloc.Renderer.Records.{record_of, join_lines, render_ordered_candidates}
use ctxalloc.Renderer.Tokenizer.{number, Tokenizer, check_answer, count_tokens_safely}
use ctxalloc.Renderer.Render.{
  RenderingIssue, ContextRenderingPolicy, ContextRenderer, count, rendered_text, attempt, render,
}
use ctxalloc.Renderer.Reader.{read_context}
use ctxalloc.Renderer.RoundTrip.{read_context-render_ordered_candidates}
use ctxalloc.Renderer.Measures.{Counts, render-measures, render_iff_Counts}

abbrev orderer : ContextOrderer
orderer = record { policy = record { policy_id = units "ordering"; policy_version = units "1" } }

abbrev policy : ContextRenderingPolicy
policy = record { policy_id = units "rendering"; policy_version = units "1" }

abbrev tokenizer : Tokenizer
tokenizer = record {
  id = units "units";
  version = units "1";
  count_tokens = λ t. number (length t);
}

abbrev renderer : ContextRenderer
renderer = record { policy = policy; tokenizer = tokenizer }

abbrev input : OrderedCandidateSet
input = order orderer outcome

abbrev blocks : List ContextBlock
blocks = map (λ d. block_of d.candidate) outcome.included

read_context-render_ordered_candidates_example :
    read_context (render_ordered_candidates blocks) ≡ some (map record_of blocks)
read_context-render_ordered_candidates_example = read_context-render_ordered_candidates blocks

returns : render renderer input ≡ returned (attempt renderer input (length (rendered_text input)))
unfolding render count count_tokens_safely check_answer render_ordered_candidates join_lines order
    sort outcome compare_blocks render_object join optional quote_json
returns = refl

render-measures_example :
    let a = attempt renderer input (length (rendered_text input)) in
    (read_context a.rendered_context
      ≡ some (map (λ d. record_of (block_of d.candidate)) input.ordered_included))
    × Counts renderer.tokenizer a.rendered_context a.rendered_tokens
    × ((a.fits_available_input_budget ≡ true)
        ↔ (a.rendered_tokens ≤ input.allocation.available_input_tokens))
    × (a.ordered ≡ input)
render-measures_example =
    render-measures renderer input (attempt renderer input (length (rendered_text input))) returns

render_iff_Counts_example :
    ((n : ℕ) × Counts renderer.tokenizer (rendered_text input) n
      × (render renderer input ≡ returned (attempt renderer input n)))
    ⊎ ((i : RenderingIssue) × (((n : ℕ) → ¬ (Counts renderer.tokenizer (rendered_text input) n))
          × (render renderer input ≡ thrown (i ∷ []))))
render_iff_Counts_example = render_iff_Counts renderer input
