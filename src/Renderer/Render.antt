-- ===== src/Renderer/Render.antt =====
-- `ContextRenderer` of packages/compiler/src/context-renderer.ts. A policy has the two strings that
-- the schema checks; its version and format are literals of the schema.
use ctxalloc.Shared.{ℕ, Bool, ◌&&◌, List, [], ◌∷◌, ◌++◌, map, Text, units, leb, if◌then◌else◌}
use ctxalloc.Shared.Outcome.{Outcome, after, returned, thrown}
use ctxalloc.Domain.Unicode.{is_policy_string}
use ctxalloc.Candidates.{block_of}
use ctxalloc.Orderer.Order.{OrderedCandidateSet}
use ctxalloc.Renderer.Records.{render_ordered_candidates}
use ctxalloc.Renderer.Tokenizer.{
  Answer, Tokenizer, ok, threw, invalid, count_tokens_safely, PortIssue,
  collect_tokenizer_port_issues,
}

pub data RenderingIssue : Type 0 where
  invalid_policy : RenderingIssue
  invalid_tokenizer : PortIssue → RenderingIssue
  tokenizer_failed : Text → RenderingIssue
  invalid_rendered_token_count : Answer → RenderingIssue

pub record ContextRenderingPolicy : Type 0 where
  pub policy_id : Text
  pub policy_version : Text

pub record ContextRenderer : Type 0 where
  pub policy : ContextRenderingPolicy
  pub tokenizer : Tokenizer

unfoldable pub policy_issues : ContextRenderingPolicy → List RenderingIssue
policy_issues p =
    if is_policy_string p.policy_id && is_policy_string p.policy_version
    then []
    else invalid_policy ∷ []

-- The constructor reports the policy's issues and the tokenizer's together.
unfoldable pub new_renderer :
    ContextRenderingPolicy → Tokenizer → Outcome RenderingIssue ContextRenderer
unfolding policy_issues collect_tokenizer_port_issues
new_renderer policy tokenizer =
    elim (policy_issues policy ++ map invalid_tokenizer (collect_tokenizer_port_issues tokenizer)) [
      | [] ↦ returned (record { policy = policy; tokenizer = tokenizer })
      | first ∷ rest ↦ thrown (first ∷ rest)
    ]

pub record RenderedContextAttempt : Type 0 where
  pub ordered : OrderedCandidateSet
  pub rendering_policy_id : Text
  pub rendering_policy_version : Text
  pub renderer_id : Text
  pub renderer_version : Text
  pub tokenizer_id : Text
  pub tokenizer_version : Text
  pub rendered_context : Text
  pub rendered_tokens : ℕ
  pub fits_available_input_budget : Bool

-- `#count`
unfoldable pub count : Tokenizer → Text → Outcome RenderingIssue ℕ
unfolding count_tokens_safely
count tokenizer text = elim (count_tokens_safely tokenizer text) [
  | ok tokens ↦ returned tokens
  | threw message ↦ thrown (tokenizer_failed message ∷ [])
  | invalid answer ↦ thrown (invalid_rendered_token_count answer ∷ [])
]

unfoldable pub rendered_text : OrderedCandidateSet → Text
rendered_text input =
    render_ordered_candidates (map (λ d. block_of d.candidate) input.ordered_included)

-- What is returned for a count.
abbrev pub attempt : ContextRenderer → OrderedCandidateSet → ℕ → RenderedContextAttempt
attempt r input tokens = record {
  ordered = input;
  rendering_policy_id = r.policy.policy_id;
  rendering_policy_version = r.policy.policy_version;
  renderer_id = units "ctxalloc-jsonl";
  renderer_version = units "1";
  tokenizer_id = r.tokenizer.id;
  tokenizer_version = r.tokenizer.version;
  rendered_context = rendered_text input;
  rendered_tokens = tokens;
  fits_available_input_budget = leb tokens input.allocation.available_input_tokens;
}

unfoldable pub render :
    ContextRenderer → OrderedCandidateSet → Outcome RenderingIssue RenderedContextAttempt
unfolding count rendered_text
render r input =
    after (count r.tokenizer (rendered_text input)) (λ tokens. returned (attempt r input tokens))
