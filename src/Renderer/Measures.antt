-- ===== src/Renderer/Measures.antt =====
-- What `ContextRenderer.render` of packages/compiler/src/context-renderer.ts measures, and when it
-- fails.
use ctxalloc.Shared.{
  ℕ, ◌≤◌, ◌≡◌, ◌↔◌, ◌⊎◌, refl, inl, inr, ap, subst, ◌∙◌, true, some, [], ◌∷◌, map, arith, Text, leb,
  Bool-cases,
}
use mathlib.Core.List.{map-map}
use ctxalloc.Shared.Outcome.{returned, thrown}
use ctxalloc.Candidates.{block_of}
use ctxalloc.Orderer.Order.{OrderedCandidateSet}
use ctxalloc.Renderer.Records.{record_of}
use ctxalloc.Renderer.Tokenizer.{
  Answer, number, other, Tokenizer, max_safe_integer, check_answer, count_tokens_safely,
  TokenizerCountResult, ok, threw, invalid,
}
use ctxalloc.Renderer.Tokenizer
use ctxalloc.Renderer.Reader.{read_context}
use ctxalloc.Renderer.RoundTrip.{read_context-render_ordered_candidates}
use ctxalloc.Renderer.Render.{
  RenderingIssue, tokenizer_failed, invalid_rendered_token_count, ContextRenderer,
  RenderedContextAttempt, count, rendered_text, attempt, render,
}

-- A usable count.
abbrev pub Counts : Tokenizer → Text → ℕ → Type 0
Counts t text n = (t.count_tokens text ≡ number n) × (n ≤ max_safe_integer)

count-answer :
    (a : Answer) (n : ℕ) → check_answer a ≡ ok n → (a ≡ number n) × (n ≤ max_safe_integer)
unfolding check_answer
count-answer (Tokenizer.thrown m) n h = absurd (ground (arith, h))
count-answer (number k) n h = ground (arith, h)
count-answer (other v) n h = absurd (ground (arith, h))

-- The exact text of the selection is what is counted.
pub count_tokens_safely-Counts :
    (t : Tokenizer) (text : Text) (n : ℕ) → count_tokens_safely t text ≡ ok n → Counts t text n
unfolding count_tokens_safely
count_tokens_safely-Counts t text n h = count-answer (t.count_tokens text) n h

read_back :
    (input : OrderedCandidateSet)
    → read_context (rendered_text input)
      ≡ some (map (λ d. record_of (block_of d.candidate)) input.ordered_included)
unfolding rendered_text
read_back input =
    read_context-render_ordered_candidates (map (λ d. block_of d.candidate) input.ordered_included)
    ∙ ap some (map-map record_of (λ d. block_of d.candidate) input.ordered_included)

-- What a count tells of the attempt.
pub render-attempt :
    (r : ContextRenderer) (input : OrderedCandidateSet) (a : RenderedContextAttempt)
    (o : TokenizerCountResult)
    → count_tokens_safely r.tokenizer (rendered_text input) ≡ o
    → render r input ≡ returned a
    → (n : ℕ) × (count_tokens_safely r.tokenizer (rendered_text input) ≡ ok n)
      × (attempt r input n ≡ a)
unfolding render count
render-attempt r input a (ok n) e h = (n, e, cc (rw (render, count, e) at h))
render-attempt r input a (threw m) e h = absurd (ground (arith, e, h))
render-attempt r input a (invalid b) e h = absurd (ground (arith, e, h))

leb_iff : (a b : ℕ) → (leb a b ≡ true) ↔ (a ≤ b)
leb_iff a b = ground arith

-- An attempt that is returned carries the text of the selection, from which a reader gets the
-- records of the blocks in their order, and the count that the tokenizer answers for that text; the
-- attempt fits exactly when the count is within the available tokens.
pub render-measures :
    (r : ContextRenderer) (input : OrderedCandidateSet) (a : RenderedContextAttempt)
    → render r input ≡ returned a
    → (read_context a.rendered_context
        ≡ some (map (λ d. record_of (block_of d.candidate)) input.ordered_included))
      × Counts r.tokenizer a.rendered_context a.rendered_tokens
      × ((a.fits_available_input_budget ≡ true)
          ↔ (a.rendered_tokens ≤ input.allocation.available_input_tokens))
      × (a.ordered ≡ input)
unfolding render
render-measures r input a h =
    let (n, counted, same) =
      render-attempt r input a (count_tokens_safely r.tokenizer (rendered_text input)) refl h in
    subst
      (λ a.
        (read_context a.rendered_context
          ≡ some (map (λ d. record_of (block_of d.candidate)) input.ordered_included))
        × Counts r.tokenizer a.rendered_context a.rendered_tokens
        × ((a.fits_available_input_budget ≡ true)
            ↔ (a.rendered_tokens ≤ input.allocation.available_input_tokens))
        × (a.ordered ≡ input))
      same
      (
        read_back input,
        count_tokens_safely-Counts r.tokenizer (rendered_text input) n counted,
        leb_iff n input.allocation.available_input_tokens,
        refl,
      )

check-usable :
    (a : Answer)
    → ((n : ℕ) × (check_answer a ≡ ok n))
      ⊎ ((i : RenderingIssue) × (((n : ℕ) → ¬ ((a ≡ number n) × (n ≤ max_safe_integer)))
            × ((t : Tokenizer) (text : Text)
                → t.count_tokens text ≡ a
                → count t text ≡ thrown (i ∷ []))))
unfolding check_answer count count_tokens_safely
check-usable (Tokenizer.thrown m) =
    inr (
      tokenizer_failed m,
      ((λ n h. ground arith), (λ t text e. rw (count, count_tokens_safely, e))),
    )
check-usable (number k) = elim (Bool-cases (leb k max_safe_integer)) [
  | inl small ↦ inl (k, rw small)
  | inr large ↦ inr (
    invalid_rendered_token_count (number k),
    ((λ n h. ground arith), (λ t text e. rw (count, count_tokens_safely, e, large))),
  )
]
check-usable (other v) = inr (
  invalid_rendered_token_count (other v),
  ((λ n h. ground arith), (λ t text e. rw (count, count_tokens_safely, e))),
)

-- A selection is rendered exactly when the tokenizer answers a usable count for its text; otherwise
-- one issue is thrown, and no attempt is returned.
pub render_iff_Counts :
    (r : ContextRenderer) (input : OrderedCandidateSet)
    → ((n : ℕ) × Counts r.tokenizer (rendered_text input) n
        × (render r input ≡ returned (attempt r input n)))
      ⊎ ((i : RenderingIssue) × (((n : ℕ) → ¬ (Counts r.tokenizer (rendered_text input) n))
            × (render r input ≡ thrown (i ∷ []))))
unfolding render count count_tokens_safely
render_iff_Counts r input = elim (check-usable (r.tokenizer.count_tokens (rendered_text input))) [
  | inl (n, e) ↦ inl (
    n,
    count-answer (r.tokenizer.count_tokens (rendered_text input)) n e,
    rw (render, count, count_tokens_safely, e),
  )
  | inr (i, (none_usable, fails)) ↦
      inr (i, (none_usable, rw (render, fails r.tokenizer (rendered_text input) refl)))
]
