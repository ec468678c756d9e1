-- ===== src/Assembly/Arithmetic.antt =====
-- The usage that `#assemble` of packages/compiler/src/context-compiler.ts computes passes the checks
-- exactly where its sums are safe.
use ctxalloc.Shared.{
  ℕ, ◌≤◌, ◌≡◌, inl, inr, true, some, Option-cases, List, [], map, arith, leb, same_refl,
  identity_key, Bool-cases,
}
use ctxalloc.Domain.ContextBlock.{ContextBlock}
use ctxalloc.Renderer.Tokenizer.{max_safe_integer}
use ctxalloc.Correction.Measure.{sum_tokens}
use ctxalloc.Correction.Content.{sum_from-exact}
use ctxalloc.Assembly.Numbers.{
  ℤ, pos, negsuc, difference, same_integer, strictly_equal, minus, is_safe_count, is_safe_integer,
  is_at_most,
}
use ctxalloc.Assembly.Result.{
  ResultUsage, compiled_tokens_unsafe, compiled_tokens_over_available, unused_tokens_wrong,
  delta_unsafe, delta_wrong, candidate_tokens_unsafe, included_content_wrong,
  content_over_available,
}
use ctxalloc.Assembly.Verify.{check_usage}
use ctxalloc.Assembly.Sets.{met, flat-none, unmet, flat-parts}

pub same_integer_refl : (i : ℤ) → same_integer i i ≡ true
unfolding same_integer
same_integer_refl (pos n) = same_refl n
same_integer_refl (negsuc n) = same_refl n

difference-safe :
    (a b : ℕ)
    → a ≤ max_safe_integer
    → b ≤ max_safe_integer
    → is_safe_integer (some (difference a b)) ≡ true
unfolding is_safe_integer difference
difference-safe a b h k = elim (Bool-cases (leb b a)) [
  | inl over ↦ ground (arith, over, h)
  | inr under ↦ ground (arith, under, k)
]

-- A usage as it is computed, of a count within the ceiling.
module _ (usage : ResultUsage) (blocks : List ContextBlock)
    (content : usage.included_content_tokens ≡ sum_tokens (map (λ b. b.token_count) blocks))
    (unused : usage.unused_tokens ≡ difference usage.available_tokens usage.compiled_tokens)
    (delta : usage.rendering_token_delta
      ≡ minus usage.compiled_tokens usage.included_content_tokens)
    (safe : usage.compiled_tokens ≤ max_safe_integer)
    (within : usage.compiled_tokens ≤ usage.available_tokens) where
  pub check_usage-none :
      (n : ℕ)
      → is_safe_count usage.candidate_tokens ≡ true
      → sum_tokens (map (λ b. b.token_count) blocks) ≡ some n
      → n ≤ usage.available_tokens
      → check_usage usage blocks ≡ []
  unfolding check_usage is_safe_count minus strictly_equal is_at_most sum_tokens
  check_usage-none n candidates sum under =
      let exact = sum_from-exact 0 (map (λ b. b.token_count) blocks) n (omega arith) sum in
      flat-none _ (
        met _ compiled_tokens_unsafe (ground (arith, safe)),
        (
          met _ compiled_tokens_over_available (ground (arith, within)),
          (
            met _ unused_tokens_wrong (
                rw unused
                  (same_integer_refl (difference usage.available_tokens usage.compiled_tokens))),
            (
              met _ delta_unsafe
                  (rw (delta, content, sum) (difference-safe usage.compiled_tokens n safe exact.1)),
              (
                met _ delta_wrong (
                    rw (delta, content, sum)
                      (same_integer_refl (difference usage.compiled_tokens n))),
                (
                  met _ candidate_tokens_unsafe candidates,
                  (
                    met _ included_content_wrong (rw (content, sum) (same_refl n)),
                    (met _ content_over_available (rw sum (ground (arith, under))), tt),
                  ),
                ),
              ),
            ),
          ),
        ),
      )

module _ (usage : ResultUsage) (blocks : List ContextBlock) where
  safe_sum :
      is_at_most (sum_tokens (map (λ b. b.token_count) blocks)) usage.available_tokens ≡ true
      → is_safe_count (sum_tokens (map (λ b. b.token_count) blocks)) ≡ true
  unfolding is_at_most is_safe_count sum_tokens
  safe_sum e = elim (Option-cases (sum_tokens (map (λ b. b.token_count) blocks))) [
    | inl unsafe ↦ absurd (ground (arith, e, unsafe))
    | inr (n, sum) ↦ ground (arith, sum, sum_from-exact 0 (map (λ b. b.token_count) blocks) n)
  ]

  -- A sum that is not safe is found.
  pub check_usage-sums :
      check_usage usage blocks ≡ []
      → (is_safe_count usage.candidate_tokens ≡ true)
        × (is_safe_count (sum_tokens (map (λ b. b.token_count) blocks)) ≡ true)
  unfolding check_usage
  check_usage-sums h =
      let parts = flat-parts _ h in
      (
        unmet _ candidate_tokens_unsafe parts.1.1.1.1.1.0,
        safe_sum (unmet _ content_over_available parts.1.1.1.1.1.1.1.0),
      )
