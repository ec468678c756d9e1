-- ===== src/Correction/Content.antt =====
-- The sums that `sumTokens` of packages/compiler/src/context-compiler.ts returns.
use ctxalloc.Shared.{
  ℕ, ◌+◌, ◌≤◌, ◌≡◌, some, List, [], ◌∷◌, map, arith, weigh, weigh-map, sort, sort-SameItems, sym,
  ◌∙◌, Option-cases, inl, inr,
}
use ctxalloc.Candidates.{ScoredCandidate, block_of, tokens_of}
use ctxalloc.Renderer.Tokenizer.{max_safe_integer}
use ctxalloc.Correction.Measure.{sum_from, sum_tokens, exceeds, blocks_of, arranged}
use ctxalloc.Domain.ContextBlock.{ContextBlock}
use ctxalloc.Orderer.Compare.{compare_blocks}
use ctxalloc.Orderer.Order.{order_candidates_for_rendering}
use ctxalloc.Correction.Visits.{HoldsContent}

-- A sum that is returned is exact and safe.
pub sum_from-exact :
    (total : ℕ) (ns : List ℕ) (k : ℕ)
    → total ≤ max_safe_integer
    → sum_from total ns ≡ some k
    → (k ≡ total + weigh (λ n. n) ns) × (k ≤ max_safe_integer)
unfolding sum_from
sum_from-exact total [] k safe h = ground (arith, h)
sum_from-exact total (n ∷ ns) k safe h = ground (arith, h, sum_from-exact (total + n) ns k)

-- What is not more than the ceiling does not exceed it.
pub within-HoldsContent :
    (available : ℕ) (cs : List ScoredCandidate)
    → weigh tokens_of cs ≤ available
    → HoldsContent available cs
unfolding exceeds sum_tokens
within-HoldsContent available cs h = elim (Option-cases (sum_tokens (map tokens_of cs))) [
  | inl unsafe ↦ ground (arith, unsafe)
  | inr (n, sum) ↦
      ground (arith, sum, sum_from-exact 0 (map tokens_of cs) n, weigh-map (λ n. n) tokens_of cs)
]

-- A sum that stays safe is returned.
pub sum_from-safe :
    (total : ℕ) (ns : List ℕ)
    → total + weigh (λ n. n) ns ≤ max_safe_integer
    → sum_from total ns ≡ some (total + weigh (λ n. n) ns)
unfolding sum_from
sum_from-safe total [] h = ground (arith, h)
sum_from-safe total (n ∷ ns) h = ground (arith, h, sum_from-safe (total + n) ns (omega (arith, h)))

-- Where the content of the blocks has a safe sum, it is within the ceiling.
pub sum-within :
    (available n : ℕ) (cs : List ScoredCandidate)
    → HoldsContent available cs
    → sum_tokens (map (λ b. b.token_count) (arranged (blocks_of cs))) ≡ some n
    → n ≤ available
unfolding exceeds sum_tokens arranged order_candidates_for_rendering
sum-within available n cs h sum =
    let bs = sort compare_blocks (blocks_of cs) in
    let exact =
      sum_from-exact 0 (map (λ (b : ContextBlock). b.token_count) bs) n (omega arith) sum in
    let same =
      weigh-map (λ n. n) (λ (b : ContextBlock). b.token_count) bs
      ∙ sort-SameItems compare_blocks (blocks_of cs) (λ b. b.token_count)
      ∙ weigh-map (λ (b : ContextBlock). b.token_count) block_of cs
      ∙ sym (weigh-map (λ n. n) tokens_of cs) in
    ground (arith, exact, same, sum_from-safe 0 (map tokens_of cs) (omega (arith, exact, same)), h)
