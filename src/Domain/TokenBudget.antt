-- ===== src/Domain/TokenBudget.antt =====
-- packages/domain/src/token-budget.ts: the caller's budget and what is left of it for context.
-- A field is a non-negative safe integer, and `none` is an omitted reserve.
use ctxalloc.Shared.{
  ℕ, ◌+◌, ◌-◌, ◌≤◌, ◌≡◌, ◌↔◌, Bool, true, false, Option, List, [], ◌∷◌, arith, ltb, or_zero,
  if◌then◌else◌,
}
use mathlib.Core.List.{foldl}

pub record TokenBudget : Type 0 where
  pub total_tokens : ℕ
  pub reserved_output_tokens : ℕ
  pub reserved_system_tokens : Option ℕ
  pub reserved_tool_tokens : Option ℕ
  pub reserved_protocol_tokens : Option ℕ

-- Reserve amounts in fixed order, an omitted reserve as zero.
pub reserve_amounts : TokenBudget → List ℕ
reserve_amounts b =
    b.reserved_output_tokens
    ∷ or_zero b.reserved_system_tokens
    ∷ or_zero b.reserved_tool_tokens
    ∷ or_zero b.reserved_protocol_tokens
    ∷ []

-- One reserve after the other: `if (reserve > remaining) return false; remaining -= reserve`.
fits : List ℕ → ℕ → Bool
fits [] remaining = true
fits (r ∷ rs) remaining =
    let rest = fits rs (remaining - r) in if ltb remaining r then false else rest

unfoldable pub reserves_fit_total : TokenBudget → Bool
unfolding fits reserve_amounts
reserves_fit_total b = fits (reserve_amounts b) b.total_tokens

unfoldable pub configured_reserved_tokens : TokenBudget → ℕ
unfolding reserve_amounts
configured_reserved_tokens b = foldl ◌+◌ 0 (reserve_amounts b)

unfoldable pub available_input_tokens : TokenBudget → ℕ
unfolding reserve_amounts
available_input_tokens b = foldl ◌-◌ b.total_tokens (reserve_amounts b)

-- The reserves are accepted exactly when their sum is within the total: subtracting them one at a
-- time decides what the sum would.
pub reserves_fit_total_iff :
    (b : TokenBudget)
    → (reserves_fit_total b ≡ true) ↔ (configured_reserved_tokens b ≤ b.total_tokens)
unfolding reserves_fit_total configured_reserved_tokens
reserves_fit_total_iff b = ground arith

-- For an accepted budget the reserves and the available tokens make up the total.
pub available-add-reserved :
    (b : TokenBudget)
    → reserves_fit_total b ≡ true
    → available_input_tokens b + configured_reserved_tokens b ≡ b.total_tokens
unfolding reserves_fit_total configured_reserved_tokens available_input_tokens
available-add-reserved b h = ground arith
