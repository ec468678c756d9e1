-- ===== src/Domain/Tests.antt =====
-- The theorems about packages/domain/src/token-budget.ts at a budget.
use ctxalloc.Shared.{◌+◌, ◌≤◌, ◌≡◌, ◌↔◌, refl, true, none, some}
use ctxalloc.Domain.TokenBudget.{
  TokenBudget, reserves_fit_total, configured_reserved_tokens, available_input_tokens,
  reserves_fit_total_iff, available-add-reserved,
}

abbrev budget : TokenBudget
budget = record {
  total_tokens = 100;
  reserved_output_tokens = 40;
  reserved_system_tokens = some 25;
  reserved_tool_tokens = none;
  reserved_protocol_tokens = some 5;
}

accepted : reserves_fit_total budget ≡ true
unfolding reserves_fit_total
accepted = refl

left : available_input_tokens budget ≡ 30
unfolding available_input_tokens
left = refl

reserves_fit_total_iff_example :
    (reserves_fit_total budget ≡ true) ↔ (configured_reserved_tokens budget ≤ budget.total_tokens)
reserves_fit_total_iff_example = reserves_fit_total_iff budget

available-add-reserved_example :
    available_input_tokens budget + configured_reserved_tokens budget ≡ budget.total_tokens
available-add-reserved_example = available-add-reserved budget accepted
