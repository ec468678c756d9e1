-- ===== src/Orderer/Order.antt =====
-- `ContextOrderer` of packages/compiler/src/context-orderer.ts. A policy that the schema refuses is
-- an error, `none`; the strategy is the one literal of the schema's version.
use ctxalloc.Shared.{Option, none, some, List, Text, ◌&&◌, if◌then◌else◌, sort}
use ctxalloc.Domain.ContextBlock.{ContextBlock}
use ctxalloc.Domain.Unicode.{is_policy_string}
use ctxalloc.Candidates.{block_of}
use ctxalloc.Allocation.State.{Included}
use ctxalloc.Allocation.Reconcile.{Allocated}
use ctxalloc.Orderer.Compare.{compare_blocks}

pub record OrderingPolicy : Type 0 where
  pub policy_id : Text
  pub policy_version : Text

unfoldable pub parse_ordering_policy : OrderingPolicy → Option OrderingPolicy
parse_ordering_policy p =
    if is_policy_string p.policy_id && is_policy_string p.policy_version then some p else none

pub record ContextOrderer : Type 0 where
  pub policy : OrderingPolicy

-- The constructor.
unfoldable pub new_orderer : OrderingPolicy → Option ContextOrderer
unfolding parse_ordering_policy
new_orderer p = elim (parse_ordering_policy p) [
  | none ↦ none
  | some policy ↦ some (record { policy = policy })
]

pub record OrderedCandidateSet : Type 0 where
  pub allocation : Allocated
  pub ordering_policy_id : Text
  pub ordering_policy_version : Text
  pub ordered_included : List Included

unfoldable pub order_candidates_for_rendering {ℓ} :
    {A : Type ℓ} → List A → (A → ContextBlock) → List A
order_candidates_for_rendering items to_block =
    sort (λ a b. compare_blocks (to_block a) (to_block b)) items

unfoldable pub order : ContextOrderer → Allocated → OrderedCandidateSet
unfolding order_candidates_for_rendering
order orderer input = record {
  allocation = input;
  ordering_policy_id = orderer.policy.policy_id;
  ordering_policy_version = orderer.policy.policy_version;
  ordered_included =
      order_candidates_for_rendering input.included (λ decision. block_of decision.candidate);
}
