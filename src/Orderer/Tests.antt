-- ===== src/Orderer/Tests.antt =====
-- The theorems about packages/compiler/src/context-orderer.ts at an allocation with three inclusions.
use ctxalloc.Shared.{
  ◌≡◌, ◌≢◌, refl, false, some, List, [], ◌∷◌, map, arith, Text, units, text_eq, text_eq_iff,
  SameItems, IsSorted, Pairwise,
}
use mathlib.Core.List.{Permᴰ}
use ctxalloc.Canonical.{
  canonical_json, quote_json, join, compare_entries, render_entry, render_object,
}
use ctxalloc.Shared.Json.{optional, strings, decimal, natural}
use ctxalloc.Domain.Serialized.{block_json}
use ctxalloc.Candidates.{id_of}
use ctxalloc.Allocation.State.{Included}
use ctxalloc.Allocation.Fixture.{outcome, code, final_state}
use ctxalloc.Orderer.Compare.{compare_blocks, compare_location}
use ctxalloc.Orderer.Order.{
  OrderingPolicy, ContextOrderer, new_orderer, parse_ordering_policy,
  order_candidates_for_rendering, order,
}
use ctxalloc.Orderer.Guarantees.{compare_included, serialized, order-arranges, order_perm}

abbrev policy : OrderingPolicy
policy = record { policy_id = units "ordering"; policy_version = units "1" }

abbrev orderer : ContextOrderer
orderer = record { policy = policy }

constructed : new_orderer policy ≡ some orderer
unfolding new_orderer parse_ordering_policy code
constructed = refl

rendered :
    map (λ d. id_of d.candidate) (order orderer outcome).ordered_included
    ≡ units "a" ∷ units "c" ∷ units "d" ∷ []
unfolding order order_candidates_for_rendering compare_blocks compare_location outcome code
    final_state
rendered = refl

order-arranges_example :
    SameItems (order orderer outcome).ordered_included outcome.included
    × IsSorted compare_included (order orderer outcome).ordered_included
order-arranges_example = order-arranges orderer outcome

differ : (s t : Text) → text_eq s t ≡ false → s ≢ t
differ s t h same = absurd (ground (arith, text_eq_iff s t, h, same))

apart : Pairwise (λ a b. serialized a ≢ serialized b) outcome.included
unfolding outcome code final_state canonical_json quote_json join compare_entries render_entry
    render_object block_json optional strings decimal natural text_eq
apart = ((differ _ _ refl, (differ _ _ refl, tt)), ((differ _ _ refl, tt), (tt, tt)))

abbrev swapped : List Included
swapped = elim outcome.included [ (x ∷ y ∷ rest) ↦ y ∷ x ∷ rest | xs ↦ xs ]

order_perm_example :
    (order orderer (record outcome { included = swapped })).ordered_included
    ≡ (order orderer outcome).ordered_included
unfolding outcome code final_state
order_perm_example = order_perm orderer outcome swapped (Permᴰ.swap refl refl) apart
