-- ===== src/Orderer/Guarantees.antt =====
-- What `ContextOrderer.order` of packages/compiler/src/context-orderer.ts returns.
use ctxalloc.Shared.{
  ◌≡◌, ◌≢◌, sym, List, Ordering, All-map, Pairwise, SameItems, sort-SameItems, sort-IsSorted,
  sort_perm, IsSorted, Distinct, IsComparator, Text,
}
use mathlib.Core.List.{Permᴰ, [], ◌∷◌}
use ctxalloc.Canonical.{canonical_json}
use ctxalloc.Domain.ContextBlock.{ContextBlock}
use ctxalloc.Domain.Serialized.{block_json}
use ctxalloc.Candidates.{block_of}
use ctxalloc.Allocation.State.{Included}
use ctxalloc.Allocation.Reconcile.{Allocated}
use ctxalloc.Orderer.Compare.{compare_blocks}
use ctxalloc.Orderer.Order.{ContextOrderer, order_candidates_for_rendering, order}
use ctxalloc.Orderer.Lawful.{compare_blocks-IsComparator, compare_blocks-orders}

abbrev pub included_block : Included → ContextBlock
included_block d = block_of d.candidate

-- Inclusions by their blocks.
abbrev pub compare_included : Included → Included → Ordering
compare_included a b = compare_blocks (included_block a) (included_block b)

compare_included-IsComparator : IsComparator compare_included
compare_included-IsComparator = record {
  flips = λ a b. compare_blocks-IsComparator.flips (included_block a) (included_block b);
  trans = λ a b c.
      compare_blocks-IsComparator.trans (included_block a) (included_block b) (included_block c);
}

-- The rendering order has the inclusions of the allocation, each as often, in the order of their
-- blocks.
pub order-arranges :
    (orderer : ContextOrderer) (input : Allocated)
    → SameItems (order orderer input).ordered_included input.included
      × IsSorted compare_included (order orderer input).ordered_included
unfolding order order_candidates_for_rendering
order-arranges orderer input = (
  sort-SameItems compare_included input.included,
  sort-IsSorted compare_included compare_included-IsComparator input.included,
)

-- The canonical serialization of an inclusion's block.
abbrev pub serialized : Included → Text
serialized d = canonical_json (block_json (included_block d))

Pairwise-Distinct :
    (ds : List Included)
    → Pairwise (λ a b. serialized a ≢ serialized b) ds
    → Distinct compare_included ds
Pairwise-Distinct [] h = tt
Pairwise-Distinct (d ∷ ds) h = (
  All-map ds
      (λ e differ tied. differ (compare_blocks-orders.1 (included_block d) (included_block e) tied))
      h.0,
  Pairwise-Distinct ds h.1,
)

-- Where no two included blocks have one canonical serialization, the rendering order does not depend
-- on the order in which the allocation lists its inclusions.
pub order_perm :
    (orderer : ContextOrderer) (input : Allocated) (included : List Included)
    → Permᴰ input.included included
    → Pairwise (λ a b. serialized a ≢ serialized b) input.included
    → (order orderer (record input { included = included })).ordered_included
      ≡ (order orderer input).ordered_included
unfolding order order_candidates_for_rendering
order_perm orderer input included p distinct = sym (
    sort_perm compare_included compare_included-IsComparator p
      (Pairwise-Distinct input.included distinct))
