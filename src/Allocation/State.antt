-- ===== src/Allocation/State.antt =====
-- One allocation run of packages/compiler/src/budget-allocator.ts: the views, the comparators, the
-- decisions, and the bookkeeping that the passes share.
use ctxalloc.Shared.{
  ℕ, suc, ◌+◌, ◌-◌, Bool, false, Option, none, some, List, [], ◌∷◌, ◌++◌, Ordering, compare,
  ◌orelse◌, Text, text_eq, compare_code_units, Table, put, tally, text_key,
}
use ctxalloc.Canonical.{canonical_json}
use ctxalloc.Domain.Serialized.{block_json}
use ctxalloc.Candidates.{ScoredCandidate, block_of, id_of, tokens_of, category_of, total_of}

-- The view that `viewOf` makes of one scored group. Its other fields are copies of what
-- `ctxalloc.Candidates` reads off the group. `handle` is the identity of the view object: its
-- position in the canonical traversal order.
pub record AllocationCandidate : Type 0 where
  pub handle : ℕ
  pub scored : ScoredCandidate

-- `candidates.map(viewOf)`
unfoldable pub views_from : ℕ → List ScoredCandidate → List AllocationCandidate
views_from n [] = []
views_from n (c ∷ cs) = record { handle = n; scored = c } ∷ views_from (suc n) cs

-- `category === entry.category`
abbrev pub in_category : Text → Option Text → Bool
in_category t none = false
in_category t (some c) = text_eq t c

-- The canonical traversal order.
unfoldable pub compare_traversal : ScoredCandidate → ScoredCandidate → Ordering
compare_traversal a b =
    compare_code_units (id_of a) (id_of b)
    orelse compare_code_units (canonical_json (block_json (block_of a)))
        (canonical_json (block_json (block_of b)))

unfoldable pub compare_required : AllocationCandidate → AllocationCandidate → Ordering
compare_required a b = compare_code_units (id_of a.scored) (id_of b.scored)

unfoldable pub compare_minimum_cost : AllocationCandidate → AllocationCandidate → Ordering
compare_minimum_cost a b =
    compare (tokens_of a.scored) (tokens_of b.scored)
    orelse (compare (total_of b.scored) (total_of a.scored)
        orelse compare_code_units (id_of a.scored) (id_of b.scored))

unfoldable pub compare_score_order : AllocationCandidate → AllocationCandidate → Ordering
compare_score_order a b =
    compare (total_of b.scored) (total_of a.scored)
    orelse compare_code_units (id_of a.scored) (id_of b.scored)

unfoldable pub compare_eviction : ScoredCandidate → ScoredCandidate → Ordering
compare_eviction a b =
    compare (total_of a) (total_of b) orelse compare_code_units (id_of b) (id_of a)

pub data InclusionReason : Type 0 where
  included_required included_category_minimum included_score_order : InclusionReason

pub data ExclusionReason : Type 0 where
  excluded_category_maximum excluded_budget_exhausted : ExclusionReason

pub record Included : Type 0 where
  pub candidate : ScoredCandidate
  pub reason : InclusionReason
  pub content_tokens : ℕ
  pub remaining_before : ℕ
  pub remaining_after : ℕ

pub record Excluded : Type 0 where
  pub candidate : ScoredCandidate
  pub reason : ExclusionReason
  pub content_tokens : ℕ
  pub remaining_tokens : ℕ

pub record State : Type 0 where
  pub remaining : ℕ
  pub included : List Included
  pub excluded : List Excluded
  pub selected_by_category : Table Text ℕ

abbrev pub start : ℕ → State
start available = record {
  remaining = available;
  included = [];
  excluded = [];
  selected_by_category = [];
}

-- `selectedByCategory.set(category, selectedCount + 1)`, where there is a category
unfoldable pub bump : Option Text → Table Text ℕ → Table Text ℕ
bump none m = m
bump (some c) m = put c (tally c m + 1) m

-- `#include`. Each caller has tested that the tokens do not exceed the remainder, so that the
-- difference is the source's.
unfoldable pub include : AllocationCandidate → InclusionReason → State → State
unfolding bump
include e why s = record s {
  remaining = s.remaining - tokens_of e.scored;
  included = s.included ++ decision ∷ [];
  selected_by_category = bump (category_of e.scored) s.selected_by_category;
}
  where
    decision : Included
    decision = record {
      candidate = e.scored;
      reason = why;
      content_tokens = tokens_of e.scored;
      remaining_before = s.remaining;
      remaining_after = s.remaining - tokens_of e.scored;
    }

-- `excluded.push`
unfoldable pub exclude : AllocationCandidate → ExclusionReason → State → State
exclude e why s = record s { excluded = s.excluded ++ decision ∷ [] }
  where
    decision : Excluded
    decision = record {
      candidate = e.scored;
      reason = why;
      content_tokens = tokens_of e.scored;
      remaining_tokens = s.remaining;
    }
