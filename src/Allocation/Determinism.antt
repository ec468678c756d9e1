-- ===== src/Allocation/Determinism.antt =====
-- `BudgetAllocator.allocate` of packages/compiler/src/budget-allocator.ts does not depend on the
-- order of the batch (INV-ALLOC-005).
use ctxalloc.Shared.{
  ◌≡◌, List, Ordering, sort_perm, Distinct, IsComparator, IsComparator-orelse, IsComparator-by_text,
  compare_code_units,
}
use mathlib.Core.List.{Permᴰ}
use ctxalloc.Canonical.{canonical_json}
use ctxalloc.Domain.ContextBlock.{SourceDocument}
use ctxalloc.Domain.Serialized.{block_json}
use ctxalloc.Domain.TokenBudget.{TokenBudget}
use ctxalloc.Candidates.{ScoredCandidate, ScoredCandidateSet, block_of, id_of}
use ctxalloc.Allocation.Policy.{Allocator}
use ctxalloc.Allocation.State.{compare_traversal}
use ctxalloc.Allocation.Allocate.{views, run_passes, assemble, allocate}

compare_traversal-IsComparator : IsComparator compare_traversal
unfolding compare_traversal
compare_traversal-IsComparator =
    IsComparator-orelse (λ x y. compare_code_units (id_of x) (id_of y)) _
      (IsComparator-by_text id_of)
      (IsComparator-by_text (λ c. canonical_json (block_json (block_of c))))

-- The batch with its candidates and its source documents in another order.
abbrev pub reordered :
    ScoredCandidateSet → List ScoredCandidate → List SourceDocument → ScoredCandidateSet
reordered input candidates documents = record input {
  candidates = candidates;
  source_documents = documents;
}

abbrev pub by_id : SourceDocument → SourceDocument → Ordering
by_id x y = compare_code_units x.id y.id

-- Where no two candidates tie in the traversal order and no two source documents have one
-- identifier, `allocate` returns the same result, or throws the same issues, for every order of the
-- candidates and of the documents.
pub allocate_perm :
    (a : Allocator) (input : ScoredCandidateSet) (budget : TokenBudget)
    (candidates : List ScoredCandidate) (documents : List SourceDocument)
    → Permᴰ input.candidates candidates
    → Permᴰ input.source_documents documents
    → Distinct compare_traversal input.candidates
    → Distinct by_id input.source_documents
    → allocate a (reordered input candidates documents) budget ≡ allocate a input budget
unfolding allocate run_passes views assemble
allocate_perm a input budget candidates documents p q d e = rw (
  ← sort_perm compare_traversal compare_traversal-IsComparator p d,
  ← sort_perm by_id (IsComparator-by_text (λ (x : SourceDocument). x.id)) q e,
)
