-- ===== src/Correction/Parts.antt =====
-- The parts that the fallback of packages/compiler/src/context-compiler.ts tries, the hard bases and
-- the parts that the policy admits, keep the bounds of every category.
use ctxalloc.Shared.{List, ◌++◌, All, All-map, All-both, All-select, text_key, IsKeyed}
use ctxalloc.Candidates.{ScoredCandidate}
use ctxalloc.Allocation.Policy.{CategoryConstraint}
use ctxalloc.Compiler.Grouping.{constraint_pairs}
use ctxalloc.Compiler.Valid.{keeps}
use ctxalloc.Compiler.Sizes.{subsets}
use ctxalloc.Correction.Keys.{by_ids}
use ctxalloc.Correction.Spans.{IsPart}
use ctxalloc.Correction.Bases.{IsBase}
use ctxalloc.Correction.Bounded.{KeepsBounds, AreFeasible, keeps-KeepsBounds, owed-KeepsBounds}
use ctxalloc.Correction.Eligible.{
  required_among, optional_among, rescue_pool, valid_parts, valid_parts-IsPart,
}

module _ (eligible : List ScoredCandidate) (keyed : IsKeyed (by_ids eligible))
    (constraints : List CategoryConstraint) where
  -- A part of the optional candidates that keeps every category's bounds with the required ones.
  abbrev pub IsValidPart : List ScoredCandidate → Type 0
  IsValidPart picks =
      IsPart (by_ids eligible) (optional_among eligible) picks
      × KeepsBounds constraints (required_among eligible ++ picks)

  pub valid_parts-IsValidPart : All IsValidPart (valid_parts eligible keyed constraints)
  valid_parts-IsValidPart =
      let parts = valid_parts eligible keyed constraints in
      All-both _ _ parts (valid_parts-IsPart eligible keyed constraints) (
        All-map parts (λ p. keeps-KeepsBounds constraints (required_among eligible) p)
          (All-select (keeps constraints (required_among eligible))
            (subsets (rescue_pool eligible keyed))))

  pub bases-IsValidPart :
      IsKeyed (constraint_pairs constraints)
      → AreFeasible constraints (required_among eligible)
      → (bases : List (List ScoredCandidate))
      → All
          (IsBase (by_ids eligible) (required_among eligible) (optional_among eligible) constraints)
          bases
      → All IsValidPart bases
  bases-IsValidPart distinct feasible bases h =
      All-map bases
        (λ p base. (
          base.0,
          owed-KeepsBounds constraints (required_among eligible) p distinct feasible base.1,
        ))
        h
