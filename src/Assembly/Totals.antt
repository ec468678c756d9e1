-- ===== src/Assembly/Totals.antt =====
-- `calculateTotals` of packages/compiler/src/compilation-trace.ts with its checks, `safeSum` and
-- `safeDifference`. A count is a natural number here, so that the tests for a negative one are met.
use ctxalloc.Shared.{
  ℕ, ◌+◌, ◌-◌, Bool, true, false, ◌&&◌, Option, none, some, List, [], ◌∷◌, ◌++◌, map, select,
  if◌then◌else◌, leb, ◌==◌, length, Text, units, compare_code_units, sort, identity_key,
}
use ctxalloc.Shared.Outcome.{Outcome, returned, thrown, after}
use ctxalloc.Candidates.{DeduplicatedCandidate}
use ctxalloc.Renderer.Tokenizer.{max_safe_integer}
use ctxalloc.Correction.Fallback.{flat}
use ctxalloc.Assembly.Numbers.{set_size}
use ctxalloc.Assembly.Trace.{
  Disposition, filtered_group, included_group, excluded_group, TraceGroup,
}
use ctxalloc.Assembly.Verify.{all_below}

unfoldable pub safe_sum_from : ℕ → List ℕ → Option ℕ
safe_sum_from total [] = some total
safe_sum_from total (value ∷ values) =
    let rest = safe_sum_from (total + value) values in
    if leb value max_safe_integer
    then (if leb (total + value) max_safe_integer then rest else none)
    else none

unfoldable pub safe_sum : List ℕ → Option ℕ
unfolding safe_sum_from
safe_sum values = safe_sum_from 0 values

unfoldable pub safe_difference : ℕ → ℕ → Option ℕ
safe_difference a b =
    if leb a max_safe_integer && leb b max_safe_integer && leb b a then some (a - b) else none

pub record Totals : Type 0 where
  pub candidate_count : ℕ
  pub deduplicated_group_count : ℕ
  pub duplicate_wrapper_count : ℕ
  pub filtered_group_count : ℕ
  pub eligible_group_count : ℕ
  pub included_group_count : ℕ
  pub allocation_excluded_group_count : ℕ
  pub candidate_tokens : ℕ
  pub canonical_content_tokens : ℕ
  pub duplicate_candidate_tokens : ℕ
  pub filtered_content_tokens : ℕ
  pub included_content_tokens : ℕ
  pub allocation_excluded_content_tokens : ℕ
  pub excluded_canonical_content_tokens : ℕ

pub data TotalsIssue : Type 0 where
  sums_unsafe derived_unsafe positions_uncovered : TotalsIssue
  unsafe_total : Text → ℕ → TotalsIssue
  equation_fails : Text → ℕ → ℕ → TotalsIssue

abbrev pub is_of : Disposition → Disposition → Bool
is_of filtered_group filtered_group = true
is_of included_group included_group = true
is_of excluded_group excluded_group = true
is_of _ _ = false

-- `byDisposition`
abbrev pub by_disposition : Disposition → List TraceGroup → List TraceGroup
by_disposition d groups = select (λ g. is_of d g.current_disposition) groups

-- `tokensOf`
abbrev pub tokens_of_groups : List TraceGroup → List ℕ
tokens_of_groups groups = map (λ g. g.token_count) groups

-- The sums of the groups and of the candidates in them.
pub record Sums : Type 0 where
  pub candidate_count : ℕ
  pub candidate_tokens : ℕ
  pub canonical : ℕ
  pub filtered : ℕ
  pub included : ℕ
  pub excluded : ℕ

abbrev pub unless_none {ℓ κ} : {A : Type ℓ} {B : Type κ} → Option A → (A → Option B) → Option B
unless_none none f = none
unless_none (some a) f = f a

unfoldable pub sums_of : List TraceGroup → List DeduplicatedCandidate → Option Sums
unfolding safe_sum
sums_of groups deduplicated =
    unless_none (safe_sum (map (λ (g : TraceGroup). length g.members) groups)) (λ candidate_count.
      unless_none
        (safe_sum (
          flat (
            map
              (λ (group : DeduplicatedCandidate).
                map (λ m. m.candidate.block.token_count) group.members)
              deduplicated)))
        (λ candidate_tokens. unless_none (safe_sum (tokens_of_groups groups)) (λ canonical.
          unless_none (safe_sum (tokens_of_groups (by_disposition filtered_group groups)))
            (λ filtered.
              unless_none (safe_sum (tokens_of_groups (by_disposition included_group groups)))
                (λ included.
                  unless_none (safe_sum (tokens_of_groups (by_disposition excluded_group groups)))
                    (λ excluded. some (record {
                      candidate_count = candidate_count;
                      candidate_tokens = candidate_tokens;
                      canonical = canonical;
                      filtered = filtered;
                      included = included;
                      excluded = excluded;
                    })))))))

-- The totals from the sums.
unfoldable pub derived_totals : List TraceGroup → Sums → Option Totals
unfolding safe_sum safe_difference
derived_totals groups s =
    let filtered_count = length (by_disposition filtered_group groups) in
    let included_count = length (by_disposition included_group groups) in
    let excluded_count = length (by_disposition excluded_group groups) in
    unless_none (safe_difference s.candidate_count (length groups)) (λ wrappers.
      unless_none (safe_difference s.candidate_tokens s.canonical) (λ duplicates.
        unless_none (safe_sum (s.filtered ∷ s.excluded ∷ [])) (λ dropped. some (record {
          candidate_count = s.candidate_count;
          deduplicated_group_count = length groups;
          duplicate_wrapper_count = wrappers;
          filtered_group_count = filtered_count;
          eligible_group_count = included_count + excluded_count;
          included_group_count = included_count;
          allocation_excluded_group_count = excluded_count;
          candidate_tokens = s.candidate_tokens;
          canonical_content_tokens = s.canonical;
          duplicate_candidate_tokens = duplicates;
          filtered_content_tokens = s.filtered;
          included_content_tokens = s.included;
          allocation_excluded_content_tokens = s.excluded;
          excluded_canonical_content_tokens = dropped;
        }))))

-- `Object.entries(totals)`
abbrev pub entries_of : Totals → List (Text × ℕ)
entries_of t =
    (units "candidateCount", t.candidate_count)
    ∷ (units "deduplicatedGroupCount", t.deduplicated_group_count)
    ∷ (units "duplicateWrapperCount", t.duplicate_wrapper_count)
    ∷ (units "filteredGroupCount", t.filtered_group_count)
    ∷ (units "eligibleGroupCount", t.eligible_group_count)
    ∷ (units "includedGroupCount", t.included_group_count)
    ∷ (units "allocationExcludedGroupCount", t.allocation_excluded_group_count)
    ∷ (units "candidateTokens", t.candidate_tokens)
    ∷ (units "canonicalContentTokens", t.canonical_content_tokens)
    ∷ (units "duplicateCandidateTokens", t.duplicate_candidate_tokens)
    ∷ (units "filteredContentTokens", t.filtered_content_tokens)
    ∷ (units "includedContentTokens", t.included_content_tokens)
    ∷ (units "allocationExcludedContentTokens", t.allocation_excluded_content_tokens)
    ∷ (units "excludedCanonicalContentTokens", t.excluded_canonical_content_tokens)
    ∷ []

abbrev pub check_entry : Text × ℕ → List TotalsIssue
check_entry e = if leb e.1 max_safe_integer then [] else unsafe_total e.0 e.1 ∷ []

abbrev pub check_equation : Text → ℕ → ℕ → List TotalsIssue
check_equation equation left right =
    if left == right then [] else equation_fails equation left right ∷ []

-- What is found by the six equations.
abbrev pub equations_of : Totals → List (List TotalsIssue)
equations_of t =
    check_equation (units "candidateCount = deduplicatedGroupCount + duplicateWrapperCount")
      t.candidate_count (t.deduplicated_group_count + t.duplicate_wrapper_count)
    ∷ check_equation
        (units "eligibleGroupCount = includedGroupCount + allocationExcludedGroupCount")
        t.eligible_group_count (t.included_group_count + t.allocation_excluded_group_count)
    ∷ check_equation (units "deduplicatedGroupCount = filteredGroupCount + eligibleGroupCount")
        t.deduplicated_group_count (t.filtered_group_count + t.eligible_group_count)
    ∷ check_equation (units "candidateTokens = canonicalContentTokens + duplicateCandidateTokens")
        t.candidate_tokens (t.canonical_content_tokens + t.duplicate_candidate_tokens)
    ∷ check_equation
        (units
          "excludedCanonicalContentTokens = filteredContentTokens + allocationExcludedContentTokens")
        t.excluded_canonical_content_tokens
        (t.filtered_content_tokens + t.allocation_excluded_content_tokens)
    ∷ check_equation
        (units "canonicalContentTokens = includedContentTokens + excludedCanonicalContentTokens")
        t.canonical_content_tokens (t.included_content_tokens + t.excluded_canonical_content_tokens)
    ∷ []

unfoldable pub check_totals : Totals → List TotalsIssue
check_totals t =
    flat (map check_entry (sort (λ a b. compare_code_units a.0 b.0) (entries_of t)))
    ++ flat (equations_of t)

abbrev pub with_position : Option ℕ → List ℕ → List ℕ
with_position none ps = ps
with_position (some p) ps = p ∷ ps

-- The positions that are not `undefined`.
unfoldable pub positions_shown : List TraceGroup → List ℕ
positions_shown [] = []
positions_shown (g ∷ gs) = with_position g.render_position (positions_shown gs)

unfoldable pub check_render_positions : List TraceGroup → List TotalsIssue
unfolding positions_shown set_size all_below
check_render_positions groups =
    let included_count = length (by_disposition included_group groups) in
    let positions = positions_shown groups in
    if length positions == included_count
      && set_size positions == included_count
      && all_below included_count positions
    then []
    else positions_uncovered ∷ []

abbrev pub unless_issues : Totals → List TotalsIssue → Outcome TotalsIssue Totals
unless_issues t [] = returned t
unless_issues t (i ∷ is) = thrown (i ∷ is)

abbrev pub or_thrown {ℓ} : {A : Type ℓ} → TotalsIssue → Option A → Outcome TotalsIssue A
or_thrown i none = thrown (i ∷ [])
or_thrown i (some a) = returned a

-- With the exception that `build` makes of the issues.
unfoldable pub calculate_totals :
    List TraceGroup → List DeduplicatedCandidate → Outcome TotalsIssue Totals
unfolding sums_of derived_totals check_totals check_render_positions
calculate_totals groups deduplicated =
    after (or_thrown sums_unsafe (sums_of groups deduplicated)) (λ s.
      after (or_thrown derived_unsafe (derived_totals groups s))
        (λ t. unless_issues t (check_totals t ++ check_render_positions groups)))
