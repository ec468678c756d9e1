-- ===== src/Assembly/Sums.antt =====
-- The sums that `calculateTotals` of packages/compiler/src/compilation-trace.ts takes, and the totals
-- that it derives from them.
use ctxalloc.Shared.{
  ℕ, ◌+◌, ◌-◌, ◌≤◌, ◌≡◌, refl, ap, ◌∙◌, inl, inr, Option, none, some, Option-cases, List, [], ◌∷◌,
  map, arith, if◌then◌else◌, leb, length, weigh, weigh-map, one, weigh-append,
}
use ctxalloc.Candidates.{DeduplicatedCandidateMember, DeduplicatedCandidate}
use ctxalloc.Renderer.Tokenizer.{max_safe_integer}
use ctxalloc.Correction.Fallback.{flat}
use ctxalloc.Assembly.Trace.{
  Disposition, filtered_group, included_group, excluded_group, TraceGroup,
}
use ctxalloc.Assembly.Totals.{
  safe_sum_from, safe_sum, safe_difference, Totals, is_of, by_disposition, tokens_of_groups, Sums,
  sums_of, derived_totals,
}

abbrev pub bounded : ℕ → Option ℕ
bounded n = if leb n max_safe_integer then some n else none

safe_sum_from-bounded :
    (total : ℕ) (values : List ℕ)
    → total ≤ max_safe_integer
    → safe_sum_from total values ≡ bounded (total + weigh (λ v. v) values)
unfolding safe_sum_from
safe_sum_from-bounded total [] h = ground (arith, h)
safe_sum_from-bounded total (v ∷ vs) h = ground (arith, h, safe_sum_from-bounded (total + v) vs)

pub safe_sum-bounded : (values : List ℕ) → safe_sum values ≡ bounded (weigh (λ v. v) values)
unfolding safe_sum
safe_sum-bounded values = safe_sum_from-bounded 0 values (omega arith) ∙ ap bounded (omega arith)

bounded-safe : (n : ℕ) {m : ℕ} → bounded n ≡ some m → n ≤ max_safe_integer
bounded-safe n h = ground (arith, h)

pub bounded-some : (n : ℕ) → n ≤ max_safe_integer → bounded n ≡ some n
bounded-some n h = ground (arith, h)

pub safe_difference-exact :
    (a b : ℕ) → a ≤ max_safe_integer → b ≤ a → safe_difference a b ≡ some (a - b)
unfolding safe_difference
safe_difference-exact a b h k = ground (arith, h, k)

pair_weigh : (a b : ℕ) → weigh (λ v. v) (a ∷ b ∷ []) ≡ a + b
pair_weigh a b = omega arith

-- One of the three.
is_of-one :
    (d : Disposition)
    → one (is_of filtered_group d) + one (is_of included_group d) + one (is_of excluded_group d) ≡ 1
is_of-one filtered_group = refl
is_of-one included_group = refl
is_of-one excluded_group = refl

-- The groups are those of the three dispositions.
pub by_disposition-weigh :
    (f : TraceGroup → ℕ) (gs : List TraceGroup)
    → weigh f (by_disposition filtered_group gs)
        + weigh f (by_disposition included_group gs)
        + weigh f (by_disposition excluded_group gs)
      ≡ weigh f gs
by_disposition-weigh f [] = refl
by_disposition-weigh f (g ∷ gs) =
    ground (arith, is_of-one g.current_disposition, by_disposition-weigh f gs)

-- The candidates in some groups.
abbrev pub wrappers : List DeduplicatedCandidate → ℕ
wrappers groups = weigh (λ (group : DeduplicatedCandidate). length group.members) groups

-- Their tokens.
abbrev pub wrapper_tokens : List DeduplicatedCandidate → ℕ
wrapper_tokens groups =
    weigh
      (λ (group : DeduplicatedCandidate). weigh (λ m. m.candidate.block.token_count) group.members)
      groups

-- Each group has candidates, its own block among them.
pub record AreAccounted (groups : List DeduplicatedCandidate) (gs : List TraceGroup) : Type 0 where
  pub counted : weigh (λ (g : TraceGroup). length g.members) gs ≡ wrappers groups
  pub some_in_each : length gs ≤ wrappers groups
  pub own_among : weigh (λ (g : TraceGroup). g.token_count) gs ≤ wrapper_tokens groups

flat-weigh :
    (groups : List DeduplicatedCandidate)
    → weigh
        (λ v. v)
        (flat (
          map
            (λ (group : DeduplicatedCandidate).
              map (λ m. m.candidate.block.token_count) group.members)
            groups))
      ≡ wrapper_tokens groups
unfolding flat
flat-weigh [] = refl
flat-weigh (group ∷ groups) = omega (
  arith,
  weigh-append (λ v. v) (map (λ m. m.candidate.block.token_count) group.members)
      (flat (
        map
          (λ (group : DeduplicatedCandidate).
            map (λ m. m.candidate.block.token_count) group.members)
          groups)),
  weigh-map (λ v. v) (λ (m : DeduplicatedCandidateMember). m.candidate.block.token_count)
      group.members,
  flat-weigh groups,
)

abbrev pub tokens_with : Disposition → List TraceGroup → ℕ
tokens_with d gs = weigh (λ (g : TraceGroup). g.token_count) (by_disposition d gs)

tokens-bounded :
    (gs : List TraceGroup)
    → safe_sum (tokens_of_groups gs) ≡ bounded (weigh (λ (g : TraceGroup). g.token_count) gs)
tokens-bounded gs =
    safe_sum-bounded (tokens_of_groups gs)
    ∙ ap bounded (weigh-map (λ v. v) (λ (g : TraceGroup). g.token_count) gs)

module _ (groups : List DeduplicatedCandidate) (gs : List TraceGroup)
    (facts : AreAccounted groups gs) where
  abbrev pub exact_sums : Sums
  exact_sums = record {
    candidate_count = wrappers groups;
    candidate_tokens = wrapper_tokens groups;
    canonical = weigh (λ (g : TraceGroup). g.token_count) gs;
    filtered = tokens_with filtered_group gs;
    included = tokens_with included_group gs;
    excluded = tokens_with excluded_group gs;
  }

  count-bounded :
      safe_sum (map (λ (g : TraceGroup). length g.members) gs) ≡ bounded (wrappers groups)
  count-bounded =
      safe_sum-bounded (map (λ (g : TraceGroup). length g.members) gs)
      ∙ ap bounded (weigh-map (λ v. v) (λ (g : TraceGroup). length g.members) gs ∙ facts.counted)

  pub sums_of-exact :
      wrappers groups ≤ max_safe_integer
      → wrapper_tokens groups ≤ max_safe_integer
      → sums_of gs groups ≡ some exact_sums
  unfolding sums_of
  sums_of-exact h k =
      let parts = by_disposition-weigh (λ g. g.token_count) gs in
      rw
        (
          sums_of,
          count-bounded,
          safe_sum-bounded (
              flat (
                map
                  (λ (group : DeduplicatedCandidate).
                    map (λ m. m.candidate.block.token_count) group.members)
                  groups)),
          flat-weigh groups,
          tokens-bounded gs,
          tokens-bounded (by_disposition filtered_group gs),
          tokens-bounded (by_disposition included_group gs),
          tokens-bounded (by_disposition excluded_group gs),
          bounded-some (wrappers groups) h,
          bounded-some (wrapper_tokens groups) k,
          bounded-some (weigh (λ (g : TraceGroup). g.token_count) gs)
              (omega (arith, k, facts.own_among)),
          bounded-some (tokens_with filtered_group gs) (omega (arith, k, facts.own_among, parts)),
          bounded-some (tokens_with included_group gs) (omega (arith, k, facts.own_among, parts)),
          bounded-some (tokens_with excluded_group gs) (omega (arith, k, facts.own_among, parts)),
        )
        refl

  wrappers-bounded :
      safe_sum (
        flat (
          map
            (λ (group : DeduplicatedCandidate).
              map (λ m. m.candidate.block.token_count) group.members)
            groups))
      ≡ bounded (wrapper_tokens groups)
  wrappers-bounded = safe_sum-bounded _ ∙ ap bounded (flat-weigh groups)

  -- The sums are taken only of safe numbers.
  pub sums_of-safe :
      (s : Sums)
      → sums_of gs groups ≡ some s
      → (wrappers groups ≤ max_safe_integer) × (wrapper_tokens groups ≤ max_safe_integer)
  unfolding sums_of
  sums_of-safe s h = elim (Option-cases (bounded (wrappers groups))) [
    | inl over ↦ absurd (cc (rw (sums_of, count-bounded, over) at h))
    | inr (n, e) ↦ elim (Option-cases (bounded (wrapper_tokens groups))) [
      | inl over ↦ absurd (cc (rw (sums_of, count-bounded, e, wrappers-bounded, over) at h))
      | inr (k, f) ↦ (bounded-safe (wrappers groups) e, bounded-safe (wrapper_tokens groups) f)
    ]
  ]

  abbrev pub exact_totals : Totals
  exact_totals =
      let included_count = length (by_disposition included_group gs) in
      let excluded_count = length (by_disposition excluded_group gs) in
      record {
        candidate_count = wrappers groups;
        deduplicated_group_count = length gs;
        duplicate_wrapper_count = wrappers groups - length gs;
        filtered_group_count = length (by_disposition filtered_group gs);
        eligible_group_count = included_count + excluded_count;
        included_group_count = included_count;
        allocation_excluded_group_count = excluded_count;
        candidate_tokens = wrapper_tokens groups;
        canonical_content_tokens = exact_sums.canonical;
        duplicate_candidate_tokens = wrapper_tokens groups - exact_sums.canonical;
        filtered_content_tokens = tokens_with filtered_group gs;
        included_content_tokens = tokens_with included_group gs;
        allocation_excluded_content_tokens = tokens_with excluded_group gs;
        excluded_canonical_content_tokens =
            tokens_with filtered_group gs + tokens_with excluded_group gs;
      }

  module _ (h : wrappers groups ≤ max_safe_integer)
      (k : wrapper_tokens groups ≤ max_safe_integer) where
    pub derived_totals-exact : derived_totals gs exact_sums ≡ some exact_totals
    unfolding derived_totals
    derived_totals-exact =
        let parts = by_disposition-weigh (λ g. g.token_count) gs in
        let dropped = tokens_with filtered_group gs + tokens_with excluded_group gs in
        rw
          (
            derived_totals,
            safe_difference-exact (wrappers groups) (length gs) h facts.some_in_each,
            safe_difference-exact (wrapper_tokens groups) exact_sums.canonical k facts.own_among,
            safe_sum-bounded (tokens_with filtered_group gs ∷ tokens_with excluded_group gs ∷ []),
            pair_weigh (tokens_with filtered_group gs) (tokens_with excluded_group gs),
            bounded-some dropped (omega (arith, k, facts.own_among, parts)),
          )
          refl
