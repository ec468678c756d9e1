-- ===== src/Compilation/Inputs.antt =====
-- What the stages before the correction of packages/compiler/src/context-compiler.ts establish:
-- different categories, different identifiers, and the constructed stages.
use ctxalloc.Shared.{
  ℕ, ◌+◌, ◌≡◌, refl, sym, subst, inl, inr, none, some, List, [], ◌∷◌, map, arith, select,
  Bool-cases, Option-cases, Text, text_eq_iff, Table, get, put, get-put, text_key, IsKeyed,
}
use ctxalloc.Shared.Outcome.{returned}
use ctxalloc.Candidates.{ScoredCandidateSet, id_of}
use ctxalloc.Filter.Policy.{CandidateFilteringPolicy, parse_filtering_policy, new_filter}
use ctxalloc.Filter.Decide.{Decision, FilteredCandidateSet, is_eligible, filtered_set, filter}
use ctxalloc.Filter.Decisions.{filter-Filtered}
use ctxalloc.Filter.Guarantees.{filter-partitions}
use ctxalloc.Allocation.Issue.{ok}
use ctxalloc.Allocation.Policy.{
  CategoryConstraint, Policy, constraints_of, duplicates_from, detect_duplicate_categories,
  parse_policy, Allocator, construct,
}
use ctxalloc.Compiler.Grouping.{constraint_pairs}
use ctxalloc.Orderer.Order.{OrderingPolicy, parse_ordering_policy, ContextOrderer, new_orderer}
use ctxalloc.Renderer.Tokenizer.{Tokenizer}
use ctxalloc.Renderer.Render.{ContextRenderingPolicy, ContextRenderer, new_renderer}
use ctxalloc.Correction.Keys.{by_ids}

-- A category that was seen is not seen again.
seen_once :
    (cs : List CategoryConstraint) (i : ℕ) (seen : Table Text ℕ) (t : Text) (n : ℕ)
    → duplicates_from i seen cs ≡ []
    → get t seen ≡ some n
    → get t (constraint_pairs cs) ≡ none
unfolding duplicates_from get
seen_once [] i seen t n h s = refl
seen_once (c ∷ cs) i seen t n h s = elim (Option-cases (get c.category seen)) [
  | inl new ↦ ground (
    arith,
    new,
    s,
    text_eq_iff c.category t,
    get-put c.category t i seen,
    seen_once cs (i + 1) (put c.category i seen) t n,
  )
  | inr (first, old) ↦ absurd (ground (arith, h, old))
]

duplicates_from-IsKeyed :
    (cs : List CategoryConstraint) (i : ℕ) (seen : Table Text ℕ)
    → duplicates_from i seen cs ≡ []
    → IsKeyed (constraint_pairs cs)
unfolding duplicates_from
duplicates_from-IsKeyed [] i seen h = tt
duplicates_from-IsKeyed (c ∷ cs) i seen h = elim (Option-cases (get c.category seen)) [
  | inl new ↦
      let rest = rw (duplicates_from, new) at h in
      (
        seen_once cs (i + 1) (put c.category i seen) c.category i rest (
            ground
              (arith, get-put c.category c.category i seen, text_eq_iff c.category c.category)),
        duplicates_from-IsKeyed cs (i + 1) (put c.category i seen) rest,
      )
  | inr (first, old) ↦ absurd (ground (arith, h, old))
]

-- A policy that the constructor accepts has no two constraints of one category.
pub construct-IsKeyed :
    (p : Policy) {a : Allocator}
    → construct p ≡ ok a
    → IsKeyed (constraint_pairs (constraints_of p))
unfolding construct parse_policy detect_duplicate_categories
construct-IsKeyed p {a} h = duplicates_from-IsKeyed (constraints_of p) 0 [] (ground (arith, h))

absent-select :
    (ds : List Decision) (t : Text)
    → get t (by_ids (map (λ d. d.candidate) ds)) ≡ none
    → get t (by_ids (map (λ d. d.candidate) (select (λ d. is_eligible d.verdict) ds))) ≡ none
unfolding get
absent-select [] t h = refl
absent-select (d ∷ ds) t h = ground (arith, h, absent-select ds t)

select-IsKeyed :
    (ds : List Decision)
    → IsKeyed (by_ids (map (λ d. d.candidate) ds))
    → IsKeyed (by_ids (map (λ d. d.candidate) (select (λ d. is_eligible d.verdict) ds)))
select-IsKeyed [] k = tt
select-IsKeyed (d ∷ ds) k = elim (Bool-cases (is_eligible d.verdict)) [
  | inl kept ↦ rw kept (absent-select ds (id_of d.candidate) k.0, select-IsKeyed ds k.1)
  | inr gone ↦ rw gone (select-IsKeyed ds k.1)
]

-- The eligible candidates have different identifiers where the candidates of the batch have.
pub filter-IsKeyed :
    (p : CandidateFilteringPolicy) (input : ScoredCandidateSet) {r : FilteredCandidateSet}
    → filter p input ≡ returned r
    → IsKeyed (by_ids input.candidates)
    → IsKeyed (by_ids r.eligible.candidates)
unfolding filtered_set
filter-IsKeyed p input {r} h k =
    subst (λ s. IsKeyed (by_ids s.eligible.candidates)) (filter-Filtered p input h).published
      (select-IsKeyed r.decisions
        (subst (λ cs. IsKeyed (by_ids cs)) (sym (filter-partitions p input h).0) k))

-- A stage that is constructed holds the policy that it was given.
pub new_filter_same : (p q : CandidateFilteringPolicy) → new_filter p ≡ returned q → p ≡ q
unfolding new_filter parse_filtering_policy
new_filter_same p q h = ground (arith, h)

pub new_orderer_same :
    (p : OrderingPolicy) (o : ContextOrderer) → new_orderer p ≡ some o → record { policy = p } ≡ o
unfolding new_orderer parse_ordering_policy
new_orderer_same p o h = ground (arith, h)

pub new_renderer_same :
    (p : ContextRenderingPolicy) (t : Tokenizer) (r : ContextRenderer)
    → new_renderer p t ≡ returned r
    → record { policy = p; tokenizer = t } ≡ r
unfolding new_renderer
new_renderer_same p t r h = ground (arith, h)
