-- ===== src/Filter/Exclusions.antt =====
-- The exclusions that `resolveApplicability` of packages/compiler/src/candidate-filter.ts resolves:
-- none is of a required candidate, and their order does not matter.
use ctxalloc.Shared.{
  ℕ, ◌+◌, ◌≤◌, ◌≡◌, refl, sym, subst, inl, inr, not, ◌&&◌, Bool, true, false, none, List, [], ◌∷◌,
  arith, Bool-cases, Option-cases, Text, text_eq, text_eq_refl, compare_code_units, sort, sort_perm,
  IsComparator-by_text, Distinct, Ordering, weigh, count, one, weigh_add, weigh_mono, All, All-both,
  All-map, All-over, Table, get, put, text_key, All-put, All-get,
}
use mathlib.Core.List.{Permᴰ}
use ctxalloc.Shared.Outcome.{returned}
use ctxalloc.Candidates.{
  DeduplicatedCandidateMember, ScoredCandidate, ScoredCandidateSet, id_of, required_of,
}
use ctxalloc.Filter.Policy.{
  Exclusion, CandidateApplicability, CandidateFilteringPolicy, applicability_of, FilteringIssue,
}
use ctxalloc.Filter.Applicability.{
  scopes_equal, Summary, some_required, summary_of, enter_members, enter_groups, ExclusionEvidence,
  same_reason, Resolution, settled, nothing_resolved, declare, apply_entry, apply_entries,
  resolve_applicability,
}
use ctxalloc.Filter.Decide.{
  eligible_required, Decision, decide, verdict_of, resolve_policy, FilteredCandidateSet, filter,
}
use ctxalloc.Filter.Decisions.{filter-Filtered, returned-injective}

-- Each member weighs no more than the list.
All-within {ℓ} : {A : Type ℓ} (xs : List A) → All (λ x. (f : A → ℕ) → f x ≤ weigh f xs) xs
All-within [] = tt
All-within (x ∷ xs) = ((λ f. omega arith), All-map xs (λ y h f. omega (arith, h f)) (All-within xs))

-- A candidate of the identifier without a required member, and one with.
free_at : Text → ScoredCandidate → Bool
free_at key c = text_eq (id_of c) key && not (some_required c.candidate.members)

bound_at : Text → ScoredCandidate → Bool
bound_at key c = text_eq (id_of c) key && some_required c.candidate.members

module _ (whole : List ScoredCandidate) where
  -- A summary that is not required is of a candidate of the batch.
  abbrev IsOfBatch : Summary → Type 0
  IsOfBatch s = s.required ≡ false → 1 ≤ count (free_at s.id) whole

  summary-IsOfBatch :
      (c : ScoredCandidate)
      → ((f : ScoredCandidate → ℕ) → f c ≤ weigh f whole)
      → IsOfBatch (summary_of c)
  unfolding free_at
  summary-IsOfBatch c within free = omega (arith, within (λ x. one (free_at (id_of c) x)), here)
    where
      here : one (free_at (id_of c) c) ≡ 1
      here = rw (free_at, text_eq_refl (id_of c), free) refl

  enter_members-IsOfBatch :
      (s : Summary) (ms : List DeduplicatedCandidateMember) (groups : Table Text Summary)
      → IsOfBatch s
      → All (λ e. IsOfBatch e.1) groups
      → All (λ e. IsOfBatch e.1) (enter_members s ms groups)
  unfolding enter_members
  enter_members-IsOfBatch s [] groups new h = h
  enter_members-IsOfBatch s (m ∷ ms) groups new h =
      enter_members-IsOfBatch s ms (put m.candidate.block.id s groups) new
        (All-put (λ k t. IsOfBatch t) m.candidate.block.id s groups new h)

  enter_groups-IsOfBatch :
      (cs : List ScoredCandidate) (groups : Table Text Summary)
      → All (λ c. (f : ScoredCandidate → ℕ) → f c ≤ weigh f whole) cs
      → All (λ e. IsOfBatch e.1) groups
      → All (λ e. IsOfBatch e.1) (enter_groups cs groups)
  unfolding enter_groups
  enter_groups-IsOfBatch [] groups within h = h
  enter_groups-IsOfBatch (c ∷ cs) groups within h =
      enter_groups-IsOfBatch cs (enter_members (summary_of c) c.candidate.members groups) within.1 (
        enter_members-IsOfBatch (summary_of c) c.candidate.members groups
          (summary-IsOfBatch c within.0) h)

  -- Every resolved exclusion is of a candidate without a required member.
  abbrev IsFree : Table Text ExclusionEvidence → Type 0
  IsFree resolved = All (λ e. 1 ≤ count (free_at e.0) whole) resolved

  declare-IsFree :
      (e : Exclusion) (id : Text) (r : Resolution)
      → 1 ≤ count (free_at id) whole
      → IsFree r.resolved
      → IsFree (declare e id r).resolved
  unfolding declare
  declare-IsFree e id r free h = elim (Option-cases (get id r.resolved)) [
    | inl new ↦
        rw (declare, new) (All-put (λ k _. 1 ≤ count (free_at k) whole) id _ r.resolved free h)
    | inr (previous, old) ↦ elim (Bool-cases (same_reason previous.reason e.reason)) [
      | inl alike ↦
          rw (declare, old, alike)
            (All-put (λ k _. 1 ≤ count (free_at k) whole) id _ r.resolved free h)
      | inr apart ↦ rw (declare, old, apart) h
    ]
  ]

  apply_entries-IsFree :
      (groups : Table Text Summary) (es : List Exclusion) (r : Resolution)
      → All (λ e. IsOfBatch e.1) groups
      → IsFree r.resolved
      → IsFree (apply_entries groups es r).resolved
  unfolding apply_entries apply_entry
  apply_entries-IsFree groups [] r known h = h
  apply_entries-IsFree groups (e ∷ es) r known h =
      apply_entries-IsFree groups es (apply_entry groups e r) known
        (elim (Option-cases (get e.block_id groups)) [
          | inl missing ↦ rw (apply_entry, missing) h
          | inr (group, found) ↦ elim (Bool-cases group.required) [
            | inl needed ↦ rw (apply_entry, found, needed) h
            | inr free ↦
                rw (apply_entry, found, free)
                  (declare-IsFree e group.id r
                    (All-get (λ k t. IsOfBatch t) e.block_id group groups known found free) h)
          ]
        ])

abbrev pub by_block : Exclusion → Exclusion → Ordering
by_block a b = compare_code_units a.block_id b.block_id

settled-resolved :
    (r : Resolution) (excluded : Table Text ExclusionEvidence)
    → settled r ≡ returned excluded
    → r.resolved ≡ excluded
settled-resolved r excluded h = go r.issues refl
  where
    go : (is : List FilteringIssue) → r.issues ≡ is → r.resolved ≡ excluded
    go [] e = returned-injective (rw (settled, e) at h)
    go (i ∷ is) e = absurd (ground (arith, e, h))

resolve_policy-IsFree :
    (p : CandidateFilteringPolicy) (input : ScoredCandidateSet)
    (excluded : Table Text ExclusionEvidence)
    → resolve_policy p input ≡ returned excluded
    → IsFree input.candidates excluded
unfolding resolve_policy resolve_applicability
resolve_policy-IsFree p input excluded h = elim (Option-cases (applicability_of p)) [
  | inl unstated ↦
      subst (IsFree input.candidates) (returned-injective (rw (resolve_policy, unstated) at h)) tt
  | inr (a, stated) ↦ elim (Bool-cases (scopes_equal a.scope input.scope)) [
    | inl here ↦
        subst (IsFree input.candidates)
          (settled-resolved _ excluded
            (rw (resolve_policy, stated, resolve_applicability, here) at h))
          (apply_entries-IsFree input.candidates (enter_groups input.candidates [])
            (sort by_block a.exclusions) nothing_resolved
            (enter_groups-IsOfBatch input.candidates input.candidates []
              (All-within input.candidates) tt)
            tt)
    | inr elsewhere ↦ absurd (ground (arith, stated, elsewhere, h))
  ]
]

-- No candidate whose canonical block is required is excluded, where identifiers do not repeat.
required-kept :
    (cs : List ScoredCandidate) (excluded : Table Text ExclusionEvidence) (c : ScoredCandidate)
    → ((t : Text) → count (λ x. text_eq (id_of x) t) cs ≤ 1)
    → IsFree cs excluded
    → ((f : ScoredCandidate → ℕ) → f c ≤ weigh f cs)
    → some_required c.candidate.members ≡ true
    → get (id_of c) excluded ≡ none
unfolding free_at bound_at
required-kept cs excluded c unique free within needed =
    elim (Option-cases (get (id_of c) excluded)) [
      | inl kept ↦ kept
      | inr (e, out) ↦
          let key = id_of c in
          absurd (
            omega (
              arith,
              All-get (λ k _. 1 ≤ count (free_at k) cs) key e excluded free out,
              within (λ x. one (bound_at key x)),
              bound,
              weigh_add (λ x. one (free_at key x)) (λ x. one (bound_at key x)) cs,
              weigh_mono (λ x. one (free_at key x) + one (bound_at key x))
                  (λ x. one (text_eq (id_of x) key)) cs (λ x. ground arith),
              unique key,
            ))
    ]
  where
    bound : one (bound_at (id_of c) c) ≡ 1
    bound = rw (bound_at, text_eq_refl (id_of c), needed) refl

-- Where no two candidates have one canonical identifier and a candidate with a required canonical
-- block has a required member, every candidate with a required canonical block is eligible as a
-- required one, whatever its score and whatever the policy excludes.
pub filter-keeps_required :
    (p : CandidateFilteringPolicy) (input : ScoredCandidateSet) {r : FilteredCandidateSet}
    → ((t : Text) → count (λ x. text_eq (id_of x) t) input.candidates ≤ 1)
    → All (λ c. required_of c ≡ true → some_required c.candidate.members ≡ true) input.candidates
    → filter p input ≡ returned r
    → All (λ d. required_of d.candidate ≡ true → d.verdict ≡ eligible_required) r.decisions
unfolding verdict_of decide
filter-keeps_required p input {r} unique coherent h =
    let done = filter-Filtered p input h in
    let kept = resolve_policy-IsFree p input done.excluded done.resolved in
    All-map r.decisions
      (λ d (decided, stays) needed.
        sym (returned-injective (rw (verdict_of, stays needed, decide, needed) at decided)))
      (All-both _
        (λ d. required_of d.candidate ≡ true → get (id_of d.candidate) done.excluded ≡ none)
        r.decisions done.decides.verdicts
        (All-over (λ c. required_of c ≡ true → get (id_of c) done.excluded ≡ none)
          (λ (d : Decision). d.candidate) r.decisions
          (subst (All (λ c. required_of c ≡ true → get (id_of c) done.excluded ≡ none))
            (sym done.decides.same)
            (All-map input.candidates
              (λ c (within, has) needed.
                required-kept input.candidates done.excluded c unique kept within (has needed))
              (All-both _ _ input.candidates (All-within input.candidates) coherent)))))

-- Where no two declarations are of one block, what a policy's applicability resolves to, the
-- exclusions or the issues, does not depend on the order of its declarations.
pub resolve_applicability_perm :
    (a : CandidateApplicability) (es : List Exclusion) (input : ScoredCandidateSet)
    → Permᴰ a.exclusions es
    → Distinct by_block a.exclusions
    → resolve_applicability (record a { exclusions = es }) input ≡ resolve_applicability a input
unfolding resolve_applicability
resolve_applicability_perm a es input p d =
    rw (← sort_perm by_block (IsComparator-by_text (λ (e : Exclusion). e.block_id)) p d)
