-- ===== src/Filter/Guarantees.antt =====
-- What the decisions of packages/compiler/src/candidate-filter.ts are worth.
use ctxalloc.Shared.{
  ℕ, ◌+◌, ◌≤◌, ◌<◌, ◌≡◌, refl, subst, ap, ◌⊎◌, inl, inr, not, true, false, none, some, List, [],
  ◌∷◌, map, arith, Bool-cases, Option-cases, select, length, leb, weigh, weigh-map, weigh-partition,
  All, All-map, Table, get, text_key, Text,
}
use ctxalloc.Shared.Outcome.{returned}
use ctxalloc.Candidates.{
  Component, ScoredCandidate, ScoredCandidateSet, id_of, required_of, total_of,
}
use ctxalloc.Filter.Policy.{
  OnIncompleteEvidence, admit, reject, CandidateFilteringPolicy, base_of, evidence_policy,
}
use ctxalloc.Filter.Applicability.{ExclusionEvidence}
use ctxalloc.Filter.Decide.{
  Verdict, eligible_required, eligible_policy, eligible_incomplete_evidence,
  filtered_score_below_minimum, filtered_applicability, Decision, is_eligible,
  incomplete_components, decide_gaps, decide_threshold, decide, verdict_of, FilteredCandidateSet,
  filtered_set, filter,
}
use ctxalloc.Filter.Decisions.{filter-Filtered, returned-injective}

-- The candidates that are filtered out.
abbrev pub dropped : List Decision → List ScoredCandidate
dropped ds = map (λ d. d.candidate) (select (λ d. not (is_eligible d.verdict)) ds)

-- Each candidate of the batch is decided once, in the order of the batch, and those that are
-- eligible are together with those that are filtered the candidates of the batch, each as often.
pub filter-partitions :
    (p : CandidateFilteringPolicy) (input : ScoredCandidateSet) {r : FilteredCandidateSet}
    → filter p input ≡ returned r
    → (map (λ d. d.candidate) r.decisions ≡ input.candidates)
      × ((f : ScoredCandidate → ℕ)
          → weigh f r.eligible.candidates + weigh f (dropped r.decisions)
            ≡ weigh f input.candidates)
unfolding filtered_set
filter-partitions p input {r} h =
    let done = filter-Filtered p input h in
    (
      done.decides.same,
      λ f. omega (
        arith,
        ap (λ s. weigh f s.eligible.candidates) done.published,
        weigh-map f (λ (d : Decision). d.candidate)
            (select (λ d. is_eligible d.verdict) r.decisions),
        weigh-map f (λ (d : Decision). d.candidate)
            (select (λ d. not (is_eligible d.verdict)) r.decisions),
        weigh-partition (λ (d : Decision). f d.candidate) (λ d. is_eligible d.verdict) r.decisions,
        weigh-map f (λ (d : Decision). d.candidate) r.decisions,
        ap (weigh f) done.decides.same,
      ),
    )

-- What a verdict on a candidate says of it under the policy.
abbrev pub Justified : CandidateFilteringPolicy → ScoredCandidate → Verdict → Type 0
Justified p c eligible_required = required_of c ≡ true
Justified p c (eligible_policy t none) =
    (required_of c ≡ false) × ((base_of p).minimum_total_score ≡ none)
Justified p c (eligible_policy t (some minimum)) =
    (required_of c ≡ false)
    × ((base_of p).minimum_total_score ≡ some minimum)
    × (minimum ≤ total_of c)
Justified p c (eligible_incomplete_evidence t minimum gaps) =
    (required_of c ≡ false)
    × ((base_of p).minimum_total_score ≡ some minimum)
    × (total_of c < minimum)
    × (evidence_policy p ≡ some admit)
    × (incomplete_components c ≡ gaps)
    × (1 ≤ length gaps)
Justified p c (filtered_score_below_minimum t minimum) =
    (required_of c ≡ false)
    × ((base_of p).minimum_total_score ≡ some minimum)
    × (total_of c < minimum)
    × ((evidence_policy p ≡ none) ⊎ (incomplete_components c ≡ []))
Justified p c (filtered_applicability e) = Unit

gaps-Justified :
    (p : CandidateFilteringPolicy) (c : ScoredCandidate) (minimum : ℕ) (w : OnIncompleteEvidence)
    (gaps : List Component) (v : Verdict)
    → required_of c ≡ false
    → (base_of p).minimum_total_score ≡ some minimum
    → total_of c < minimum
    → evidence_policy p ≡ some w
    → incomplete_components c ≡ gaps
    → decide_gaps w c minimum gaps ≡ returned v
    → Justified p c v
unfolding decide_gaps
gaps-Justified p c minimum w [] v optional least low reads found h =
    subst (Justified p c) (returned-injective h) (optional, least, low, inr found)
gaps-Justified p c minimum reject (g ∷ gs) v optional least low reads found h = absurd (cc)
gaps-Justified p c minimum admit (g ∷ gs) v optional least low reads found h =
    subst (Justified p c) (returned-injective h) (optional, least, low, reads, found, omega arith)

threshold-Justified :
    (p : CandidateFilteringPolicy) (c : ScoredCandidate) (minimum : ℕ) (v : Verdict)
    → required_of c ≡ false
    → (base_of p).minimum_total_score ≡ some minimum
    → decide_threshold p c minimum ≡ returned v
    → Justified p c v
unfolding decide_threshold
threshold-Justified p c minimum v optional least h = elim (Bool-cases (leb minimum (total_of c))) [
  | inl high ↦
      subst (Justified p c) (returned-injective (rw high at h))
        (optional, least, ground (arith, high))
  | inr low ↦ elim (Option-cases (evidence_policy p)) [
    | inl blind ↦
        subst (Justified p c) (returned-injective (rw (low, blind) at h))
          (optional, least, ground (arith, low), inl blind)
    | inr (w, reads) ↦
        gaps-Justified p c minimum w (incomplete_components c) v optional least
          (ground (arith, low)) reads refl (rw (low, reads) at h)
  ]
]

decide-Justified :
    (p : CandidateFilteringPolicy) (c : ScoredCandidate) (v : Verdict)
    → decide p c ≡ returned v
    → Justified p c v
unfolding decide
decide-Justified p c v h = elim (Bool-cases (required_of c)) [
  | inl needed ↦ subst (Justified p c) (returned-injective (rw needed at h)) needed
  | inr optional ↦ elim (Option-cases (base_of p).minimum_total_score) [
    | inl free ↦
        subst (Justified p c) (returned-injective (rw (optional, free) at h)) (optional, free)
    | inr (minimum, least) ↦
        threshold-Justified p c minimum v optional least (rw (optional, least) at h)
  ]
]

verdict-Justified :
    (p : CandidateFilteringPolicy) (excluded : Table Text ExclusionEvidence) (c : ScoredCandidate)
    (v : Verdict)
    → verdict_of p excluded c ≡ returned v
    → Justified p c v
unfolding verdict_of
verdict-Justified p excluded c v h = elim (Option-cases (get (id_of c) excluded)) [
  | inl kept ↦ decide-Justified p c v (rw (verdict_of, kept) at h)
  | inr (e, out) ↦ subst (Justified p c) (returned-injective (rw (verdict_of, out) at h)) tt
]

-- Every verdict of a result but an exclusion for applicability holds of its candidate: a required
-- one is eligible as such; another one is eligible without a threshold or at a total that reaches
-- it, and below it only where the policy admits gaps and the evidence has some; and one that is
-- filtered for its score is below the threshold and, where the policy reads evidence, without gaps.
pub filter-justifies :
    (p : CandidateFilteringPolicy) (input : ScoredCandidateSet) {r : FilteredCandidateSet}
    → filter p input ≡ returned r
    → All (λ d. Justified p d.candidate d.verdict) r.decisions
filter-justifies p input {r} h =
    let done = filter-Filtered p input h in
    All-map r.decisions (λ d. verdict-Justified p done.excluded d.candidate d.verdict)
      done.decides.verdicts
