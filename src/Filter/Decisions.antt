-- ===== src/Filter/Decisions.antt =====
-- The decisions of `CandidateFilter.filter` in packages/compiler/src/candidate-filter.ts.
use ctxalloc.Shared.{
  ◌≡◌, refl, ap, inl, inr, List, [], ◌∷◌, map, arith, Bool-cases, All, Table, text_key, Text,
}
use ctxalloc.Shared.Outcome.{Outcome, returned, thrown, after}
use ctxalloc.Candidates.{ScoredCandidate, ScoredCandidateSet}
use ctxalloc.Filter.Policy.{CandidateFilteringPolicy}
use ctxalloc.Filter.Applicability.{ExclusionEvidence}
use ctxalloc.Filter.Decide.{
  Decision, verdict_of, decide_all, resolve_policy, FilteredCandidateSet, filtered_set,
  is_incompatible, is_evidence_elsewhere, filter,
}

-- The two halves of a chain that returned.
pub record Steps {ℓ κ ν} {E : Type ℓ} {A : Type κ} {B : Type ν} (m : Outcome E A)
    (f : A → Outcome E B) (out : B) : Type (ℓ ⊔ (κ ⊔ ν)) where
  pub value : A
  pub first : m ≡ returned value
  pub second : f value ≡ returned out

pub after-Steps {ℓ κ ν} :
    {E : Type ℓ} {A : Type κ} {B : Type ν} (m : Outcome E A) (f : A → Outcome E B) {out : B}
    → after m f ≡ returned out
    → Steps m f out
after-Steps (thrown is) f h = absurd (cc)
after-Steps (returned x) f h = record { value = x; first = refl; second = h }

pub returned-injective {ℓ κ} :
    {E : Type ℓ} {A : Type κ} {a b : A} → ◌≡◌ {A = Outcome E A} (returned a) (returned b) → a ≡ b
returned-injective h = cc

-- Each candidate with its verdict, in the order of the batch.
pub record Decides (p : CandidateFilteringPolicy) (excluded : Table Text ExclusionEvidence)
    (cs : List ScoredCandidate) (ds : List Decision) : Type 0 where
  pub same : map (λ d. d.candidate) ds ≡ cs
  pub verdicts : All (λ d. verdict_of p excluded d.candidate ≡ returned d.verdict) ds

pub decide_all-Decides :
    (p : CandidateFilteringPolicy) (excluded : Table Text ExclusionEvidence)
    (cs : List ScoredCandidate) {ds : List Decision}
    → decide_all p excluded cs ≡ returned ds
    → Decides p excluded cs ds
unfolding decide_all
decide_all-Decides p excluded [] h =
    rw (← returned-injective h) (record { same = refl; verdicts = tt })
decide_all-Decides p excluded (c ∷ cs) h =
    let record { value = v; first = decided; second = others } =
      after-Steps (verdict_of p excluded c) _ h in
    let record { value = ds; first = rest; second = built } =
      after-Steps (decide_all p excluded cs) _ others in
    let below = decide_all-Decides p excluded cs rest in
    rw (← returned-injective built)
      (record { same = ap (λ xs. c ∷ xs) below.same; verdicts = (decided, below.verdicts) })

-- A result comes from the exclusions that the policy resolves to.
pub record Filtered (p : CandidateFilteringPolicy) (input : ScoredCandidateSet)
    (r : FilteredCandidateSet) : Type 0 where
  pub excluded : Table Text ExclusionEvidence
  pub resolved : resolve_policy p input ≡ returned excluded
  pub decides : Decides p excluded input.candidates r.decisions
  pub published : filtered_set p input r.decisions ≡ r

pub filter-Filtered :
    (p : CandidateFilteringPolicy) (input : ScoredCandidateSet) {r : FilteredCandidateSet}
    → filter p input ≡ returned r
    → Filtered p input r
unfolding filter filtered_set
filter-Filtered p input {r} h =
    let record { value = excluded; first = resolved; second = others } =
      after-Steps (resolve_policy p input) _ (passed h) in
    let record { value = ds; first = decided; second = built } =
      after-Steps (decide_all p excluded input.candidates) _ others in
    let same = returned-injective built in
    rw (← same) (record {
      excluded = excluded;
      resolved = resolved;
      decides = decide_all-Decides p excluded input.candidates decided;
      published = refl;
    })
  where
    passed :
        filter p input ≡ returned r
        → after (resolve_policy p input) (λ excluded.
          after (decide_all p excluded input.candidates) (λ ds. returned (filtered_set p input ds)))
          ≡ returned r
    passed h = elim (Bool-cases (is_incompatible p input)) [
      | inl bad ↦ absurd (ground (arith, bad, h))
      | inr good ↦ elim (Bool-cases (is_evidence_elsewhere input)) [
        | inl bad ↦ absurd (ground (arith, good, bad, h))
        | inr fine ↦ rw (good, fine) at h
      ]
    ]
