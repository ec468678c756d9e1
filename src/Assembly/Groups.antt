-- ===== src/Assembly/Groups.antt =====
-- The decision of `finalDecisions` in packages/compiler/src/context-compiler.ts on one group.
use ctxalloc.Shared.{
  ℕ, ◌≤◌, ◌≡◌, refl, ap, subst, inl, inr, Bool, true, false, ◌&&◌, not, Option, none, some,
  Bool-cases, List, [], ◌∷◌, map, arith, All, All-map, weigh, weigh-map, weigh_cong, count, one,
  Text, text_eq, text_eq_iff, contains, Table, get, text_key, identity_key,
}
use ctxalloc.Candidates.{ScoredCandidate, id_of}
use ctxalloc.Filter.Decide.{
  Verdict, Decision, is_eligible, eligible_required, eligible_policy, eligible_incomplete_evidence,
  filtered_score_below_minimum, filtered_applicability,
}
use ctxalloc.Correction.Fallback.{Settlement}
use ctxalloc.Correction.Keys.{by_ids}
use ctxalloc.Assembly.Trace.{TraceGroup}
use ctxalloc.Assembly.Decisions.{
  FinalDecision, final_filtered, decided_id, filtered_reason, placed, final_decision,
}
use ctxalloc.Assembly.Result.{filtered_included}
use ctxalloc.Assembly.Verify.{all_decided, check_filtered, is_known}
use ctxalloc.Assembly.Sets.{met, contains-count, self_counted}

-- The groups have the identifiers of the decided candidates, each as often, and their verdicts.
abbrev pub Traces : List TraceGroup → List Decision → Type 0
Traces groups decisions =
    (f : Text → Bool → ℕ)
    → weigh (λ g. f g.block_id (is_eligible g.filtering)) groups
      ≡ weigh (λ d. f (id_of d.candidate) (is_eligible d.verdict)) decisions

-- The decision of a group from its verdict and its position.
abbrev pub decision_from : Settlement → TraceGroup → Verdict → Option ℕ → FinalDecision
decision_from s g v o = elim (filtered_reason v) [
  | some why ↦ final_filtered g.block_id why
  | none ↦ placed s g o
]

module _ (s : Settlement) (g : TraceGroup) where
  placed_id : (o : Option ℕ) → decided_id (placed s g o) ≡ g.block_id
  unfolding placed
  placed_id none = refl
  placed_id (some i) = refl

  pub decision_from_id :
      (o : Option ℕ) (v : Verdict) → decided_id (decision_from s g v o) ≡ g.block_id
  decision_from_id o eligible_required = placed_id o
  decision_from_id o (eligible_policy _ _) = placed_id o
  decision_from_id o (eligible_incomplete_evidence _ _ _) = placed_id o
  decision_from_id o (filtered_score_below_minimum _ _) = refl
  decision_from_id o (filtered_applicability _) = refl

  placed-none : (ids : List Text) (o : Option ℕ) → check_filtered ids (placed s g o) ≡ []
  unfolding placed
  placed-none ids none = refl
  placed-none ids (some i) = refl

  pub decision_from-none :
      (ids : List Text) (o : Option ℕ) (v : Verdict)
      → (is_eligible v ≡ false → contains ids g.block_id ≡ false)
      → check_filtered ids (decision_from s g v o) ≡ []
  decision_from-none ids o eligible_required h = placed-none ids o
  decision_from-none ids o (eligible_policy _ _) h = placed-none ids o
  decision_from-none ids o (eligible_incomplete_evidence _ _ _) h = placed-none ids o
  decision_from-none ids o (filtered_score_below_minimum _ _) h =
      met _ (filtered_included g.block_id) (ap not (h refl))
  decision_from-none ids o (filtered_applicability _) h =
      met _ (filtered_included g.block_id) (ap not (h refl))

pub decided-ids :
    (s : Settlement) (positions : Table Text ℕ) (groups : List TraceGroup)
    → map decided_id (map (final_decision s positions) groups) ≡ map (λ g. g.block_id) groups
unfolding final_decision
decided-ids s positions [] = refl
decided-ids s positions (g ∷ gs) =
    rw (decision_from_id s g (get g.block_id positions) g.filtering, decided-ids s positions gs)

pub all_decided-own :
    (gs : List TraceGroup) (ts : List Text)
    → All (λ g. contains ts g.block_id ≡ true) gs
    → all_decided gs ts ≡ true
unfolding all_decided
all_decided-own [] ts h = refl
all_decided-own (g ∷ gs) ts h = rw (h.0, all_decided-own gs ts h.1)

-- A member is listed by its identifier.
pub own_id :
    (gs : List TraceGroup) → All (λ g. contains (map (λ g. g.block_id) gs) g.block_id ≡ true) gs
own_id gs =
    All-map gs
      (λ g itself. contains-count (map (λ g. g.block_id) gs) g.block_id (
        omega (
          arith,
          itself refl,
          weigh-map (λ t. one (text_eq t g.block_id)) (λ (g : TraceGroup). g.block_id) gs,
          weigh_cong (λ (y : TraceGroup). one (text_eq y.block_id g.block_id && true))
              (λ y. one (text_eq y.block_id g.block_id)) gs (λ y. ground arith),
        )))
      (self_counted (λ _. true) (λ g. g.block_id) gs)

pub known-count :
    (cs : List ScoredCandidate) (t : Text)
    → is_known (get t (by_ids cs)) ≡ true
    → 1 ≤ count (λ c. text_eq (id_of c) t) cs
unfolding get
known-count [] t h = absurd (cc)
known-count (c ∷ cs) t h = ground (arith, h, known-count cs t)

pub All-contains {κ} :
    (P : Text → Type κ) (ts : List Text) (u : Text) → All P ts → contains ts u ≡ true → P u
unfolding contains
All-contains P [] u h e = absurd (cc)
All-contains P (t ∷ ts) u h e = elim (Bool-cases (text_eq t u)) [
  | inl same ↦ subst P ((text_eq_iff t u).0 same) h.0
  | inr other ↦ All-contains P ts u h.1 (ground (arith, e, other))
]
