-- ===== src/Assembly/Places.antt =====
-- The render positions that `finalDecisions` of packages/compiler/src/context-compiler.ts gives to
-- groups.
use ctxalloc.Shared.{
  ℕ, ◌+◌, ◌≤◌, ◌≡◌, refl, sym, ap, ◌∙◌, inl, inr, Bool, true, not, Option, none, some, Bool-cases,
  List, [], ◌∷◌, map, arith, if◌then◌else◌, length, ltb, leb, ◌==◌, All, weigh, weigh-map,
  weigh-zero, weigh_cong, count, one, Text, text_eq, text_eq_iff, Table, get, put, get-put,
  text_key,
}
use ctxalloc.Filter.Decide.{
  Verdict, is_eligible, eligible_required, eligible_policy, eligible_incomplete_evidence,
  filtered_score_below_minimum, filtered_applicability,
}
use ctxalloc.Correction.Fallback.{Settlement}
use ctxalloc.Correction.Distinct.{count_none}
use ctxalloc.Assembly.Trace.{TraceGroup, positions_from}
use ctxalloc.Assembly.Decisions.{
  FinalDecision, final_filtered, final_included, final_excluded, filtered_reason, placed,
  final_decision,
}
use ctxalloc.Assembly.Verify.{positions_of, all_below}
use ctxalloc.Assembly.Sets.{AreNew, AreNew-head, AreNew-tail}

-- The weight of a text with its position, where there is one.
abbrev pub at : (Text → ℕ → ℕ) → Text → Option ℕ → ℕ
at h t none = 0
at h t (some i) = h t i

-- The blocks that are included by some decisions, with their positions.
unfoldable pub placements : List FinalDecision → List (Text × ℕ)
placements [] = []
placements (final_filtered _ _ ∷ ds) = placements ds
placements (final_included t _ i ∷ ds) = (t, i) ∷ placements ds
placements (final_excluded _ _ _ ∷ ds) = placements ds

-- Some texts with their positions, from a number on.
unfoldable pub indexed : ℕ → List Text → List (Text × ℕ)
indexed i [] = []
indexed i (t ∷ ts) = (t, i) ∷ indexed (i + 1) ts

pub positions-placements :
    (ds : List FinalDecision) → positions_of ds ≡ map (λ e. e.1) (placements ds)
unfolding positions_of placements
positions-placements [] = refl
positions-placements (final_filtered _ _ ∷ ds) = positions-placements ds
positions-placements (final_included t _ i ∷ ds) = ap (λ ps. i ∷ ps) (positions-placements ds)
positions-placements (final_excluded _ _ _ ∷ ds) = positions-placements ds

abbrev decision_weight : (Text → ℕ → ℕ) → FinalDecision → ℕ
decision_weight h (final_filtered t _) = 0
decision_weight h (final_included t _ i) = h t i
decision_weight h (final_excluded t _ _) = 0

placements-weigh :
    (h : Text → ℕ → ℕ) (ds : List FinalDecision)
    → weigh (λ e. h e.0 e.1) (placements ds) ≡ weigh (decision_weight h) ds
unfolding placements
placements-weigh h [] = refl
placements-weigh h (final_filtered t _ ∷ ds) = omega (arith, placements-weigh h ds)
placements-weigh h (final_included t _ i ∷ ds) = omega (arith, placements-weigh h ds)
placements-weigh h (final_excluded t _ _ ∷ ds) = omega (arith, placements-weigh h ds)

module _ (h : Text → ℕ → ℕ) (s : Settlement) where
  placed-weight :
      (g : TraceGroup) (o : Option ℕ) → decision_weight h (placed s g o) ≡ at h g.block_id o
  unfolding placed
  placed-weight g none = refl
  placed-weight g (some i) = refl

  verdict-weight :
      (g : TraceGroup) (o : Option ℕ) (v : Verdict)
      → decision_weight h (elim (filtered_reason v) [
        | some why ↦ final_filtered g.block_id why
        | none ↦ placed s g o
      ])
        ≡ (if is_eligible v then at h g.block_id o else 0)
  verdict-weight g o eligible_required = placed-weight g o
  verdict-weight g o (eligible_policy _ _) = placed-weight g o
  verdict-weight g o (eligible_incomplete_evidence _ _ _) = placed-weight g o
  verdict-weight g o (filtered_score_below_minimum _ _) = refl
  verdict-weight g o (filtered_applicability _) = refl

  -- The placements of the decisions are those of the eligible groups.
  pub decisions-weigh :
      (positions : Table Text ℕ) (groups : List TraceGroup)
      → weigh (λ e. h e.0 e.1) (placements (map (final_decision s positions) groups))
        ≡ weigh
            (λ g. if is_eligible g.filtering then at h g.block_id (get g.block_id positions) else 0)
            groups
  unfolding final_decision
  decisions-weigh positions groups =
      placements-weigh h (map (final_decision s positions) groups)
      ∙ weigh-map (decision_weight h) (final_decision s positions) groups
      ∙ weigh_cong _ _ groups (λ g. verdict-weight g (get g.block_id positions) g.filtering)

exactly_once :
    (p : Text → Bool) (k : ℕ) (ts : List Text)
    → count p ts ≡ 1
    → weigh (λ t. if p t then k else 0) ts ≡ k
exactly_once p k [] e = absurd (omega (arith, e))
exactly_once p k (t ∷ ts) e = ground (arith, e, count_none p k ts, exactly_once p k ts)

module _ (h : Text → ℕ → ℕ) (es : List Text) where
  put-one :
      (t e : Text) (i : ℕ) (m : Table Text ℕ)
      → get t m ≡ none
      → at h e (get e (put t i m)) ≡ at h e (get e m) + (if text_eq e t then h t i else 0)
  put-one t e i m new = elim (Bool-cases (text_eq e t)) [
    | inl same ↦
        let eq = (text_eq_iff e t).0 same in
        ground (
          arith,
          same,
          get-put t e i m,
          (text_eq_iff t e).1 (sym eq),
          ap (λ u. get u m) eq,
          ap (λ u. h u i) eq,
          new,
        )
    | inr other ↦ ground (arith, other, get-put t e i m, text_eq_iff t e, text_eq_iff e t)
  ]

  put-weigh :
      (t : Text) (i : ℕ) (m : Table Text ℕ) (es : List Text)
      → get t m ≡ none
      → weigh (λ e. at h e (get e (put t i m))) es
        ≡ weigh (λ e. at h e (get e m)) es + weigh (λ e. if text_eq e t then h t i else 0) es
  put-weigh t i m [] new = omega arith
  put-weigh t i m (e ∷ es) new = omega (arith, put-one t e i m new, put-weigh t i m es new)

  -- Where each of the texts occurs once in a list, the list has their positions.
  pub positions_from-weigh :
      (ts : List Text) (i : ℕ) (m : Table Text ℕ)
      → AreNew ts m
      → All (λ t. count (λ e. text_eq e t) es ≡ 1) ts
      → weigh (λ e. at h e (get e (positions_from i ts m))) es
        ≡ weigh (λ e. at h e (get e m)) es + weigh (λ e. h e.0 e.1) (indexed i ts)
  unfolding positions_from indexed
  positions_from-weigh [] i m new once = omega arith
  positions_from-weigh (t ∷ ts) i m new once = omega (
    arith,
    positions_from-weigh ts (i + 1) (put t i m) (AreNew-tail t ts i m new) once.1,
    put-weigh t i m es (AreNew-head t ts m new),
    exactly_once (λ e. text_eq e t) (h t i) es once.0,
  )

  pub nothing-weigh : weigh (λ e. at h e (get e [])) es ≡ 0
  unfolding get
  nothing-weigh = weigh-zero es

pub indexed-length : (i : ℕ) (ts : List Text) → weigh (λ _. 1) (indexed i ts) ≡ length ts
unfolding indexed
indexed-length i [] = refl
indexed-length i (t ∷ ts) = omega (arith, indexed-length (i + 1) ts)

pub indexed-once :
    (n i : ℕ) (ts : List Text) → weigh (λ e. one (e.1 == n)) (indexed i ts) ≤ one (leb i n)
unfolding indexed
indexed-once n i [] = omega arith
indexed-once n i (t ∷ ts) = ground (arith, indexed-once n (i + 1) ts)

pub indexed-below :
    (n i : ℕ) (ts : List Text)
    → i + length ts ≤ n
    → weigh (λ e. one (not (ltb e.1 n))) (indexed i ts) ≡ 0
unfolding indexed
indexed-below n i [] h = refl
indexed-below n i (t ∷ ts) h = ground (arith, h, indexed-below n (i + 1) ts (omega (arith, h)))

pub none_over-all_below :
    (n : ℕ) (ps : List ℕ) → weigh (λ p. one (not (ltb p n))) ps ≡ 0 → all_below n ps ≡ true
unfolding all_below
none_over-all_below n [] h = refl
none_over-all_below n (p ∷ ps) h = ground (arith, h, none_over-all_below n ps)
