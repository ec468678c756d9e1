-- ===== src/Assembly/Decided.antt =====
-- The decisions of `finalDecisions` in packages/compiler/src/context-compiler.ts, over the groups of a
-- trace, pass the checks of `verifyResult`.
use ctxalloc.Shared.{
  ℕ, ◌+◌, ◌≤◌, ◌≡◌, ap, ◌∙◌, inl, inr, Bool, true, false, ◌&&◌, not, Bool-cases, List, [], map,
  arith, if◌then◌else◌, length, length-map, ltb, ◌==◌, ==_iff, select, SameItems, All, All-map,
  All-under, weigh, weigh-map, weigh-select, weigh_cong, weigh_mono, weigh_add, weigh-one-length,
  count, one, Text, text_eq, contains, Table, get, text_key, identity_key,
}
use ctxalloc.Candidates.{ScoredCandidate, id_of}
use ctxalloc.Filter.Decide.{Decision, is_eligible}
use ctxalloc.Correction.Fallback.{Settlement}
use ctxalloc.Correction.Keys.{IsUnique}
use ctxalloc.Assembly.Numbers.{set_size}
use ctxalloc.Assembly.Trace.{TraceGroup, positions_from}
use ctxalloc.Assembly.Decisions.{final_decision}
use ctxalloc.Assembly.Result.{decisions_incomplete, positions_incomplete}
use ctxalloc.Assembly.Verify.{positions_of, all_below, all_decided, check_filtered, check_decisions}
use ctxalloc.Assembly.Sets.{AreNew, met, for_each-none, flat-none, set_size-length, self_counted}
use ctxalloc.Assembly.Places.{
  at, placements, indexed, positions-placements, decisions-weigh, positions_from-weigh,
  nothing-weigh, indexed-length, indexed-once, indexed-below, none_over-all_below,
}
use ctxalloc.Assembly.Groups.{
  Traces, decision_from-none, decided-ids, all_decided-own, own_id, All-contains,
}

abbrev no_positions : Table Text ℕ
no_positions = []

all_three : (a b c : Bool) → a ≡ true → b ≡ true → c ≡ true → (a && b && c) ≡ true
all_three a b c h k l = ground (arith, h, k, l)

module _ (groups : List TraceGroup) (decisions : List Decision) (ids : List Text) (s : Settlement)
    (traces : Traces groups decisions) (keyed : IsUnique (map (λ d. d.candidate) decisions))
    (unique : (t : Text) → count (λ u. text_eq u t) ids ≤ 1)
    (known : All
      (λ t.
        1
        ≤ count
            (λ c. text_eq (id_of c) t)
            (map (λ d. d.candidate) (select (λ (d : Decision). is_eligible d.verdict) decisions)))
      ids) where
  abbrev eligible : List ScoredCandidate
  eligible = map (λ d. d.candidate) (select (λ (d : Decision). is_eligible d.verdict) decisions)

  -- The eligible groups have the identifiers of the eligible candidates.
  eligible-weigh :
      (f : Text → ℕ)
      → weigh (λ g. if is_eligible g.filtering then f g.block_id else 0) groups
        ≡ weigh f (map id_of eligible)
  eligible-weigh f = omega (
    arith,
    traces (λ t e. if e then f t else 0),
    weigh-select (λ (d : Decision). f (id_of d.candidate)) (λ d. is_eligible d.verdict) decisions,
    weigh-map (λ c. f (id_of c)) (λ (d : Decision). d.candidate)
        (select (λ d. is_eligible d.verdict) decisions),
    weigh-map f id_of eligible,
  )

  group-once : (t : Text) → count (λ u. text_eq u t) (map (λ g. g.block_id) groups) ≤ 1
  group-once t = omega (
    arith,
    weigh-map (λ u. one (text_eq u t)) (λ (g : TraceGroup). g.block_id) groups,
    traces (λ u _. one (text_eq u t)),
    weigh-map (λ c. one (text_eq (id_of c) t)) (λ (d : Decision). d.candidate) decisions,
    keyed t,
  )

  -- An eligible identifier is that of no filtered group.
  filtered-absent :
      All (λ g. is_eligible g.filtering ≡ false → contains ids g.block_id ≡ false) groups
  filtered-absent =
      All-map groups
        (λ g itself gone. elim (Bool-cases (contains ids g.block_id)) [
          | inr out ↦ out
          | inl listed ↦ absurd (
              omega (
                arith,
                itself (ap not gone),
                All-contains _ ids g.block_id known listed,
                weigh-map (λ t. one (text_eq t g.block_id)) id_of eligible,
                eligible-weigh (λ t. one (text_eq t g.block_id)),
                weigh-map (λ u. one (text_eq u g.block_id)) (λ (y : TraceGroup). y.block_id) groups,
                weigh_add
                    (λ (y : TraceGroup).
                      one (text_eq y.block_id g.block_id && not (is_eligible y.filtering)))
                    (λ y.
                      if is_eligible y.filtering then one (text_eq y.block_id g.block_id) else 0)
                    groups,
                weigh_cong
                    (λ (y : TraceGroup).
                      one (text_eq y.block_id g.block_id && not (is_eligible y.filtering))
                      + (if is_eligible y.filtering
                          then one (text_eq y.block_id g.block_id)
                          else 0))
                    (λ y. one (text_eq y.block_id g.block_id)) groups (λ y. ground arith),
                group-once g.block_id,
              ))
        ])
        (self_counted (λ g. not (is_eligible g.filtering)) (λ g. g.block_id) groups)

  eligible-once : (t : Text) → count (λ c. text_eq (id_of c) t) eligible ≤ 1
  eligible-once t = omega (
    arith,
    keyed t,
    weigh-map (λ c. one (text_eq (id_of c) t)) (λ (d : Decision). d.candidate) decisions,
    weigh-map (λ c. one (text_eq (id_of c) t)) (λ (d : Decision). d.candidate)
        (select (λ d. is_eligible d.verdict) decisions),
    weigh-select (λ (d : Decision). one (text_eq (id_of d.candidate) t))
        (λ d. is_eligible d.verdict) decisions,
    weigh_mono
        (λ (d : Decision). if is_eligible d.verdict then one (text_eq (id_of d.candidate) t) else 0)
        (λ d. one (text_eq (id_of d.candidate) t)) decisions (λ d. ground arith),
  )

  ids-AreNew : AreNew ids no_positions
  unfolding get
  ids-AreNew y = omega (arith, unique y)

  -- The included decisions are the identifiers, each with its position.
  pub placements-indexed :
      SameItems
        (placements (map (final_decision s (positions_from 0 ids [])) groups))
        (indexed 0 ids)
  placements-indexed f =
      let h = λ (t : Text) (i : ℕ). f (t, i) in
      decisions-weigh h s (positions_from 0 ids []) groups
      ∙ eligible-weigh (λ t. at h t (get t (positions_from 0 ids [])))
      ∙ omega (
        arith,
        positions_from-weigh h (map id_of eligible) ids 0 [] ids-AreNew (
            All-map ids
              (λ t has.
                omega
                  (arith, has, eligible-once t, weigh-map (λ e. one (text_eq e t)) id_of eligible))
              known),
        nothing-weigh h (map id_of eligible),
      )

  positions-weigh :
      (h : ℕ → ℕ)
      → weigh h (positions_of (map (final_decision s (positions_from 0 ids [])) groups))
        ≡ weigh (λ e. h e.1) (indexed 0 ids)
  positions-weigh h =
      ap (weigh h) (positions-placements (map (final_decision s (positions_from 0 ids [])) groups))
      ∙ weigh-map h (λ (e : Text × ℕ). e.1)
          (placements (map (final_decision s (positions_from 0 ids [])) groups))
      ∙ placements-indexed (λ e. h e.1)

  -- The positions are those of the identifiers.
  positions : List ℕ
  positions = positions_of (map (final_decision s (positions_from 0 ids [])) groups)

  positions-length : length positions ≡ length ids
  unfolding positions
  positions-length =
      omega (arith, weigh-one-length positions, positions-weigh (λ _. 1), indexed-length 0 ids)

  positions_once : (n : ℕ) → count (λ p. p == n) positions ≤ 1
  unfolding positions
  positions_once n = ground (arith, positions-weigh (λ p. one (p == n)), indexed-once n 0 ids)

  positions_below : all_below (length ids) positions ≡ true
  unfolding positions
  positions_below = none_over-all_below (length ids) positions (
      omega (
        arith,
        positions-weigh (λ p. one (not (ltb p (length ids)))),
        indexed-below (length ids) 0 ids (omega arith),
      ))

  -- Each group is decided once.
  decided_once :
      (length (map (λ g. g.block_id) groups) == length groups
        && set_size (map (λ g. g.block_id) groups) == length (map (λ g. g.block_id) groups)
        && all_decided groups (map (λ g. g.block_id) groups))
      ≡ true
  decided_once =
      let ts = map (λ (g : TraceGroup). g.block_id) groups in
      all_three _ _ _
        ((==_iff (length ts) (length groups)).1
          (length-map (λ (g : TraceGroup). g.block_id) groups))
        ((==_iff (set_size ts) (length ts)).1 (set_size-length ts group-once))
        (all_decided-own groups ts (own_id groups))

  pub check_decisions-none :
      check_decisions groups (map (final_decision s (positions_from 0 ids [])) groups) ids ≡ []
  unfolding check_decisions final_decision positions
  check_decisions-none = flat-none _ (
    met _ decisions_incomplete (rw (decided-ids s (positions_from 0 ids []) groups) decided_once),
    (
      met _ positions_incomplete (
          all_three _ _ _ ((==_iff (length positions) (length ids)).1 positions-length)
            ((==_iff (set_size positions) (length ids)).1
              (set_size-length positions positions_once ∙ positions-length))
            positions_below),
      (
        for_each-none (check_filtered ids) _ (
            All-under _ (final_decision s (positions_from 0 ids [])) groups (
              All-map groups
                (λ g out.
                  decision_from-none s g ids (get g.block_id (positions_from 0 ids [])) g.filtering
                    out)
                filtered-absent)),
        tt,
      ),
    ),
  )
