-- ===== src/Assembly/Evidence.antt =====
-- What the maps of `build` in packages/compiler/src/compilation-trace.ts hold after the stages: every
-- candidate of the batch has its disposition.
use ctxalloc.Shared.{
  ℕ, ◌+◌, ◌≤◌, ◌≡◌, refl, ap, ◌∙◌, inl, inr, not, Bool, Option, some, Bool-cases, List, [], ◌∷◌,
  ◌++◌, map, arith, if◌then◌else◌, select, SameItems, All, All-map, All-both, All-over, weigh,
  weigh-map, weigh-append, weigh-partition, weigh_cong_All, count, one, Text, text_eq, Table, get,
  text_key,
}
use ctxalloc.Candidates.{ScoredCandidate, id_of}
use ctxalloc.Filter.Decide.{Decision, is_eligible}
use ctxalloc.Filter.Guarantees.{dropped}
use ctxalloc.Allocation.State.{Included, Excluded}
use ctxalloc.Allocation.Reconcile.{Allocated}
use ctxalloc.Allocation.Guarantees.{included_candidates, excluded_candidates}
use ctxalloc.Correction.Keys.{IsUnique}
use ctxalloc.Assembly.Trace.{
  AllocationDecision, included, excluded, Disposition, filtered_group, included_group,
  excluded_group, GroupEvidence, allocation_entries, enter_entries,
}
use ctxalloc.Assembly.Traced.{entries-found}
use ctxalloc.Assembly.Dispositions.{allocated_disposition, disposition_from, disposition_of}

-- The maps of a decided batch whose eligible candidates were allocated.
pub record IsEvidence (ds : List Decision) (a : Allocated) (ev : GroupEvidence) : Type 0 where
  pub unique : IsUnique (map (λ d. d.candidate) ds)
  pub decided : ev.filtering ≡ enter_entries (map (λ d. (id_of d.candidate, d)) ds) []
  pub scored :
      ev.score ≡ enter_entries (map (λ c. (id_of c, c.score)) (map (λ d. d.candidate) ds)) []
  pub allotted : ev.allocation ≡ enter_entries (allocation_entries a) []
  pub allocated :
      SameItems
        (included_candidates a ++ excluded_candidates a)
        (map (λ d. d.candidate) (select (λ d. is_eligible d.verdict) ds))

-- Of candidates with different identifiers, each is found under its own.
keyed-found {ℓ κ} :
    {A : Type ℓ} {V : Type κ} (key : A → Text) (value : A → V) (xs : List A) (m : Table Text V)
    → ((t : Text) → count (λ x. text_eq (key x) t) xs ≤ 1)
    → m ≡ enter_entries (map (λ x. (key x, value x)) xs) []
    → All (λ x. get (key x) m ≡ some (value x)) xs
keyed-found {V = V} key value xs m unique same =
    All-map xs (λ x found. ap (get (key x)) same ∙ found)
      (All-over _ (λ x. (key x, value x)) xs
        (entries-found (map (λ x. (key x, value x)) xs) [] (λ t. omega (
          arith,
          unique t,
          weigh-map (λ (e : Text × V). one (text_eq e.0 t)) (λ x. (key x, value x)) xs,
        ))))

-- A property of the members of two lists.
All-halves {ℓ κ} :
    {A : Type ℓ} (P : A → Type κ) (xs ys : List A) → All P (xs ++ ys) → All P xs × All P ys
All-halves P [] ys h = (tt, h)
All-halves P (x ∷ xs) ys h = let rest = All-halves P xs ys h.1 in ((h.0, rest.0), rest.1)

-- A weight that depends on a test.
weigh-if {ℓ} :
    {A : Type ℓ} (p : A → Bool) (f g : A → ℕ) (xs : List A)
    → weigh (λ x. if p x then f x else g x) xs
      ≡ weigh f (select p xs) + weigh g (select (λ x. not (p x)) xs)
weigh-if p f g [] = refl
weigh-if p f g (x ∷ xs) = ground (arith, weigh-if p f g xs)

module _ (ds : List Decision) (a : Allocated) (ev : GroupEvidence)
    (facts : IsEvidence ds a ev) where
  abbrev eligible : List ScoredCandidate
  eligible = map (λ d. d.candidate) (select (λ d. is_eligible d.verdict) ds)

  eligible-IsUnique : IsUnique eligible
  eligible-IsUnique t = omega (
    arith,
    facts.unique t,
    weigh-map (λ c. one (text_eq (id_of c) t)) (λ (d : Decision). d.candidate)
        (select (λ d. is_eligible d.verdict) ds),
    weigh-map (λ c. one (text_eq (id_of c) t)) (λ (d : Decision). d.candidate) ds,
    weigh-partition (λ (d : Decision). one (text_eq (id_of d.candidate) t))
        (λ d. is_eligible d.verdict) ds,
  )

  allotted-found : All (λ e. get e.0 ev.allocation ≡ some e.1) (allocation_entries a)
  allotted-found = rw facts.allotted (
      entries-found (allocation_entries a) [] (λ t. omega (
        arith,
        eligible-IsUnique t,
        facts.allocated (λ c. one (text_eq (id_of c) t)),
        weigh-append (λ c. one (text_eq (id_of c) t)) (included_candidates a)
            (excluded_candidates a),
        weigh-append (λ (e : Text × AllocationDecision). one (text_eq e.0 t))
            (map (λ (d : Included). (id_of d.candidate, included d.reason)) a.included)
            (map (λ (d : Excluded). (id_of d.candidate, excluded d.reason)) a.excluded),
        weigh-map (λ (e : Text × AllocationDecision). one (text_eq e.0 t))
            (λ (d : Included). (id_of d.candidate, included d.reason)) a.included,
        weigh-map (λ (e : Text × AllocationDecision). one (text_eq e.0 t))
            (λ (d : Excluded). (id_of d.candidate, excluded d.reason)) a.excluded,
        weigh-map (λ c. one (text_eq (id_of c) t)) (λ (d : Included). d.candidate) a.included,
        weigh-map (λ c. one (text_eq (id_of c) t)) (λ (d : Excluded). d.candidate) a.excluded,
      )))

  module _ (f : Text → Option Disposition → ℕ) where
    abbrev as_allotted : Text → ℕ
    as_allotted t = f t (allocated_disposition (get t ev.allocation))

    allotted-weigh :
        weigh (λ c. as_allotted (id_of c)) eligible
        ≡ weigh (λ c. f (id_of c) (some included_group)) (included_candidates a)
          + weigh (λ c. f (id_of c) (some excluded_group)) (excluded_candidates a)
    allotted-weigh =
        let found =
          All-halves (λ e. get e.0 ev.allocation ≡ some e.1)
            (map (λ (d : Included). (id_of d.candidate, included d.reason)) a.included)
            (map (λ (d : Excluded). (id_of d.candidate, excluded d.reason)) a.excluded)
            allotted-found in
        let shown = λ (c : ScoredCandidate). as_allotted (id_of c) in
        omega (
          arith,
          facts.allocated shown,
          weigh-append shown (included_candidates a) (excluded_candidates a),
          weigh-map shown (λ (d : Included). d.candidate) a.included,
          weigh-map shown (λ (d : Excluded). d.candidate) a.excluded,
          weigh-map (λ c. f (id_of c) (some included_group)) (λ (d : Included). d.candidate)
              a.included,
          weigh-map (λ c. f (id_of c) (some excluded_group)) (λ (d : Excluded). d.candidate)
              a.excluded,
          weigh_cong_All (λ (d : Included). shown d.candidate)
              (λ d. f (id_of d.candidate) (some included_group)) a.included
              (All-map a.included
                (λ d e. ap (λ o. f (id_of d.candidate) (allocated_disposition o)) e)
                (All-over _ (λ (d : Included). (id_of d.candidate, included d.reason)) a.included
                  found.0)),
          weigh_cong_All (λ (d : Excluded). shown d.candidate)
              (λ d. f (id_of d.candidate) (some excluded_group)) a.excluded
              (All-map a.excluded
                (λ d e. ap (λ o. f (id_of d.candidate) (allocated_disposition o)) e)
                (All-over _ (λ (d : Excluded). (id_of d.candidate, excluded d.reason)) a.excluded
                  found.1)),
        )

    disposed_by :
        (d : Decision)
        → get (id_of d.candidate) ev.filtering ≡ some d
        → get (id_of d.candidate) ev.score ≡ some d.candidate.score
        → f (id_of d.candidate) (disposition_of ev (id_of d.candidate)) ≡ (
            if is_eligible d.verdict
            then as_allotted (id_of d.candidate)
            else f (id_of d.candidate) (some filtered_group))
    disposed_by d decided scored =
        let t = id_of d.candidate in
        ap (λ o. f t (disposition_from o (get t ev.score) (get t ev.allocation))) decided
        ∙ ap (λ o. f t (disposition_from (some d) o (get t ev.allocation))) scored
        ∙ elim (Bool-cases (is_eligible d.verdict)) [
          | inl kept ↦ rw (disposition_from, kept) refl
          | inr gone ↦ rw (disposition_from, gone) refl
        ]

    pub dispositions-weigh :
        weigh (λ d. f (id_of d.candidate) (disposition_of ev (id_of d.candidate))) ds
        ≡ weigh (λ c. f (id_of c) (some filtered_group)) (dropped ds)
          + (weigh (λ c. f (id_of c) (some included_group)) (included_candidates a)
              + weigh (λ c. f (id_of c) (some excluded_group)) (excluded_candidates a))
    dispositions-weigh =
        let cs = map (λ (d : Decision). d.candidate) ds in
        let decided =
          keyed-found (λ (d : Decision). id_of d.candidate) (λ d. d) ds ev.filtering
            (λ t. omega (
              arith,
              facts.unique t,
              weigh-map (λ c. one (text_eq (id_of c) t)) (λ (d : Decision). d.candidate) ds,
            ))
            facts.decided in
        let scored =
          All-over _ (λ (d : Decision). d.candidate) ds
            (keyed-found id_of (λ c. c.score) cs ev.score facts.unique facts.scored) in
        weigh_cong_All _ _ ds
          (All-map ds (λ d found. disposed_by d found.0 found.1) (All-both _ _ ds decided scored))
        ∙ omega (
          arith,
          allotted-weigh,
          weigh-if (λ (d : Decision). is_eligible d.verdict) (λ d. as_allotted (id_of d.candidate))
              (λ d. f (id_of d.candidate) (some filtered_group)) ds,
          weigh-map (λ c. as_allotted (id_of c)) (λ (d : Decision). d.candidate)
              (select (λ d. is_eligible d.verdict) ds),
          weigh-map (λ c. f (id_of c) (some filtered_group)) (λ (d : Decision). d.candidate)
              (select (λ d. not (is_eligible d.verdict)) ds),
        )
