-- ===== src/Correction/Held.antt =====
-- The map `current` of `#settle` in packages/compiler/src/context-compiler.ts holds known candidates
-- under their identifiers.
use ctxalloc.Shared.{
  ◌≡◌, refl, subst, inl, inr, some, none, List, [], ◌∷◌, map, arith, Bool-cases, count, All,
  All-put, Text, text_eq, text_eq_iff, Table, get, put, get-put, put-IsKeyed, text_key, IsKeyed,
}
use ctxalloc.Candidates.{ScoredCandidate, id_of}
use ctxalloc.Allocation.State.{Included}
use ctxalloc.Correction.Settle.{by_id, or_else, selected_by_id, remove, values}
use ctxalloc.Correction.Keys.{by_ids, IsOf}
use ctxalloc.Correction.Visits.{IsSelection}

-- A map built of the candidates has them by identifier.
by_id-get :
    (cs : List ScoredCandidate) (m : Table Text ScoredCandidate) (t : Text)
    → IsKeyed (by_ids cs)
    → get t (by_id cs m) ≡ elim (get t (by_ids cs)) [ none ↦ get t m | some c ↦ some c ]
unfolding by_id get
by_id-get [] m t k = refl
by_id-get (c ∷ cs) m t k = ground (
  arith,
  by_id-get cs (put (id_of c) c m) t k.1,
  get-put (id_of c) t c m,
  text_eq_iff (id_of c) t,
  k.0,
)

-- Each entry is a known candidate under its identifier.
abbrev pub Entry : Table Text ScoredCandidate → Text → ScoredCandidate → Type 0
Entry known t c = (t ≡ id_of c) × (get t known ≡ some c)

abbrev pub HoldsKnown : Table Text ScoredCandidate → Table Text ScoredCandidate → Type 0
HoldsKnown known m = All (λ e. Entry known e.0 e.1) m × IsKeyed m

pub known_or :
    (eligible : List ScoredCandidate) (c : ScoredCandidate)
    → IsKeyed (by_ids eligible)
    → get (id_of c) (by_ids eligible) ≡ some c
    → or_else (get (id_of c) (by_id eligible [])) c ≡ c
unfolding get
known_or eligible c keyed h = ground (arith, by_id-get eligible [] (id_of c) keyed, h)

pub selected_by_id-HoldsKnown :
    (eligible : List ScoredCandidate) (ds : List Included) (m : Table Text ScoredCandidate)
    → IsKeyed (by_ids eligible)
    → IsOf (by_ids eligible) (map (λ d. d.candidate) ds)
    → HoldsKnown (by_ids eligible) m
    → HoldsKnown (by_ids eligible) (selected_by_id (by_id eligible []) ds m)
unfolding selected_by_id
selected_by_id-HoldsKnown eligible [] m keyed known h = h
selected_by_id-HoldsKnown eligible (d ∷ ds) m keyed known h =
    rw (known_or eligible d.candidate keyed known.0) (
      selected_by_id-HoldsKnown eligible ds (put (id_of d.candidate) d.candidate m) keyed known.1 (
        All-put (Entry (by_ids eligible)) (id_of d.candidate) d.candidate m (refl, known.0) h.0,
        put-IsKeyed (id_of d.candidate) d.candidate m h.1,
      ))

absent-remove :
    (t u : Text) (m : Table Text ScoredCandidate) → get u m ≡ none → get u (remove t m) ≡ none
unfolding remove get
absent-remove t u [] h = refl
absent-remove t u ((j, c) ∷ m) h = ground (arith, absent-remove t u m)

pub remove-HoldsKnown :
    (known : Table Text ScoredCandidate) (t : Text) (m : Table Text ScoredCandidate)
    → HoldsKnown known m
    → HoldsKnown known (remove t m)
unfolding remove get
remove-HoldsKnown known t [] h = h
remove-HoldsKnown known t ((j, c) ∷ m) h = elim (Bool-cases (text_eq j t)) [
  | inl here ↦ rw here (h.0.1, h.1.1)
  | inr gone ↦
      let rest = remove-HoldsKnown known t m (h.0.1, h.1.1) in
      rw gone ((h.0.0, rest.0), (absent-remove t j m h.1.0, rest.1))
]

absent-values :
    (known : Table Text ScoredCandidate) (m : Table Text ScoredCandidate) (t : Text)
    → All (λ e. Entry known e.0 e.1) m
    → get t m ≡ none
    → count (λ c. text_eq (id_of c) t) (values m) ≡ 0
unfolding get
absent-values known [] t h k = refl
absent-values known ((j, c) ∷ m) t h k = ground (arith, h.0.0, k, absent-values known m t h.1)

-- The values are a selection.
pub values-IsSelection :
    (known : Table Text ScoredCandidate) (m : Table Text ScoredCandidate)
    → HoldsKnown known m
    → IsSelection known (values m)
unfolding get
values-IsSelection known [] h = (tt, λ t. omega arith)
values-IsSelection known ((j, c) ∷ m) h =
    let rest = values-IsSelection known m (h.0.1, h.1.1) in
    (
      (subst (λ t. get t known ≡ some c) h.0.0.0 h.0.0.1, rest.0),
      λ t. ground (
        arith,
        h.0.0.0,
        text_eq_iff (id_of c) t,
        h.1.0,
        rest.1 t,
        absent-values known m t h.0.1,
        absent-values known m (id_of c) h.0.1,
      ),
    )
