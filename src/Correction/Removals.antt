-- ===== src/Correction/Removals.antt =====
-- What the map `current` of `#settle` in packages/compiler/src/context-compiler.ts holds: the included
-- candidates without those that were evicted.
use ctxalloc.Shared.{
  ℕ, ◌+◌, ◌≤◌, ◌≡◌, refl, inl, inr, none, some, List, [], ◌∷◌, map, arith, Option-cases, weigh,
  count, one, All, All-put, Text, text_eq, text_eq_iff, text_eq_refl, Table, get, put, put-IsKeyed,
  text_key, IsKeyed,
}
use ctxalloc.Candidates.{ScoredCandidate, id_of}
use ctxalloc.Allocation.State.{Included}
use ctxalloc.Correction.Settle.{by_id, selected_by_id, remove, values}
use ctxalloc.Correction.Keys.{by_ids, IsOf}
use ctxalloc.Correction.Held.{Entry, HoldsKnown, known_or}

-- How many candidates have an identifier.
abbrev pub count_id : Text → List ScoredCandidate → ℕ
count_id t = count (λ c. text_eq (id_of c) t)

put-weigh :
    (f : ScoredCandidate → ℕ) (t : Text) (c : ScoredCandidate) (m : Table Text ScoredCandidate)
    → get t m ≡ none
    → weigh f (values (put t c m)) ≡ weigh f (values m) + f c
unfolding get put
put-weigh f t c [] h = omega arith
put-weigh f t c ((j, d) ∷ m) h = ground (arith, h, put-weigh f t c m)

held-count :
    (known m : Table Text ScoredCandidate) (t : Text) (c : ScoredCandidate)
    → All (λ e. Entry known e.0 e.1) m
    → get t m ≡ some c
    → 1 ≤ count_id t (values m)
unfolding get
held-count known [] t c h e = absurd (ground (arith, e))
held-count known ((j, d) ∷ m) t c h e =
    ground (arith, e, h.0.0, text_eq_iff j t, text_eq_iff (id_of d) t, held-count known m t c h.1)

-- A known candidate whose identifier is held is the one that is held.
pub count-held :
    (known m : Table Text ScoredCandidate) (t : Text) (e : ScoredCandidate)
    → All (λ e. Entry known e.0 e.1) m
    → get t known ≡ some e
    → 1 ≤ count_id t (values m)
    → get t m ≡ some e
unfolding get
count-held known [] t e h k l = absurd (omega (arith, l))
count-held known ((j, d) ∷ m) t e h k l = ground (
  arith,
  k,
  h.0.0,
  h.0.1,
  l,
  text_eq_iff j t,
  text_eq_iff (id_of d) t,
  count-held known m t e h.1 k,
)

pub remove-weigh :
    (f : ScoredCandidate → ℕ) (t : Text) (m : Table Text ScoredCandidate) (c : ScoredCandidate)
    → get t m ≡ some c
    → weigh f (values (remove t m)) + f c ≡ weigh f (values m)
unfolding get remove
remove-weigh f t [] c h = absurd (ground (arith, h))
remove-weigh f t ((j, d) ∷ m) c h = ground (arith, h, remove-weigh f t m c)

-- At its start `current` holds the included candidates.
pub selected_by_id-weigh :
    (eligible : List ScoredCandidate) (ds : List Included) (m : Table Text ScoredCandidate)
    → IsKeyed (by_ids eligible)
    → IsOf (by_ids eligible) (map (λ d. d.candidate) ds)
    → HoldsKnown (by_ids eligible) m
    → ((t : Text) → count_id t (values m) + count_id t (map (λ d. d.candidate) ds) ≤ 1)
    → (f : ScoredCandidate → ℕ)
    → weigh f (values (selected_by_id (by_id eligible []) ds m))
      ≡ weigh f (values m) + weigh f (map (λ d. d.candidate) ds)
unfolding selected_by_id
selected_by_id-weigh eligible [] m keyed known h once f = omega arith
selected_by_id-weigh eligible (d ∷ ds) m keyed known h once f =
    rw (known_or eligible d.candidate keyed known.0) (
      omega (
        arith,
        put-weigh f (id_of d.candidate) d.candidate m fresh,
        selected_by_id-weigh eligible ds (put (id_of d.candidate) d.candidate m) keyed known.1
            (
              All-put (Entry (by_ids eligible)) (id_of d.candidate) d.candidate m (refl, known.0)
                  h.0,
              put-IsKeyed (id_of d.candidate) d.candidate m h.1,
            )
            still_once f,
      ))
  where
    fresh : get (id_of d.candidate) m ≡ none
    fresh = elim (Option-cases (get (id_of d.candidate) m)) [
      | inl absent ↦ absent
      | inr (c, here) ↦ absurd (
          ground (
            arith,
            held-count (by_ids eligible) m (id_of d.candidate) c h.0 here,
            once (id_of d.candidate),
            text_eq_refl (id_of d.candidate),
          ))
    ]

    still_once :
        (t : Text)
        → count_id t (values (put (id_of d.candidate) d.candidate m))
            + count_id t (map (λ d. d.candidate) ds)
          ≤ 1
    still_once t = omega (
      arith,
      once t,
      put-weigh (λ c. one (text_eq (id_of c) t)) (id_of d.candidate) d.candidate m fresh,
    )
