-- ===== src/Correction/Keys.antt =====
-- A selection's key in packages/compiler/src/context-compiler.ts stands for its candidates: two
-- selections with one key render alike.
use ctxalloc.Shared.{
  ◌≤◌, ◌≡◌, ◌≢◌, refl, sym, ap, subst, ◌∙◌, inl, inr, Option, none, some, List, [], ◌∷◌, map, arith,
  Bool-cases, Ordering, Text, text_eq, text_eq_iff, text_eq_refl, compare_code_units,
  compare_code_units-eq, insert, sort, in_order, All, count, Table, get, text_key, Distinct,
  sort_perm,
}
use mathlib.Core.List.{Permᴰ}
use mathlib.Core.List.Permᴰ
use ctxalloc.Shared.Json.{array, strings}
use ctxalloc.Canonical.{canonical_json}
use ctxalloc.Domain.ContextBlock.{ContextBlock}
use ctxalloc.Candidates.{ScoredCandidate, block_of, id_of}
use ctxalloc.Orderer.Order.{order_candidates_for_rendering}
use ctxalloc.Orderer.Compare.{compare_blocks}
use ctxalloc.Orderer.Lawful.{compare_blocks-IsComparator}
use ctxalloc.Renderer.RoundTrip.{read_array-items}
use ctxalloc.Renderer.Reader.{read_array}
use ctxalloc.Correction.Measure.{selection_key, blocks_of, arranged}

insert-perm {ℓ} :
    {A : Type ℓ} (cmp : A → A → Ordering) (x : A) (xs : List A) → Permᴰ (x ∷ xs) (insert cmp x xs)
unfolding insert
insert-perm cmp x [] = Permᴰ.refl (x ∷ [])
insert-perm cmp x (y ∷ ys) = elim (Bool-cases (in_order (cmp x y))) [
  | inl here ↦ rw here (Permᴰ.refl (x ∷ y ∷ ys))
  | inr later ↦
      rw later (Permᴰ.trans (Permᴰ.swap refl refl) (Permᴰ.cons refl (insert-perm cmp x ys)))
]

sort-perm {ℓ} : {A : Type ℓ} (cmp : A → A → Ordering) (xs : List A) → Permᴰ xs (sort cmp xs)
unfolding sort
sort-perm cmp [] = Permᴰ.nil
sort-perm cmp (x ∷ xs) =
    Permᴰ.trans (Permᴰ.cons refl (sort-perm cmp xs)) (insert-perm cmp x (sort cmp xs))

map-perm {ℓ κ} :
    {A : Type ℓ} {B : Type κ} (f : A → B) {xs ys : List A}
    → Permᴰ xs ys
    → Permᴰ (map f xs) (map f ys)
map-perm f Permᴰ.nil = Permᴰ.nil
map-perm f (Permᴰ.cons e p) = Permᴰ.cons (ap f e) (map-perm f p)
map-perm f (Permᴰ.swap e d) = Permᴰ.swap (ap f e) (ap f d)
map-perm f (Permᴰ.trans p q) = Permᴰ.trans (map-perm f p) (map-perm f q)

after_bracket : Text → Text
after_bracket [] = []
after_bracket (c ∷ t) = t

first_of : Option (List Text × Text) → List Text
first_of none = []
first_of (some r) = r.0

-- Texts are read back from the array that they are written to.
strings-injective :
    (ts us : List Text)
    → canonical_json (array (strings ts)) ≡ canonical_json (array (strings us))
    → ts ≡ us
unfolding canonical_json after_bracket first_of
strings-injective ts us h = ap first_of (
    sym (read_array-items ts [])
    ∙ ap (λ t. read_array (after_bracket t)) h
    ∙ read_array-items us [])

-- The candidates by identifier.
abbrev pub by_ids : List ScoredCandidate → Table Text ScoredCandidate
by_ids cs = map (λ c. (id_of c, c)) cs

-- Every member is what the table has under its identifier.
abbrev pub IsOf : Table Text ScoredCandidate → List ScoredCandidate → Type 0
IsOf known = All (λ c. get (id_of c) known ≡ some c)

-- No identifier occurs twice.
abbrev pub IsUnique : List ScoredCandidate → Type 0
IsUnique cs = (t : Text) → count (λ c. text_eq (id_of c) t) cs ≤ 1

abbrev or_spare : ContextBlock → Option ScoredCandidate → ContextBlock
or_spare spare none = spare
or_spare spare (some c) = block_of c

abbrev block_under : ContextBlock → Table Text ScoredCandidate → Text → ContextBlock
block_under spare known t = or_spare spare (get t known)

-- The blocks are recovered from their identifiers.
recovered :
    (spare : ContextBlock) (known : Table Text ScoredCandidate) (cs : List ScoredCandidate)
    → IsOf known cs
    → map (block_under spare known) (map (λ b. b.id) (blocks_of cs)) ≡ blocks_of cs
recovered spare known [] h = refl
recovered spare known (c ∷ cs) h = rw (h.0, recovered spare known cs h.1)

same_id : (a b : ContextBlock) → compare_blocks a b ≡ Ordering.eq → a.id ≡ b.id
unfolding compare_blocks
same_id a b h = compare_code_units-eq a.id b.id (ground (arith, h))

other_ids :
    (c : ScoredCandidate) (cs : List ScoredCandidate)
    → count (λ d. text_eq (id_of d) (id_of c)) cs ≡ 0
    → All (λ b. compare_blocks (block_of c) b ≢ Ordering.eq) (blocks_of cs)
other_ids c [] h = tt
other_ids c (d ∷ ds) h = (
  λ tied.
      absurd (
        ground (arith, h, same_id (block_of c) (block_of d) tied, text_eq_iff (id_of d) (id_of c))),
  other_ids c ds (ground (arith, h)),
)

IsUnique-Distinct :
    (cs : List ScoredCandidate) → IsUnique cs → Distinct compare_blocks (blocks_of cs)
IsUnique-Distinct [] u = tt
IsUnique-Distinct (c ∷ cs) u = (
  other_ids c cs (ground (arith, u (id_of c), text_eq_refl (id_of c))),
  IsUnique-Distinct cs (λ t. ground (arith, u t)),
)

perm_of_key :
    (bs cs : List ContextBlock)
    → selection_key bs ≡ selection_key cs
    → Permᴰ (map (λ b. b.id) bs) (map (λ b. b.id) cs)
unfolding selection_key
perm_of_key bs cs h =
    let same =
      strings-injective (sort compare_code_units (map (λ b. b.id) bs))
        (sort compare_code_units (map (λ b. b.id) cs)) h in
    Permᴰ.trans (sort-perm compare_code_units (map (λ b. b.id) bs)) (
      subst (λ ts. Permᴰ ts (map (λ b. b.id) cs)) (sym same)
        (Permᴰ.symm (sort-perm compare_code_units (map (λ b. b.id) cs))))

perm_nil {ℓ} : {A : Type ℓ} {xs ys : List A} → Permᴰ xs ys → xs ≡ [] → ys ≡ []
perm_nil Permᴰ.nil e = refl
perm_nil (Permᴰ.cons _ p) e = absurd (ground (arith, e))
perm_nil (Permᴰ.swap _ _) e = absurd (ground (arith, e))
perm_nil (Permᴰ.trans p q) e = perm_nil q (perm_nil p e)

no_blocks : (cs : List ScoredCandidate) → map (λ b. b.id) (blocks_of cs) ≡ [] → [] ≡ blocks_of cs
no_blocks [] h = refl
no_blocks (c ∷ cs) h = absurd (ground (arith, h))

-- Two selections of known candidates, of which the first repeats none, with one key are arranged
-- alike.
pub arranged-selection_key :
    (known : Table Text ScoredCandidate) (cs ds : List ScoredCandidate)
    → IsOf known cs
    → IsOf known ds
    → IsUnique cs
    → selection_key (blocks_of cs) ≡ selection_key (blocks_of ds)
    → arranged (blocks_of cs) ≡ arranged (blocks_of ds)
unfolding arranged order_candidates_for_rendering
arranged-selection_key known [] ds of_cs of_ds u h =
    ap (sort compare_blocks) (no_blocks ds (perm_nil (perm_of_key [] (blocks_of ds) h) refl))
arranged-selection_key known (c ∷ cs) ds of_cs of_ds u h =
    let spare = block_of c in
    sort_perm compare_blocks compare_blocks-IsComparator
      (subst (λ bs. Permᴰ bs (blocks_of ds)) (recovered spare known (c ∷ cs) of_cs)
        (subst (Permᴰ (map (block_under spare known) (map (λ b. b.id) (blocks_of (c ∷ cs)))))
          (recovered spare known ds of_ds)
          (map-perm (block_under spare known) (perm_of_key (blocks_of (c ∷ cs)) (blocks_of ds) h))))
      (IsUnique-Distinct (c ∷ cs) u)
