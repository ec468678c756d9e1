-- ===== src/Deduplication/Choice.antt =====
-- Which block `selectCanonical` of packages/compiler/src/candidate-deduplicator.ts chooses among the
-- distinct blocks of a group.
use ctxalloc.Shared.{
  ℕ, ◌≤◌, ◌≡◌, refl, sym, subst, ◌∙◌, inl, inr, Bool, true, false, some, List, [], ◌∷◌, arith,
  Ordering, in_order, Bool-cases, compare_code_units, compare_code_units_refl, select, weigh, All,
  All-map, All-both, IsSorted,
}
use ctxalloc.Domain.ContextBlock.{ContextBlock, is_required}
use ctxalloc.Candidates.{
  CanonicalSelectionReason, single_block, required_block, required_then_stable_block_id,
  stable_block_id,
}
use ctxalloc.Deduplication.Deduplicate.{compare_block_ids, among_required, choose_canonical}

-- A block is preferred: it is required where the other one is, and of two that are alike in that it
-- has the smaller identifier.
abbrev pub Prefers : ContextBlock → ContextBlock → Type 0
Prefers a b =
    (is_required b ≡ true → is_required a ≡ true)
    × (is_required a ≡ is_required b → in_order (compare_code_units a.id b.id) ≡ true)

-- The choice is one of the blocks and preferred to all of them.
pub record Chosen (a : ContextBlock) (bs : List ContextBlock) : Type 0 where
  pub from_blocks : (f : ContextBlock → ℕ) → f a ≤ weigh f bs
  pub preferred : All (Prefers a) bs

module _ {ℓ} {A : Type ℓ} (cmp : A → A → Ordering) (p : A → Bool)
    (reflexive : (x : A) → in_order (cmp x x) ≡ true) where
  -- A member with the property that comes before every other one with it.
  abbrev Leads : A → List A → Type ℓ
  Leads r bs =
      (p r ≡ true)
      × ((f : A → ℕ) → f r ≤ weigh f bs)
      × All (λ x. p x ≡ true → in_order (cmp r x) ≡ true) bs

  select-here :
      (b : A) (bs : List A) (r : A) (rs : List A) → p b ≡ true → select p (b ∷ bs) ≡ r ∷ rs → b ≡ r
  select-here b bs r rs holds h = ground arith

  -- The first of a sorted list with a property comes before every other one with it.
  select-first :
      (bs : List A) (r : A) (rs : List A) → IsSorted cmp bs → select p bs ≡ r ∷ rs → Leads r bs
  select-first [] r rs s h = absurd (ground arith)
  select-first (b ∷ bs) r rs s h = elim (Bool-cases (p b)) [
    | inl holds ↦
        subst (λ x. Leads x (b ∷ bs)) (select-here b bs r rs holds h)
          (holds, (λ f. omega arith), ((λ _. reflexive b), All-map bs (λ x e _. e) s.0))
    | inr fails ↦
        let rest = select-first bs r rs s.1 (ground arith) in
        (rest.0, (λ f. omega (arith, rest.1 f)), ((λ wanted. absurd (ground arith)), rest.2))
  ]

  select-none : (bs : List A) → select p bs ≡ [] → All (λ x. p x ≡ false) bs
  select-none [] h = tt
  select-none (b ∷ bs) h = (ground arith, select-none bs (ground arith))

compare_block_ids_refl : (b : ContextBlock) → in_order (compare_block_ids b b) ≡ true
unfolding compare_block_ids
compare_block_ids_refl b = rw (compare_code_units_refl b.id) refl

-- Where no block is required, the first of the sorted blocks is preferred.
first-Chosen :
    (b : ContextBlock) (bs : List ContextBlock)
    → IsSorted compare_block_ids (b ∷ bs)
    → All (λ x. is_required x ≡ false) (b ∷ bs)
    → Chosen b (b ∷ bs)
unfolding compare_block_ids
first-Chosen b bs s none_required = record {
  from_blocks = λ f. omega arith;
  preferred = (
    (λ e. e, λ _. compare_block_ids_refl b),
    All-map bs (λ x (before, unwanted). ((λ wanted. absurd (ground arith)), (λ _. before)))
        (All-both _ _ bs s.0 none_required.1),
  );
}

required-Chosen :
    (r : ContextBlock) (rs bs : List ContextBlock)
    → IsSorted compare_block_ids bs
    → select is_required bs ≡ r ∷ rs
    → Chosen r bs
required-Chosen r rs bs s h =
    let first = select-first compare_block_ids is_required compare_block_ids_refl bs r rs s h in
    record {
      from_blocks = first.1;
      preferred =
          unfold compare_block_ids in
          All-map bs (λ x before. (λ _. first.0, λ e. before (sym e ∙ first.0))) first.2;
    }

-- A choice is made of any blocks but none, and it is preferred.
pub choose_canonical-Chosen :
    (b : ContextBlock) (bs : List ContextBlock)
    → IsSorted compare_block_ids (b ∷ bs)
    → (a : ContextBlock) × (why : CanonicalSelectionReason) × (choose_canonical (b ∷ bs)
        ≡ some (a, why))
      × Chosen a (b ∷ bs)
unfolding choose_canonical among_required
choose_canonical-Chosen b [] s = (
  b,
  single_block,
  refl,
  record {
    from_blocks = λ f. omega arith;
    preferred = ((λ e. e, λ _. unfold compare_block_ids in compare_block_ids_refl b), tt);
  },
)
choose_canonical-Chosen b (c ∷ rest) s = go _ refl
  where
    go :
        (rs : List ContextBlock)
        → select is_required (b ∷ c ∷ rest) ≡ rs
        → (a : ContextBlock) × (why : CanonicalSelectionReason) × (some
              (among_required (select is_required (b ∷ c ∷ rest)) b)
            ≡ some (a, why))
          × Chosen a (b ∷ c ∷ rest)
    go [] e = (
      b,
      stable_block_id,
      rw e refl,
      first-Chosen b (c ∷ rest) s
          (select-none compare_block_ids is_required compare_block_ids_refl (b ∷ c ∷ rest) e),
    )
    go (r ∷ []) e = (r, required_block, rw e refl, required-Chosen r [] (b ∷ c ∷ rest) s e)
    go (r ∷ q ∷ rs) e =
        (r, required_then_stable_block_id, rw e refl, required-Chosen r (q ∷ rs) (b ∷ c ∷ rest) s e)
