-- ===== src/Deduplication/Known.antt =====
-- Where no block identifier stands for two records, a group of
-- packages/compiler/src/candidate-deduplicator.ts keeps the block of each of its wrappers.
use ctxalloc.Shared.{
  ◌≡◌, ap, ◌∙◌, inl, inr, some, List, [], ◌∷◌, arith, Option-cases, Text, text_eq_iff, All,
  All-append, All-map, All-under, Table, get, get-put, text_key, pair_key, All-put, All-get,
}
use ctxalloc.Domain.ContextBlock.{ContextBlock, CandidateBlock}
use ctxalloc.Deduplication.Group.{Group, new_group, keep_first, enter, group_by_exact_content}
use ctxalloc.Deduplication.Reference.{
  key_of, Filing, held, file, file_all, group_by_exact_content-eq-file_all,
}

module _ (record_of : Text → ContextBlock) where
  -- The group keeps the block of each of its wrappers, and no other block under its identifier.
  pub record Knows (g : Group) : Type 0 where
    pub own : (t : Text) (b : ContextBlock) → get t g.blocks_by_id ≡ some b → b ≡ record_of t
    pub known : All (λ w. get w.block.id g.blocks_by_id ≡ some w.block) g.wrappers

  keep_first-new :
      (b : ContextBlock) (blocks : Table Text ContextBlock)
      → ((t : Text) (a : ContextBlock) → get t blocks ≡ some a → a ≡ record_of t)
      → record_of b.id ≡ b
      → get b.id (keep_first b blocks) ≡ some b
  unfolding keep_first
  keep_first-new b blocks own registered = elim (Option-cases (get b.id blocks)) [
    | inl absent ↦ ground (arith, get-put b.id b.id b blocks, text_eq_iff b.id b.id, absent)
    | inr (a, present) ↦
        rw (keep_first, present, present) (ap (λ x. some x) (own b.id a present ∙ registered))
  ]

  keep_first-old :
      (b a : ContextBlock) (t : Text) (blocks : Table Text ContextBlock)
      → get t blocks ≡ some a
      → get t (keep_first b blocks) ≡ some a
  unfolding keep_first
  keep_first-old b a t blocks h = elim (Option-cases (get b.id blocks)) [
    | inl absent ↦ ground (arith, get-put b.id t b blocks, text_eq_iff b.id t, absent, h)
    | inr (_, present) ↦ rw (keep_first, present) h
  ]

  keep_first-own :
      (b : ContextBlock) (blocks : Table Text ContextBlock)
      → ((t : Text) (a : ContextBlock) → get t blocks ≡ some a → a ≡ record_of t)
      → record_of b.id ≡ b
      → (t : Text) (a : ContextBlock) → get t (keep_first b blocks) ≡ some a
      → a ≡ record_of t
  unfolding keep_first
  keep_first-own b blocks own registered t a h = elim (Option-cases (get b.id blocks)) [
    | inl absent ↦
        ground (arith, get-put b.id t b blocks, text_eq_iff b.id t, absent, own t a, registered, h)
    | inr (_, present) ↦ ground (arith, present, own t a, h)
  ]

  enter-Knows :
      (c : CandidateBlock) (g : Group)
      → record_of c.block.id ≡ c.block
      → Knows g
      → Knows (enter c g)
  unfolding enter
  enter-Knows c g registered h = record {
    own = keep_first-own c.block g.blocks_by_id h.own registered;
    known =
        All-append _ g.wrappers (c ∷ [])
          (All-map g.wrappers (λ w. keep_first-old c.block w.block w.block.id g.blocks_by_id)
            h.known)
          (keep_first-new c.block g.blocks_by_id h.own registered, tt);
  }

  new_group-Knows : (content : Text) → Knows (new_group content)
  unfolding new_group get
  new_group-Knows content = record { own = λ t b h. absurd (ground arith); known = tt }

  held-Knows : (key : Text × Text) (t : Filing) → All (λ e. Knows e.1) t → Knows (held key t)
  held-Knows key t h = elim (Option-cases (get key t)) [
    | inl absent ↦ rw (held, absent) (new_group-Knows key.1)
    | inr (g, present) ↦ rw (held, present) (All-get (λ j g. Knows g) key g t h present)
  ]

  file_all-Knows :
      (cs : List CandidateBlock) (t : Filing)
      → All (λ c. record_of c.block.id ≡ c.block) cs
      → All (λ e. Knows e.1) t
      → All (λ e. Knows e.1) (file_all cs t)
  unfolding file_all file
  file_all-Knows [] t registered h = h
  file_all-Knows (c ∷ cs) t registered h = file_all-Knows cs (file c t) registered.1 (
      All-put (λ j g. Knows g) (key_of c) _ t
        (enter-Knows c (held (key_of c) t) registered.0 (held-Knows (key_of c) t h)) h)

  pub groups-Knows :
      (cs : List CandidateBlock)
      → All (λ c. record_of c.block.id ≡ c.block) cs
      → All Knows (group_by_exact_content cs)
  groups-Knows cs registered = rw (group_by_exact_content-eq-file_all cs) (
      All-under Knows (λ (e : (Text × Text) × Group). e.1) (file_all cs [])
        (file_all-Knows cs [] registered tt))
