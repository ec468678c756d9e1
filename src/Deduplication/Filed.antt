-- ===== src/Deduplication/Filed.antt =====
-- What holds of every group that `groupByExactContent` of
-- packages/compiler/src/candidate-deduplicator.ts makes.
use ctxalloc.Shared.{
  ℕ, ◌+◌, ◌≤◌, ◌≡◌, refl, inl, inr, none, some, List, [], ◌∷◌, arith, Option-cases, Text, length,
  length-append, weigh, weigh-append, All, All-append, Table, get, put, text_key, pair_key, All-put,
  All-get, IsKeyed, put-IsKeyed, weigh-put,
}
use ctxalloc.Domain.ContextBlock.{ContextBlock, CandidateBlock}
use ctxalloc.Deduplication.Group.{Group, new_group, keep_first, enter}
use ctxalloc.Deduplication.Reference.{key_of, Filing, held, file, file_all}

-- A weight of the blocks that a group keeps.
abbrev pub kept : (ContextBlock → ℕ) → Table Text ContextBlock → ℕ
kept f blocks = weigh (λ e. f e.1) blocks

-- A group under its key: it names the content, has only wrappers of the key, and keeps blocks of
-- its wrappers, one at least where it has a wrapper.
pub record IsFiled (key : Text × Text) (g : Group) : Type 0 where
  pub named : g.normalized_content ≡ key.1
  pub together : All (λ w. key_of w ≡ key) g.wrappers
  pub from_wrappers :
      (f : ContextBlock → ℕ) → kept f g.blocks_by_id ≤ weigh (λ w. f w.block) g.wrappers
  pub inhabited : 1 ≤ length g.wrappers → 1 ≤ length g.blocks_by_id

keep_first-weigh :
    (b : ContextBlock) (blocks : Table Text ContextBlock) (f : ContextBlock → ℕ)
    → kept f (keep_first b blocks) ≤ kept f blocks + f b
unfolding keep_first
keep_first-weigh b blocks f = elim (Option-cases (get b.id blocks)) [
  | inl absent ↦ rw (keep_first, absent) (ground (arith, absent, weigh-put f b.id b blocks))
  | inr (_, present) ↦ rw (keep_first, present) (omega arith)
]

keep_first-inhabited :
    (b : ContextBlock) (blocks : Table Text ContextBlock) → 1 ≤ length (keep_first b blocks)
unfolding keep_first put get
keep_first-inhabited b [] = omega arith
keep_first-inhabited b (e ∷ blocks) = ground arith

enter-IsFiled :
    (c : CandidateBlock) (g : Group) → IsFiled (key_of c) g → IsFiled (key_of c) (enter c g)
unfolding enter
enter-IsFiled c g h = record {
  named = h.named;
  together = All-append _ g.wrappers (c ∷ []) h.together (refl, tt);
  from_wrappers = λ f. omega (
    arith,
    h.from_wrappers f,
    keep_first-weigh c.block g.blocks_by_id f,
    weigh-append (λ w. f w.block) g.wrappers (c ∷ []),
  );
  inhabited = λ _. keep_first-inhabited c.block g.blocks_by_id;
}

new_group-IsFiled : (key : Text × Text) → IsFiled key (new_group key.1)
unfolding new_group
new_group-IsFiled key = record {
  named = refl;
  together = tt;
  from_wrappers = λ f. omega arith;
  inhabited = λ h. absurd (omega (arith, h));
}

-- The groups of a table are as their keys say, each with a wrapper, under different keys.
pub record IsFiling (t : Filing) : Type 0 where
  pub filed : All (λ e. IsFiled e.0 e.1 × (1 ≤ length e.1.wrappers)) t
  pub keyed : IsKeyed t

held-IsFiled : (key : Text × Text) (t : Filing) → IsFiling t → IsFiled key (held key t)
held-IsFiled key t h = elim (Option-cases (get key t)) [
  | inl absent ↦ rw (held, absent) (new_group-IsFiled key)
  | inr (g, present) ↦
      rw (held, present)
        (All-get (λ j g. IsFiled j g × (1 ≤ length g.wrappers)) key g t h.filed present).0
]

length-wrappers-enter : (c : CandidateBlock) (g : Group) → 1 ≤ length (enter c g).wrappers
unfolding enter
length-wrappers-enter c g = omega (arith, length-append g.wrappers (c ∷ []))

file-IsFiling : (c : CandidateBlock) (t : Filing) → IsFiling t → IsFiling (file c t)
unfolding file
file-IsFiling c t h = record {
  filed =
      All-put (λ j g. IsFiled j g × (1 ≤ length g.wrappers)) (key_of c) _ t
        (enter-IsFiled c _ (held-IsFiled (key_of c) t h), length-wrappers-enter c _) h.filed;
  keyed = put-IsKeyed (key_of c) _ t h.keyed;
}

pub file_all-IsFiling :
    (cs : List CandidateBlock) (t : Filing) → IsFiling t → IsFiling (file_all cs t)
unfolding file_all
file_all-IsFiling [] t h = h
file_all-IsFiling (c ∷ cs) t h = file_all-IsFiling cs (file c t) (file-IsFiling c t h)

-- A weight of the wrappers of a group.
abbrev pub wrapped : (CandidateBlock → ℕ) → Group → ℕ
wrapped f g = weigh f g.wrappers

wrapped-enter :
    (f : CandidateBlock → ℕ) (c : CandidateBlock) (g : Group)
    → wrapped f (enter c g) ≡ wrapped f g + f c
unfolding enter
wrapped-enter f c g = omega (arith, weigh-append f g.wrappers (c ∷ []))

wrapped-held :
    (f : CandidateBlock → ℕ) (key : Text × Text) (t : Filing)
    → wrapped f (held key t) ≡ elim (get key t) [ none ↦ 0 | some g ↦ wrapped f g ]
unfolding new_group
wrapped-held f key t = elim (Option-cases (get key t)) [
  | inl absent ↦ rw (held, absent) refl
  | inr (g, present) ↦ rw (held, present) refl
]

weigh-file :
    (f : CandidateBlock → ℕ) (c : CandidateBlock) (t : Filing)
    → weigh (λ e. wrapped f e.1) (file c t) ≡ weigh (λ e. wrapped f e.1) t + f c
unfolding file
weigh-file f c t = omega (
  arith,
  weigh-put (wrapped f) (key_of c) (enter c (held (key_of c) t)) t,
  wrapped-enter f c (held (key_of c) t),
  wrapped-held f (key_of c) t,
)

pub weigh-file_all :
    (f : CandidateBlock → ℕ) (cs : List CandidateBlock) (t : Filing)
    → weigh (λ e. wrapped f e.1) (file_all cs t) ≡ weigh (λ e. wrapped f e.1) t + weigh f cs
unfolding file_all
weigh-file_all f [] t = omega arith
weigh-file_all f (c ∷ cs) t = omega (arith, weigh-file f c t, weigh-file_all f cs (file c t))
