-- ===== src/Deduplication/Resolved.antt =====
-- The canonical blocks of all groups: the error that packages/compiler/src/candidate-deduplicator.ts
-- marks as unreachable is never thrown.
use ctxalloc.Shared.{
  ℕ, ◌≤◌, ◌≡◌, refl, sym, subst, ap, ◌∙◌, some, List, [], ◌∷◌, map, arith, Text, length, length-map,
  weigh, weigh-map, All, All-map, SameItems-length, sort-SameItems, sort-IsSorted, IsSorted,
  IsComparator-by_text, Table,
}
use ctxalloc.Domain.ContextBlock.{ContextBlock, CandidateBlock}
use ctxalloc.Candidates.{CanonicalSelectionReason}
use ctxalloc.Deduplication.Group.{Group, group_by_exact_content}
use ctxalloc.Deduplication.Deduplicate.{
  compare_block_ids, distinct_blocks, choose_canonical, select_canonical, Resolved, resolve,
}
use ctxalloc.Deduplication.Choice.{Chosen, choose_canonical-Chosen}
use ctxalloc.Deduplication.Reference.{file_all, group_by_exact_content-eq-file_all}
use ctxalloc.Deduplication.Filed.{kept, IsFiled, wrapped, file_all-IsFiling, weigh-file_all}

distinct_blocks-IsSorted : (g : Group) → IsSorted compare_block_ids (distinct_blocks g)
unfolding distinct_blocks compare_block_ids
distinct_blocks-IsSorted g =
    sort-IsSorted compare_block_ids (IsComparator-by_text (λ (b : ContextBlock). b.id)) _

pub weigh-distinct_blocks :
    (f : ContextBlock → ℕ) (g : Group) → weigh f (distinct_blocks g) ≡ kept f g.blocks_by_id
unfolding distinct_blocks
weigh-distinct_blocks f g =
    sort-SameItems compare_block_ids (map (λ e. e.1) g.blocks_by_id) f
    ∙ weigh-map f (λ (e : Text × ContextBlock). e.1) g.blocks_by_id

length-distinct_blocks : (g : Group) → length (distinct_blocks g) ≡ length g.blocks_by_id
unfolding distinct_blocks
length-distinct_blocks g =
    SameItems-length _ _ (sort-SameItems compare_block_ids (map (λ e. e.1) g.blocks_by_id))
    ∙ length-map (λ (e : Text × ContextBlock). e.1) g.blocks_by_id

-- A canonical block of a group, with the reason for it.
abbrev Selected : Group → Type 0
Selected g =
    (a : ContextBlock) × (why : CanonicalSelectionReason) × (select_canonical g ≡ some (a, why))
    × Chosen a (distinct_blocks g)

select_canonical-Selected : (g : Group) → 1 ≤ length g.blocks_by_id → Selected g
unfolding select_canonical
select_canonical-Selected g h = go (distinct_blocks g) refl (distinct_blocks-IsSorted g)
  where
    go :
        (bs : List ContextBlock)
        → distinct_blocks g ≡ bs
        → IsSorted compare_block_ids bs
        → Selected g
    go [] e s = absurd (omega (arith, ap length e, length-distinct_blocks g, h))
    go (b ∷ bs) e s =
        let (a, why, found, best) = choose_canonical-Chosen b bs s in
        (a, why, ap choose_canonical e ∙ found, subst (Chosen a) (sym e) best)

-- The groups with their canonical blocks.
pub record IsResolution (gs : List Group) (rs : List Resolved) : Type 0 where
  pub resolved : resolve gs ≡ some rs
  pub groups : map (λ r. r.group) rs ≡ gs
  pub best : All (λ r. Chosen r.block (distinct_blocks r.group)) rs

resolve-IsResolution :
    (gs : List Group)
    → All (λ g. 1 ≤ length g.blocks_by_id) gs
    → (rs : List Resolved) × IsResolution gs rs
unfolding resolve
resolve-IsResolution [] h = ([], record { resolved = refl; groups = refl; best = tt })
resolve-IsResolution (g ∷ gs) h =
    let (a, why, found, best) = select_canonical-Selected g h.0 in
    let (rs, rest) = resolve-IsResolution gs h.1 in
    (
      record { group = g; block = a; reason = why } ∷ rs,
      record {
        resolved = rw (resolve, found, rest.resolved) refl;
        groups = ap (λ xs. g ∷ xs) rest.groups;
        best = (best, rest.best);
      },
    )

-- A group of a batch: it is as some key says, and has a wrapper.
abbrev pub IsGroup : Group → Type 0
IsGroup g = (key : Text × Text) × (IsFiled key g × (1 ≤ length g.wrappers))

All-values {ℓ κ ν} :
    {K : Type ℓ} {V : Type κ} (P : K → V → Type ν) (m : Table K V)
    → All (λ e. P e.0 e.1) m
    → All (λ v. (key : K) × P key v) (map (λ e. e.1) m)
All-values P [] h = tt
All-values P ((k, v) ∷ m) h = ((k, h.0), All-values P m h.1)

pub groups-IsGroup : (cs : List CandidateBlock) → All IsGroup (group_by_exact_content cs)
groups-IsGroup cs = rw (group_by_exact_content-eq-file_all cs) (
    All-values (λ key g. IsFiled key g × (1 ≤ length g.wrappers)) (file_all cs [])
      (file_all-IsFiling cs [] (record { filed = tt; keyed = tt })).filed)

pub weigh-groups :
    (f : CandidateBlock → ℕ) (cs : List CandidateBlock)
    → weigh (wrapped f) (group_by_exact_content cs) ≡ weigh f cs
weigh-groups f cs = omega (
  arith,
  ap (weigh (wrapped f)) (group_by_exact_content-eq-file_all cs),
  weigh-map (wrapped f) (λ (e : (Text × Text) × Group). e.1) (file_all cs []),
  weigh-file_all f cs [],
)

-- Every batch has its groups resolved.
pub batch-IsResolution :
    (cs : List CandidateBlock) → (rs : List Resolved) × IsResolution (group_by_exact_content cs) rs
batch-IsResolution cs = resolve-IsResolution (group_by_exact_content cs) (
    All-map (group_by_exact_content cs)
      (λ g (key, (filed, some_wrapper)). filed.inhabited some_wrapper) (groups-IsGroup cs))
