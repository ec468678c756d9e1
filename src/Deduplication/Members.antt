-- ===== src/Deduplication/Members.antt =====
-- What `deduplicate` of packages/compiler/src/candidate-deduplicator.ts does with the candidates:
-- it returns for every batch, and loses none.
use ctxalloc.Shared.{
  ℕ, ◌≡◌, refl, sym, subst, ap, some, List, [], ◌∷◌, ◌++◌, map, arith, weigh, weigh-append,
  weigh-map, All, All-map, All-both, All-under, All-over, SameItems, sort, sort-SameItems, sort-All,
}
use ctxalloc.Domain.ContextBlock.{CandidateBlock}
use ctxalloc.Candidates.{
  DeduplicatedCandidateMember, DeduplicatedCandidate, DeduplicatedCandidateSet,
}
use ctxalloc.Deduplication.Group.{Group, group_by_exact_content}
use ctxalloc.Deduplication.Deduplicate.{
  ValidatedCandidateSet, distinct_blocks, Resolved, compare_resolved, compare_members, member_of,
  order_members, finish, publish, deduplicate,
}
use ctxalloc.Deduplication.Choice.{Chosen}
use ctxalloc.Deduplication.Filed.{wrapped}
use ctxalloc.Deduplication.Resolved.{IsResolution, weigh-groups, batch-IsResolution}

-- The wrappers of all members of all candidates.
abbrev pub all_members : List DeduplicatedCandidate → List CandidateBlock
all_members [] = []
all_members (d ∷ ds) = map (λ m. m.candidate) d.members ++ all_members ds

deduplicate-eq :
    (input : ValidatedCandidateSet) (rs : List Resolved)
    → IsResolution (group_by_exact_content input.candidates) rs
    → deduplicate input ≡ some (publish input rs)
unfolding deduplicate
deduplicate-eq input rs h = rw (deduplicate, h.resolved) refl

weigh-finish :
    (f : CandidateBlock → ℕ) (r : Resolved)
    → weigh f (map (λ m. m.candidate) (finish r).members) ≡ wrapped f r.group
unfolding finish order_members member_of
weigh-finish f r = omega (
  arith,
  weigh-map f (λ (m : DeduplicatedCandidateMember). m.candidate) (finish r).members,
  weigh-map (λ (m : DeduplicatedCandidateMember). f m.candidate) (member_of r.block.id)
      (sort compare_members r.group.wrappers),
  sort-SameItems compare_members r.group.wrappers f,
)

weigh-all_members :
    (f : CandidateBlock → ℕ) (rs : List Resolved)
    → weigh f (all_members (map finish rs)) ≡ weigh (λ r. wrapped f r.group) rs
weigh-all_members f [] = refl
weigh-all_members f (r ∷ rs) = omega (
  arith,
  weigh-append f (map (λ m. m.candidate) (finish r).members) (all_members (map finish rs)),
  weigh-finish f r,
  weigh-all_members f rs,
)

publish-SameItems :
    (input : ValidatedCandidateSet) (rs : List Resolved)
    → IsResolution (group_by_exact_content input.candidates) rs
    → SameItems (all_members (publish input rs).candidates) input.candidates
unfolding publish
publish-SameItems input rs h f = omega (
  arith,
  weigh-all_members f (sort compare_resolved rs),
  sort-SameItems compare_resolved rs (λ r. wrapped f r.group),
  weigh-map (wrapped f) (λ (r : Resolved). r.group) rs,
  ap (weigh (wrapped f)) h.groups,
  weigh-groups f input.candidates,
)

-- `deduplicate` returns a result for every batch, and every wrapper of the batch stands in it
-- exactly once as a member.
pub deduplicate-keeps_members :
    (input : ValidatedCandidateSet)
    → (r : DeduplicatedCandidateSet) × (deduplicate input ≡ some r)
      × SameItems (all_members r.candidates) input.candidates
deduplicate-keeps_members input =
    let (rs, h) = batch-IsResolution input.candidates in
    (publish input rs, deduplicate-eq input rs h, publish-SameItems input rs h)

-- A result was published from a resolution of the batch.
pub deduplicate-published :
    (input : ValidatedCandidateSet) {r : DeduplicatedCandidateSet}
    → deduplicate input ≡ some r
    → (rs : List Resolved) × (IsResolution (group_by_exact_content input.candidates) rs
        × (publish input rs ≡ r))
deduplicate-published input h =
    let (rs, found) = batch-IsResolution input.candidates in
    (rs, (found, cc (h, deduplicate-eq input rs found)))

-- What holds of every group holds of it beside its canonical block.
pub resolution-All {ν} :
    (Q : Group → Type ν) {gs : List Group} (rs : List Resolved)
    → IsResolution gs rs
    → All Q gs
    → All (λ x. Q x.group × Chosen x.block (distinct_blocks x.group)) rs
resolution-All Q rs found held =
    All-both (λ x. Q x.group) (λ x. Chosen x.block (distinct_blocks x.group)) rs
      (All-over Q (λ (x : Resolved). x.group) rs (subst (All Q) (sym found.groups) held)) found.best

-- What holds of every group of the batch with its canonical block holds of every candidate of a
-- result.
pub candidates-All {κ ν} :
    (P : DeduplicatedCandidate → Type κ) (Q : Group → Type ν) (input : ValidatedCandidateSet)
    {r : DeduplicatedCandidateSet}
    → deduplicate input ≡ some r
    → All Q (group_by_exact_content input.candidates)
    → ((x : Resolved) → Q x.group → Chosen x.block (distinct_blocks x.group) → P (finish x))
    → All P r.candidates
unfolding publish
candidates-All P Q input {r} h held each =
    let (rs, (found, same)) = deduplicate-published input h in
    subst (λ s. All P s.candidates) same (published rs found)
  where
    published :
        (rs : List Resolved)
        → IsResolution (group_by_exact_content input.candidates) rs
        → All P (publish input rs).candidates
    published rs found = All-under P finish (sort compare_resolved rs) (
        sort-All compare_resolved (λ x. P (finish x)) rs
          (All-map rs (λ x (group, best). each x group best) (resolution-All Q rs found held)))
