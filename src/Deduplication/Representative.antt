-- ===== src/Deduplication/Representative.antt =====
-- Which block stands for a group in the result of packages/compiler/src/candidate-deduplicator.ts.
use ctxalloc.Shared.{
  ℕ, ◌≤◌, ◌≡◌, ◌∙◌, some, map, arith, Text, weigh, weigh-map, All, All-both, All-map, All-sort,
  All-over, All-under, sort, sort-All, sort-SameItems, text_key, All-get,
}
use ctxalloc.Domain.ContextBlock.{ContextBlock, CandidateBlock}
use ctxalloc.Candidates.{
  DeduplicatedCandidateMember, DeduplicatedCandidate, DeduplicatedCandidateSet,
}
use ctxalloc.Deduplication.Group.{Group, group_by_exact_content}
use ctxalloc.Deduplication.Deduplicate.{
  ValidatedCandidateSet, compare_block_ids, distinct_blocks, Resolved, compare_members, member_of,
  order_members, finish, deduplicate,
}
use ctxalloc.Deduplication.Choice.{Prefers, Chosen}
use ctxalloc.Deduplication.Known.{Knows, groups-Knows}
use ctxalloc.Deduplication.Resolved.{IsGroup, weigh-distinct_blocks, groups-IsGroup}
use ctxalloc.Deduplication.Members.{candidates-All}

-- The canonical block of a candidate is the block of one of its members and preferred to all.
pub record IsRepresentative (d : DeduplicatedCandidate) : Type 0 where
  pub of_member :
      (f : ContextBlock → ℕ) → f d.canonical_block ≤ weigh (λ m. f m.candidate.block) d.members
  pub preferred : All (λ m. Prefers d.canonical_block m.candidate.block) d.members

weigh-members :
    (f : ContextBlock → ℕ) (x : Resolved)
    → weigh (λ m. f m.candidate.block) (finish x).members ≡ weigh (λ w. f w.block) x.group.wrappers
unfolding finish order_members member_of
weigh-members f x =
    weigh-map (λ (m : DeduplicatedCandidateMember). f m.candidate.block) (member_of x.block.id)
      (sort compare_members x.group.wrappers)
    ∙ sort-SameItems compare_members x.group.wrappers (λ w. f w.block)

-- What holds of the wrappers of a group holds of the members of its candidate.
pub members-All {κ} :
    (P : CandidateBlock → Type κ) (x : Resolved)
    → All P x.group.wrappers
    → All (λ m. P m.candidate) (finish x).members
unfolding finish order_members member_of
members-All P x h =
    All-under (λ (m : DeduplicatedCandidateMember). P m.candidate) (member_of x.block.id)
      (sort compare_members x.group.wrappers) (sort-All compare_members P x.group.wrappers h)

-- What is chosen among the blocks of a group is the block of one of its wrappers.
pub Chosen-of_wrapper :
    (g : Group) (a : ContextBlock) (f : ContextBlock → ℕ)
    → IsGroup g
    → Chosen a (distinct_blocks g)
    → f a ≤ weigh (λ w. f w.block) g.wrappers
Chosen-of_wrapper g a f (key, (filed, _)) best =
    omega (arith, best.from_blocks f, weigh-distinct_blocks f g, filed.from_wrappers f)

Prefers-kept :
    (g : Group) (a : ContextBlock)
    → Chosen a (distinct_blocks g)
    → All (λ e. Prefers a e.1) g.blocks_by_id
unfolding distinct_blocks
Prefers-kept g a best =
    All-over (Prefers a) (λ (e : Text × ContextBlock). e.1) g.blocks_by_id
      (All-sort compare_block_ids (Prefers a) (map (λ e. e.1) g.blocks_by_id) best.preferred)

finish-IsRepresentative :
    (record_of : Text → ContextBlock) (x : Resolved)
    → IsGroup x.group × Knows record_of x.group
    → Chosen x.block (distinct_blocks x.group)
    → IsRepresentative (finish x)
unfolding finish
finish-IsRepresentative record_of x (group, knows) best = record {
  of_member = λ f. omega (arith, weigh-members f x, Chosen-of_wrapper x.group x.block f group best);
  preferred =
      members-All (λ w. Prefers x.block w.block) x
        (All-map x.group.wrappers
          (λ w found.
            All-get (λ t b. Prefers x.block b) w.block.id w.block x.group.blocks_by_id
              (Prefers-kept x.group x.block best) found)
          knows.known);
}

-- Where no block identifier stands for two different blocks, the canonical block of every candidate
-- of a result is the block of one of its members; it is required if a member's block is, and of the
-- members' blocks that agree with it in being required none has an earlier identifier.
pub deduplicate-chooses_representatives :
    (record_of : Text → ContextBlock) (input : ValidatedCandidateSet) {r : DeduplicatedCandidateSet}
    → All (λ c. record_of c.block.id ≡ c.block) input.candidates
    → deduplicate input ≡ some r
    → All IsRepresentative r.candidates
deduplicate-chooses_representatives record_of input registered h =
    candidates-All IsRepresentative (λ g. IsGroup g × Knows record_of g) input h
      (All-both IsGroup (Knows record_of) (group_by_exact_content input.candidates)
        (groups-IsGroup input.candidates) (groups-Knows record_of input.candidates registered))
      (finish-IsRepresentative record_of)
