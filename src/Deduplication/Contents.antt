-- ===== src/Deduplication/Contents.antt =====
-- The candidates of a result of packages/compiler/src/candidate-deduplicator.ts are the classes of
-- equal normalized content.
use ctxalloc.Shared.{
  ℕ, ◌≡◌, ◌≢◌, ◌↔◌, sym, subst, ap, ◌∙◌, not, none, some, List, [], ◌∷◌, arith, Text, text_eq,
  text_eq_iff, one, weigh, weigh_cong_All, weigh-zero, All, All-both, All-map, Key, Table, get,
  text_key, pair_key, All-put, IsKeyed, Pairwise, Pairwise-map, Pairwise-under, Pairwise-over, sort,
  sort-Pairwise,
}
use ctxalloc.Domain.ContextBlock.{ContextBlock, CandidateBlock}
use ctxalloc.Candidates.{DeduplicatedCandidate, DeduplicatedCandidateSet}
use ctxalloc.Deduplication.Group.{normalize_content, Group, enter, group_by_exact_content}
use ctxalloc.Deduplication.Deduplicate.{
  ValidatedCandidateSet, distinct_blocks, Resolved, compare_resolved, finish, publish, deduplicate,
}
use ctxalloc.Deduplication.Choice.{Chosen}
use ctxalloc.Deduplication.Reference.{
  key_of, Filing, held, file, file_all, group_by_exact_content-eq-file_all,
}
use ctxalloc.Deduplication.Filed.{file_all-IsFiling}
use ctxalloc.Deduplication.Resolved.{IsGroup, IsResolution, groups-IsGroup}
use ctxalloc.Deduplication.Members.{resolution-All, candidates-All, deduplicate-published}
use ctxalloc.Deduplication.Representative.{members-All, Chosen-of_wrapper}

-- The normalized content of a candidate's canonical block.
abbrev pub content_of : DeduplicatedCandidate → Text
content_of d = normalize_content d.canonical_block.content

-- All members of a candidate have its content.
abbrev pub IsUniform : DeduplicatedCandidate → Type 0
IsUniform d = All (λ m. normalize_content m.candidate.block.content ≡ content_of d) d.members

weigh-none {ℓ} : {A : Type ℓ} (f : A → ℕ) (xs : List A) → All (λ x. f x ≡ 0) xs → weigh f xs ≡ 0
weigh-none f xs h = weigh_cong_All f (λ _. 0) xs h ∙ weigh-zero xs

differs : Text → ContextBlock → ℕ
differs t b = one (not (text_eq (normalize_content b.content) t))

differs_iff : (t : Text) (b : ContextBlock) → (differs t b ≡ 0) ↔ (normalize_content b.content ≡ t)
unfolding differs
differs_iff t b = ground (arith, text_eq_iff (normalize_content b.content) t)

-- The chosen block of a group has the group's content.
Chosen-content :
    (g : Group) (a : ContextBlock)
    → IsGroup g
    → Chosen a (distinct_blocks g)
    → normalize_content a.content ≡ g.normalized_content
Chosen-content g a group best =
    let (key, (filed, _)) = group in
    (differs_iff key.1 a).0 (
      omega (
        arith,
        Chosen-of_wrapper g a (differs key.1) group best,
        weigh-none (λ (w : CandidateBlock). differs key.1 w.block) g.wrappers
            (All-map g.wrappers (λ w same. (differs_iff key.1 w.block).1 (ap (λ k. k.1) same))
              filed.together),
      ))
    ∙ sym filed.named

finish-IsUniform :
    (x : Resolved)
    → IsGroup x.group
    → Chosen x.block (distinct_blocks x.group)
    → IsUniform (finish x)
unfolding finish
finish-IsUniform x group best =
    let (key, (filed, _)) = group in
    members-All (λ w. normalize_content w.block.content ≡ normalize_content x.block.content) x
      (All-map x.group.wrappers
        (λ w same.
          ap (λ k. k.1) same ∙ sym filed.named ∙ sym (Chosen-content x.group x.block group best))
        filed.together)

-- Where the hash is a function of the content, keys differ in their content.
HashedBy : (Text → Text) → Text × Text → Type 0
HashedBy hash key = key.0 ≡ hash key.1

file_all-HashedBy :
    (hash : Text → Text) (cs : List CandidateBlock) (t : Filing)
    → All (λ c. HashedBy hash (key_of c)) cs
    → All (λ e. HashedBy hash e.0) t
    → All (λ e. HashedBy hash e.0) (file_all cs t)
unfolding file_all file
file_all-HashedBy hash [] t h k = k
file_all-HashedBy hash (c ∷ cs) t h k = file_all-HashedBy hash cs (file c t) h.1 (
    All-put (λ key (g : Group). HashedBy hash key) (key_of c) (enter c (held (key_of c) t)) t h.0 k)

-- A key that a map has not is the key of none of its entries.
get-none {ℓ κ} :
    {K : Type ℓ} {V : Type κ} ⦃k : Key K⦄ (key : K) (m : Table K V)
    → get key m ≡ none
    → All (λ e. key ≢ e.0) m
unfolding get
get-none key [] h = tt
get-none ⦃k⦄ key ((j, v) ∷ m) h =
    ((λ same. absurd (ground (arith, k.same_iff j key, same, h))), get-none key m (ground arith))

keys-Pairwise {ℓ κ} :
    {K : Type ℓ} {V : Type κ} ⦃k : Key K⦄ (m : Table K V)
    → IsKeyed m
    → Pairwise (λ d e. d.0 ≢ e.0) m
keys-Pairwise [] h = tt
keys-Pairwise ((j, v) ∷ m) h = (get-none j m h.0, keys-Pairwise m h.1)

-- The groups of a batch have different contents.
groups-Pairwise :
    (hash : Text → Text) (cs : List CandidateBlock)
    → All (λ c. HashedBy hash (key_of c)) cs
    → Pairwise (λ g g'. g.normalized_content ≢ g'.normalized_content) (group_by_exact_content cs)
unfolding HashedBy
groups-Pairwise hash cs h =
    let filing = file_all-IsFiling cs [] (record { filed = tt; keyed = tt }) in
    subst (Pairwise (λ g g'. g.normalized_content ≢ g'.normalized_content))
      (sym (group_by_exact_content-eq-file_all cs))
      (Pairwise-under (λ g g'. g.normalized_content ≢ g'.normalized_content)
        (λ (e : (Text × Text) × Group). e.1) (file_all cs [])
        (Pairwise-map (λ d e. d.0 ≢ e.0) (λ d e. d.1.normalized_content ≢ e.1.normalized_content)
          (λ e. HashedBy hash e.0 × (e.1.normalized_content ≡ e.0.1)) (file_all cs [])
          (λ d e p q apart same. absurd (ground (arith, p, q, apart, same)))
          (All-both _ _ (file_all cs []) (file_all-HashedBy hash cs [] h tt)
            (All-map (file_all cs []) (λ e (filed, _). filed.named) filing.filed))
          (keys-Pairwise (file_all cs []) filing.keyed)))

publish-Pairwise :
    (input : ValidatedCandidateSet) (rs : List Resolved)
    → IsResolution (group_by_exact_content input.candidates) rs
    → Pairwise
        (λ g g'. g.normalized_content ≢ g'.normalized_content)
        (group_by_exact_content input.candidates)
    → Pairwise (λ d e. content_of d ≢ content_of e) (publish input rs).candidates
unfolding publish finish
publish-Pairwise input rs found apart =
    Pairwise-under (λ d e. content_of d ≢ content_of e) finish (sort compare_resolved rs)
      (sort-Pairwise (λ (x y : Resolved). content_of (finish x) ≢ content_of (finish y))
        compare_resolved rs (λ x y differ same. differ (sym same))
        (Pairwise-map (λ (x y : Resolved). x.group.normalized_content ≢ y.group.normalized_content)
          (λ x y. content_of (finish x) ≢ content_of (finish y))
          (λ x. content_of (finish x) ≡ x.group.normalized_content) rs
          (λ x y p q differ same. differ (sym p ∙ same ∙ q))
          (All-map rs (λ x (group, best). Chosen-content x.group x.block group best)
            (resolution-All IsGroup rs found (groups-IsGroup input.candidates)))
          (Pairwise-over (λ (g g' : Group). g.normalized_content ≢ g'.normalized_content)
            (λ x. x.group) rs
            (subst (Pairwise (λ g g'. g.normalized_content ≢ g'.normalized_content))
              (sym found.groups) apart))))

-- Where every candidate's hash is computed from its normalized content, the members of each
-- candidate of a result have its normalized content, and no two candidates have the same.
pub deduplicate-groups_by_content :
    (hash : Text → Text) (input : ValidatedCandidateSet) {r : DeduplicatedCandidateSet}
    → All
        (λ c. c.block.normalized_content_hash ≡ hash (normalize_content c.block.content))
        input.candidates
    → deduplicate input ≡ some r
    → All IsUniform r.candidates × Pairwise (λ d e. content_of d ≢ content_of e) r.candidates
unfolding HashedBy
deduplicate-groups_by_content hash input hashed h =
    let (rs, (found, same)) = deduplicate-published input h in
    (
      candidates-All IsUniform IsGroup input h (groups-IsGroup input.candidates) finish-IsUniform,
      subst (λ s. Pairwise (λ d e. content_of d ≢ content_of e) s.candidates) same
          (publish-Pairwise input rs found (groups-Pairwise hash input.candidates hashed)),
    )
