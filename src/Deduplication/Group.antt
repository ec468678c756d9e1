-- ===== src/Deduplication/Group.antt =====
-- `groupByExactContent` of packages/compiler/src/candidate-deduplicator.ts, with the normalization
-- of packages/domain/src/block-content-hash.ts. A bucket and the list `ordered` share the group
-- objects, so a bucket holds the group's place in `ordered`.
use ctxalloc.Shared.{
  ℕ, none, some, List, [], ◌∷◌, ◌++◌, length, Text, ◌==◌, if◌then◌else◌, Table, get, put, text_key,
  update_at,
}
use ctxalloc.Domain.ContextBlock.{ContextBlock, CandidateBlock}

-- `content.replace(/\r\n/g, '\n')`: 13 is CR and 10 is LF.
unfoldable pub replace_crlf : Text → Text
replace_crlf [] = []
replace_crlf (c ∷ []) = c ∷ []
replace_crlf (c ∷ d ∷ rest) =
    let pair = 10 ∷ replace_crlf rest in
    let single = c ∷ replace_crlf (d ∷ rest) in
    if c == 13 then (if d == 10 then pair else single) else single

-- `.replace(/\r/g, '\n')`
unfoldable pub replace_cr : Text → Text
replace_cr [] = []
replace_cr (c ∷ rest) = (if c == 13 then 10 else c) ∷ replace_cr rest

-- `normalizeContextBlockContentForHash`
unfoldable pub normalize_content : Text → Text
unfolding replace_crlf replace_cr
normalize_content content = replace_cr (replace_crlf content)

pub record Group : Type 0 where
  pub normalized_content : Text
  pub wrappers : List CandidateBlock
  pub blocks_by_id : Table Text ContextBlock

unfoldable pub new_group : Text → Group
new_group content = record { normalized_content = content; wrappers = []; blocks_by_id = [] }

-- `if (!group.blocksById.has(block.id)) group.blocksById.set(block.id, block)`
unfoldable pub keep_first : ContextBlock → Table Text ContextBlock → Table Text ContextBlock
keep_first block blocks = elim (get block.id blocks) [
  | none ↦ put block.id block blocks
  | some _ ↦ blocks
]

-- A candidate enters a group.
unfoldable pub enter : CandidateBlock → Group → Group
unfolding keep_first
enter c g = record g {
  wrappers = g.wrappers ++ c ∷ [];
  blocks_by_id = keep_first c.block g.blocks_by_id;
}

pub record Grouping : Type 0 where
  pub buckets : Table Text (Table Text ℕ)
  pub ordered : List Group

abbrev pub no_groups : Grouping
no_groups = record { buckets = []; ordered = [] }

-- `buckets.get(hash)`, a new bucket where there is none
unfoldable pub bucket_of : Text → Table Text (Table Text ℕ) → Table Text ℕ
bucket_of hash buckets = elim (get hash buckets) [ none ↦ [] | some bucket ↦ bucket ]

-- One round of the loop.
unfoldable pub add_candidate : CandidateBlock → Grouping → Grouping
unfolding bucket_of
add_candidate c g =
    let hash = c.block.normalized_content_hash in
    let content = normalize_content c.block.content in
    elim (get content (bucket_of hash g.buckets)) [
      | none ↦ record {
        buckets = put hash (put content (length g.ordered) (bucket_of hash g.buckets)) g.buckets;
        ordered = g.ordered ++ enter c (new_group content) ∷ [];
      }
      | some place ↦ record g { ordered = update_at place (enter c) g.ordered }
    ]

unfoldable pub add_all : List CandidateBlock → Grouping → Grouping
add_all [] g = g
add_all (c ∷ cs) g = add_all cs (add_candidate c g)

unfoldable pub group_by_exact_content : List CandidateBlock → List Group
unfolding add_all
group_by_exact_content candidates = (add_all candidates no_groups).ordered
