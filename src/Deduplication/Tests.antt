-- ===== src/Deduplication/Tests.antt =====
-- The theorems about packages/compiler/src/candidate-deduplicator.ts at a batch of three candidates:
-- two blocks of one content with different line ends, the second of them required, and another block.
use ctxalloc.Shared.{
  ◌≡◌, ◌≢◌, refl, Bool, true, Option, none, some, [], ◌∷◌, ◌++◌, map, Text, units, All,
  if◌then◌else◌, SameItems, Pairwise, sort, insert, text_eq, compare_code_units, get, put,
  update_at, text_key,
}
use ctxalloc.Shared.Json.{end}
use ctxalloc.Domain.ContextBlock.{Scope, markdown, ContextBlock, CandidateBlock}
use ctxalloc.Domain.Serialized.{candidate_json}
use ctxalloc.Canonical.{canonical_json}
use ctxalloc.Candidates.{DeduplicatedCandidateSet, required_block, single_block}
use ctxalloc.Deduplication.Group.{
  replace_crlf, replace_cr, normalize_content, new_group, keep_first, enter, bucket_of,
  add_candidate, add_all, group_by_exact_content,
}
use ctxalloc.Deduplication.Deduplicate.{
  ValidatedCandidateSet, compare_block_ids, distinct_blocks, among_required, choose_canonical,
  select_canonical, resolve, compare_resolved, compare_members, member_of, order_members, finish,
  publish, deduplicate,
}
use ctxalloc.Deduplication.Reference.{file_all, group_by_exact_content-eq-file_all}
use ctxalloc.Deduplication.Members.{all_members, deduplicate-keeps_members}
use ctxalloc.Deduplication.Representative.{IsRepresentative, deduplicate-chooses_representatives}
use ctxalloc.Deduplication.Contents.{IsUniform, content_of, deduplicate-groups_by_content}
use ctxalloc.Deduplication.Normalize.{HasNoCr, normalize_content-lines}

abbrev scope : Scope
scope = record { tenant_id = units "t"; workspace_id = units "w"; project_id = none }

abbrev candidate : Text → Text → Text → Option Bool → CandidateBlock
candidate id content normalized required = record {
  block = record {
    id = id;
    scope = scope;
    source_document_id = units "doc";
    source_type = markdown;
    source_location = none;
    content = content;
    normalized_content_hash = normalized;
    token_count = 1;
    heading_path = none;
    created_at = none;
    updated_at = none;
    attributes = record { required = required; priority = none; category = none };
    metadata = end;
  };
  retrieval = none;
}

-- LF and CRLF.
abbrev short : CandidateBlock
short = candidate (units "a") (97 ∷ 10 ∷ []) (97 ∷ 10 ∷ []) none

abbrev long : CandidateBlock
long = candidate (units "b") (97 ∷ 13 ∷ 10 ∷ []) (97 ∷ 10 ∷ []) (some true)

abbrev other : CandidateBlock
other = candidate (units "c") (98 ∷ []) (98 ∷ []) none

abbrev batch : ValidatedCandidateSet
batch = record { scope = scope; source_documents = []; candidates = other ∷ short ∷ long ∷ [] }

abbrev record_of : Text → ContextBlock
record_of id =
    if text_eq id (units "a")
    then short.block
    else if text_eq id (units "b")
    then long.block
    else other.block

code : Unit {0}
unfolding replace_crlf replace_cr normalize_content new_group keep_first enter bucket_of
    add_candidate add_all group_by_exact_content compare_block_ids distinct_blocks among_required
    choose_canonical select_canonical resolve compare_resolved compare_members member_of
    order_members finish publish deduplicate sort insert text_eq compare_code_units get put
    update_at canonical_json candidate_json
code = tt

result_of : Option DeduplicatedCandidateSet → DeduplicatedCandidateSet
result_of none = record { scope = scope; source_documents = []; candidates = [] }
result_of (some r) = r

abbrev outcome : DeduplicatedCandidateSet
unfolding code result_of
outcome = result_of (deduplicate batch)

deduplicated : deduplicate batch ≡ some outcome
unfolding code result_of
deduplicated = refl

canonical :
    (map (λ d. d.canonical_block.id) outcome.candidates ≡ units "b" ∷ units "c" ∷ [])
    × (map (λ d. d.canonical_selection_reason) outcome.candidates
        ≡ required_block ∷ single_block ∷ [])
unfolding code result_of
canonical = (refl, refl)

group_by_exact_content-eq-file_all_example :
    group_by_exact_content batch.candidates ≡ map (λ e. e.1) (file_all batch.candidates [])
group_by_exact_content-eq-file_all_example = group_by_exact_content-eq-file_all batch.candidates

deduplicate-keeps_members_example :
    (r : DeduplicatedCandidateSet) × (deduplicate batch ≡ some r)
    × SameItems (all_members r.candidates) batch.candidates
deduplicate-keeps_members_example = deduplicate-keeps_members batch

registered : All (λ c. record_of c.block.id ≡ c.block) batch.candidates
unfolding code
registered = (refl, (refl, (refl, tt)))

deduplicate-chooses_representatives_example : All IsRepresentative outcome.candidates
deduplicate-chooses_representatives_example =
    deduplicate-chooses_representatives record_of batch registered deduplicated

hashed :
    All (λ c. c.block.normalized_content_hash ≡ normalize_content c.block.content) batch.candidates
unfolding code
hashed = (refl, (refl, (refl, tt)))

deduplicate-groups_by_content_example :
    All IsUniform outcome.candidates
    × Pairwise (λ d e. content_of d ≢ content_of e) outcome.candidates
deduplicate-groups_by_content_example =
    deduplicate-groups_by_content (λ t. t) batch hashed deduplicated

normalize_content-lines_example :
    HasNoCr (normalize_content (97 ∷ 13 ∷ []))
    × (HasNoCr (98 ∷ []) → normalize_content (98 ∷ []) ≡ 98 ∷ [])
    × (normalize_content (97 ∷ 13 ∷ 13 ∷ 10 ∷ 98 ∷ [])
        ≡ normalize_content (97 ∷ 13 ∷ []) ++ 10 ∷ normalize_content (98 ∷ []))
normalize_content-lines_example = normalize_content-lines (97 ∷ 13 ∷ []) (98 ∷ [])
