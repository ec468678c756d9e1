-- ===== src/Renderer/Records.antt =====
-- The record that packages/compiler/src/context-renderer.ts renders for a block, and the text of an
-- ordered selection: one JSON record on each line.
use ctxalloc.Shared.{Option, List, [], ◌∷◌, ◌++◌, map, Text, units}
use ctxalloc.Shared.Json.{Json, string, object, end, field, optional}
use ctxalloc.Canonical.{canonical_json}
use ctxalloc.Domain.ContextBlock.{ContextBlock}
use ctxalloc.Domain.Serialized.{source_type_name, heading_json}
use mathlib.Core.Option

pub record RenderedBlockRecord : Type 0 where
  pub block_id : Text
  pub content : Text
  pub heading_path : Option (List Text)
  pub source_document_id : Text
  pub source_type : Text

unfoldable pub record_of : ContextBlock → RenderedBlockRecord
unfolding source_type_name
record_of b = record {
  block_id = b.id;
  content = b.content;
  heading_path = b.heading_path;
  source_document_id = b.source_document_id;
  source_type = source_type_name b.source_type;
}

-- The record as a value of JSON. An absent path omits the key.
unfoldable pub record_json : RenderedBlockRecord → Json
unfolding heading_json
record_json r = object (
    field (units "blockId") (string r.block_id) (
      field (units "content") (string r.content) (
        optional (units "headingPath") (Option.map heading_json r.heading_path) (
          field (units "sourceDocumentId") (string r.source_document_id)
            (field (units "sourceType") (string r.source_type) end)))))

-- `lines.join('\n')`
unfoldable pub join_lines : List Text → Text
join_lines [] = []
join_lines (t ∷ []) = t
join_lines (t ∷ u ∷ ts) = t ++ 10 ∷ join_lines (u ∷ ts)

unfoldable pub render_ordered_candidates : List ContextBlock → Text
unfolding record_of record_json
render_ordered_candidates blocks =
    join_lines (map (λ b. canonical_json (record_json (record_of b))) blocks)
