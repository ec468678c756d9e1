-- ===== src/Domain/Serialized.antt =====
-- The own properties of the records of packages/domain/src, as `Object.entries` lists them for a
-- record that its schema has parsed: in the schema's order, and without the undefined ones.
use ctxalloc.Shared.{List, ◌∷◌, units, if◌then◌else◌, Text}
use ctxalloc.Shared.Json.{
  Json, boolean, string, number, array, object, Fields, end, field, optional, strings, decimal,
  natural,
}
use ctxalloc.Domain.ContextBlock.{
  Scope, SourceLocation, text_range, conversation_message, SourceType, markdown, text, conversation,
  Priority, Attributes, ContextBlock, RetrievalScore, Retrieval, CandidateBlock,
}
use mathlib.Core.Option

scope_json : Scope → Json
scope_json s = object (
    field (units "tenantId") (string s.tenant_id) (
      field (units "workspaceId") (string s.workspace_id)
        (optional (units "projectId") (Option.map string s.project_id) end)))

location_json : SourceLocation → Json
location_json (text_range start stop start_line stop_line) = object (
    field (units "kind") (string (units "text-range")) (
      field (units "startOffset") (natural start) (
        field (units "endOffset") (natural stop) (
          optional (units "startLine") (Option.map natural start_line)
            (optional (units "endLine") (Option.map natural stop_line) end)))))
location_json (conversation_message message index) = object (
    field (units "kind") (string (units "conversation-message")) (
      field (units "messageId") (string message)
        (optional (units "messageIndex") (Option.map natural index) end)))

unfoldable pub source_type_name : SourceType → Text
source_type_name markdown = units "markdown"
source_type_name text = units "text"
source_type_name conversation = units "conversation"

priority_json : Priority → Json
priority_json p = number (if p.negative then b'-' ∷ decimal p.amount else decimal p.amount)

attributes_json : Attributes → Json
attributes_json a = object (
    optional (units "required") (Option.map boolean a.required) (
      optional (units "priority") (Option.map priority_json a.priority)
        (optional (units "category") (Option.map string a.category) end)))

unfoldable pub heading_json : List Text → Json
heading_json path = array (strings path)

unfoldable pub block_json : ContextBlock → Json
unfolding scope_json location_json source_type_name priority_json attributes_json heading_json
block_json b = object (
    field (units "id") (string b.id) (
      field (units "schemaVersion") (natural 1) (
        field (units "scope") (scope_json b.scope) (
          field (units "sourceDocumentId") (string b.source_document_id) (
            field (units "sourceType") (string (source_type_name b.source_type)) (
              optional (units "sourceLocation") (Option.map location_json b.source_location) (
                field (units "content") (string b.content) (
                  field (units "normalizedContentHash") (string b.normalized_content_hash) (
                    field (units "tokenCount") (natural b.token_count) (
                      optional (units "headingPath") (Option.map heading_json b.heading_path)
                        dated))))))))))
  where
    dated : Fields
    dated = optional (units "createdAt") (Option.map string b.created_at) (
        optional (units "updatedAt") (Option.map string b.updated_at) (
          field (units "attributes") (attributes_json b.attributes)
            (field (units "metadata") (object b.metadata) end)))

score_json : RetrievalScore → Json
score_json s = object (
    field (units "value") (number s.value) (
      field (units "semantics") (string s.semantics)
        (field (units "higherIsBetter") (boolean s.higher_is_better) end)))

retrieval_json : Retrieval → Json
unfolding score_json
retrieval_json r = object (
    field (units "providerId") (string r.provider_id) (
      field (units "providerVersion") (string r.provider_version) (
        optional (units "rank") (Option.map natural r.rank) (
          optional (units "score") (Option.map score_json r.score)
            (optional (units "metadata") (Option.map object r.metadata) end)))))

unfoldable pub candidate_json : CandidateBlock → Json
unfolding retrieval_json
candidate_json c = object (
    field (units "schemaVersion") (natural 1) (
      field (units "block") (block_json c.block)
        (optional (units "retrieval") (Option.map retrieval_json c.retrieval) end)))
