-- ===== src/Domain/ContextBlock.antt =====
-- The records of packages/domain/src: scope.ts, source-location.ts, source-document.ts,
-- context-block.ts and candidate-block.ts.
use ctxalloc.Shared.{ℕ, Bool, false, Option, none, some, List, Text}
use ctxalloc.Shared.Json.{Fields}

pub record Scope : Type 0 where
  pub tenant_id : Text
  pub workspace_id : Text
  pub project_id : Option Text

pub data SourceLocation : Type 0 where
  text_range : ℕ → ℕ → Option ℕ → Option ℕ → SourceLocation
  conversation_message : Text → Option ℕ → SourceLocation

pub data SourceType : Type 0 where
  markdown text conversation : SourceType

pub record SourceDocument : Type 0 where
  pub id : Text
  pub scope : Scope
  pub source_type : SourceType
  pub title : Option Text
  pub content_hash : Text
  pub created_at : Option Text
  pub updated_at : Option Text
  pub metadata : Fields

-- A priority is an integer: its sign and its absolute value.
pub record Priority : Type 0 where
  pub negative : Bool
  pub amount : ℕ

pub record Attributes : Type 0 where
  pub required : Option Bool
  pub priority : Option Priority
  pub category : Option Text

pub record ContextBlock : Type 0 where
  pub id : Text
  pub scope : Scope
  pub source_document_id : Text
  pub source_type : SourceType
  pub source_location : Option SourceLocation
  pub content : Text
  pub normalized_content_hash : Text
  pub token_count : ℕ
  pub heading_path : Option (List Text)
  pub created_at : Option Text
  pub updated_at : Option Text
  pub attributes : Attributes
  pub metadata : Fields

-- The score of a provider is kept as the digits of its value.
pub record RetrievalScore : Type 0 where
  pub value : Text
  pub semantics : Text
  pub higher_is_better : Bool

pub record Retrieval : Type 0 where
  pub provider_id : Text
  pub provider_version : Text
  pub rank : Option ℕ
  pub score : Option RetrievalScore
  pub metadata : Option Fields

pub record CandidateBlock : Type 0 where
  pub block : ContextBlock
  pub retrieval : Option Retrieval

-- `block.attributes.required === true`
abbrev pub is_true : Option Bool → Bool
is_true none = false
is_true (some b) = b

abbrev pub is_required : ContextBlock → Bool
is_required block = is_true block.attributes.required
