-- ===== src/Orderer/Compare.antt =====
-- The comparison of blocks in packages/compiler/src/context-orderer.ts.
use ctxalloc.Shared.{ℕ, compare, Ordering, ◌orelse◌, Option, none, some, Text, compare_code_units}
use ctxalloc.Canonical.{canonical_json}
use ctxalloc.Domain.ContextBlock.{SourceLocation, text_range, conversation_message, ContextBlock}
use ctxalloc.Domain.Serialized.{block_json}

-- `LOCATION_KIND_RANK`
abbrev pub location_kind_rank : SourceLocation → ℕ
location_kind_rank (text_range _ _ _ _) = 0
location_kind_rank (conversation_message _ _) = 1

abbrev pub compare_numbers : ℕ → ℕ → Ordering
compare_numbers a b = compare a b

-- Two messages by their indices, one that has none last, and then by their identifiers.
unfoldable pub compare_messages : Text → Option ℕ → Text → Option ℕ → Ordering
compare_messages left none right none = compare_code_units left right
compare_messages left none right (some _) = Ordering.gt
compare_messages left (some _) right none = Ordering.lt
compare_messages left (some i) right (some j) =
    compare_numbers i j orelse compare_code_units left right

-- Two locations of one kind; the lines of a text range take no part.
unfoldable pub compare_same_kind : SourceLocation → SourceLocation → Ordering
unfolding compare_messages
compare_same_kind (text_range start stop _ _) (text_range start' stop' _ _) =
    compare_numbers start start' orelse compare_numbers stop stop'
compare_same_kind (text_range _ _ _ _) (conversation_message _ _) = Ordering.eq
compare_same_kind (conversation_message _ _) (text_range _ _ _ _) = Ordering.eq
compare_same_kind (conversation_message message index) (conversation_message message' index') =
    compare_messages message index message' index'

-- `compareLocation`: a block without a location comes last.
unfoldable pub compare_location : Option SourceLocation → Option SourceLocation → Ordering
unfolding compare_same_kind
compare_location none none = Ordering.eq
compare_location none (some _) = Ordering.gt
compare_location (some _) none = Ordering.lt
compare_location (some left) (some right) =
    compare_numbers (location_kind_rank left) (location_kind_rank right)
    orelse compare_same_kind left right

unfoldable pub compare_blocks : ContextBlock → ContextBlock → Ordering
unfolding compare_location
compare_blocks a b =
    compare_code_units a.source_document_id b.source_document_id
    orelse (compare_location a.source_location b.source_location
        orelse (compare_code_units a.id b.id
            orelse compare_code_units (canonical_json (block_json a))
                (canonical_json (block_json b))))
