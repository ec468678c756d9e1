-- ===== src/Renderer/Written.antt =====
-- A rendered record of packages/compiler/src/context-renderer.ts, written out, is one line.
use ctxalloc.Shared.{
  ◌≡◌, refl, subst, sym, Bool, true, not, ◌&&◌, Option, none, some, List, [], ◌∷◌, ◌++◌, arith,
  Text, units, ◌==◌, sort, compare_code_units, All-append,
}
use mathlib.Core.List.{append_assoc}
use ctxalloc.Shared.Json.{strings, optional}
use ctxalloc.Canonical.{
  canonical_fields, quote_json, join, canonical_items, canonical_json, render_object,
  compare_entries, render_entry,
}
use ctxalloc.Renderer.Records.{RenderedBlockRecord, record_json}
use ctxalloc.Renderer.Lines.{OneLine, quote_json-OneLine}

-- The texts of an array's strings, joined.
abbrev pub items : List Text → Text
items ts = join (canonical_items (strings ts))

unfoldable pub path_text : Option (List Text) → Text → Text
path_text none rest = rest
path_text (some ts) rest = units ",\"headingPath\":[" ++ (items ts ++ 93 ∷ rest)

-- The ends of a rendered record, from a field on.
abbrev type_text : RenderedBlockRecord → Text
type_text r = units ",\"sourceType\":" ++ (quote_json r.source_type ++ units "}")

abbrev document_text : RenderedBlockRecord → Text
document_text r = units ",\"sourceDocumentId\":" ++ (quote_json r.source_document_id ++ type_text r)

abbrev content_text : RenderedBlockRecord → Text
content_text r =
    units ",\"content\":" ++ (quote_json r.content ++ path_text r.heading_path (document_text r))

-- A rendered record, written out.
unfoldable pub line_of : RenderedBlockRecord → Text
unfolding path_text
line_of r = units "{\"blockId\":" ++ (quote_json r.block_id ++ content_text r)

written :
    (id content : Text) (path : Option (List Text)) (document type : Text)
    → let r : RenderedBlockRecord = record {
      block_id = id;
      content = content;
      heading_path = path;
      source_document_id = document;
      source_type = type;
    } in
      canonical_json (record_json r) ≡ line_of r
unfolding line_of record_json canonical_json render_object render_entry compare_entries sort
    compare_code_units optional join quote_json canonical_fields canonical_items
written id content none document type = simp append_assoc
written id content (some ts) document type = simp append_assoc

pub canonical_json-line_of : (r : RenderedBlockRecord) → canonical_json (record_json r) ≡ line_of r
canonical_json-line_of r =
    written r.block_id r.content r.heading_path r.source_document_id r.source_type

feedless : Text → Bool
feedless [] = true
feedless (c ∷ t) = not (c == 10) && feedless t

-- A literal without a line feed.
literal-OneLine : (t : Text) → feedless t ≡ true → OneLine t
unfolding feedless
literal-OneLine [] h = tt
literal-OneLine (c ∷ t) h = (ground arith, literal-OneLine t (ground arith))

append-OneLine : (s t : Text) → OneLine s → OneLine t → OneLine (s ++ t)
append-OneLine s t h k = All-append _ s t h k

items-OneLine : (ts : List Text) → OneLine (items ts)
unfolding join canonical_items canonical_json strings
items-OneLine [] = tt
items-OneLine (t ∷ []) = quote_json-OneLine t
items-OneLine (t ∷ u ∷ ts) =
    append-OneLine (quote_json t) (b',' ∷ items (u ∷ ts)) (quote_json-OneLine t)
      (refl, items-OneLine (u ∷ ts))

path_text-OneLine :
    (path : Option (List Text)) (rest : Text) → OneLine rest → OneLine (path_text path rest)
unfolding path_text feedless
path_text-OneLine none rest h = h
path_text-OneLine (some ts) rest h =
    append-OneLine (units ",\"headingPath\":[") (items ts ++ 93 ∷ rest)
      (literal-OneLine (units ",\"headingPath\":[") refl)
      (append-OneLine (items ts) (93 ∷ rest) (items-OneLine ts) (refl, h))

-- A literal and a serialized string before the rest of a line.
entry-OneLine :
    (key value rest : Text)
    → feedless key ≡ true
    → OneLine rest
    → OneLine (key ++ (quote_json value ++ rest))
entry-OneLine key value rest h k =
    append-OneLine key (quote_json value ++ rest) (literal-OneLine key h)
      (append-OneLine (quote_json value) rest (quote_json-OneLine value) k)

line_of-OneLine : (r : RenderedBlockRecord) → OneLine (line_of r)
unfolding line_of feedless
line_of-OneLine r = entry-OneLine (units "{\"blockId\":") r.block_id (content_text r) refl (
    entry-OneLine (units ",\"content\":") r.content (path_text r.heading_path (document_text r))
      refl
      (path_text-OneLine r.heading_path (document_text r) (
        entry-OneLine (units ",\"sourceDocumentId\":") r.source_document_id (type_text r) refl
          (entry-OneLine (units ",\"sourceType\":") r.source_type (units "}") refl (refl, tt)))))

pub record-OneLine : (r : RenderedBlockRecord) → OneLine (canonical_json (record_json r))
record-OneLine r = subst OneLine (sym (canonical_json-line_of r)) (line_of-OneLine r)
