-- ===== src/Renderer/RoundTrip.antt =====
-- What packages/compiler/src/context-renderer.ts renders can be read back.
use ctxalloc.Shared.{
  ℕ, zero, suc, ◌≡◌, ◌≤◌, subst, refl, sym, ap, ◌∙◌, Option, none, some, List, [], ◌∷◌, ◌++◌, map,
  arith, Text, units, length, All, length-append,
}
use mathlib.Core.List.{append_assoc}
use ctxalloc.Shared.Json.{strings}
use ctxalloc.Canonical.{quote_json, join, canonical_items, canonical_json, render_object}
use ctxalloc.Canonical.Reader.{read_string-quote_json}
use ctxalloc.Domain.ContextBlock.{ContextBlock}
use ctxalloc.Renderer.Records.{
  RenderedBlockRecord, record_of, record_json, join_lines, render_ordered_candidates,
}
use ctxalloc.Renderer.Lines.{OneLine, split_lines, split_lines-join_lines}
use ctxalloc.Renderer.Written.{items, path_text, line_of, canonical_json-line_of, record-OneLine}
use ctxalloc.Renderer.Reader.{
  expect, read_tail, read_array, read_path, read_record, read_records, read_context,
}

-- A serialized string is read, whatever follows it.
expect-append : (t rest : Text) → expect t (t ++ rest) ≡ some rest
unfolding expect
expect-append [] rest = refl
expect-append (c ∷ t) rest = ground (arith, expect-append t rest)

-- The strings after the first one of an array.
tail_text : List Text → Text → Text
tail_text [] rest = 93 ∷ rest
tail_text (t ∷ ts) rest = 44 ∷ quote_json t ++ tail_text ts rest

read_tail-tail_text :
    (fuel : ℕ) (ts : List Text) (rest : Text)
    → length (tail_text ts rest) ≤ fuel
    → read_tail fuel (tail_text ts rest) ≡ some (ts, rest)
unfolding read_tail tail_text
read_tail-tail_text zero [] rest h = absurd (omega (arith, h))
read_tail-tail_text zero (t ∷ ts) rest h = absurd (omega (arith, h))
read_tail-tail_text (suc fuel) [] rest h = refl
read_tail-tail_text (suc fuel) (t ∷ ts) rest h = rw (
  read_string-quote_json t (tail_text ts rest),
  read_tail-tail_text fuel ts rest
      (omega (arith, h, length-append (quote_json t) (tail_text ts rest))),
)

items-tail_text :
    (t : Text) (ts : List Text) (rest : Text)
    → items (t ∷ ts) ++ 93 ∷ rest ≡ quote_json t ++ tail_text ts rest
unfolding join canonical_items canonical_json strings tail_text
items-tail_text t [] rest = refl
items-tail_text t (u ∷ ts) rest =
    simp append_assoc (ap (λ r. quote_json t ++ 44 ∷ r) (items-tail_text u ts rest))

read_array-first :
    (t r : Text) (ts : List Text) (rest : Text)
    → read_tail (length r) r ≡ some (ts, rest)
    → read_array (quote_json t ++ r) ≡ some (t ∷ ts, rest)
unfolding read_array quote_json
read_array-first t r ts rest h = rw (read_string-quote_json t r, h)

pub read_array-items :
    (ts : List Text) (rest : Text) → read_array (items ts ++ 93 ∷ rest) ≡ some (ts, rest)
unfolding read_array join canonical_items strings
read_array-items [] rest = refl
read_array-items (t ∷ ts) rest = rw (items-tail_text t ts rest) (
    read_array-first t (tail_text ts rest) ts rest
      (read_tail-tail_text (length (tail_text ts rest)) ts rest (omega arith)))

abbrev after_path : Text
after_path = units ",\"sourceDocumentId\":"

read_path-path_text :
    (path : Option (List Text)) (rest : Text)
    → read_path (path_text path (after_path ++ rest)) ≡ some (path, after_path ++ rest)
unfolding read_path expect path_text
read_path-path_text none rest = refl
read_path-path_text (some ts) rest = rw (read_array-items ts (after_path ++ rest))

read_record-line_of : (r : RenderedBlockRecord) → read_record (line_of r) ≡ some r
unfolding read_record line_of expect
read_record-line_of r = simp (read_string-quote_json, read_path-path_text)

read_record-canonical_json :
    (r : RenderedBlockRecord) → read_record (canonical_json (record_json r)) ≡ some r
read_record-canonical_json r = ap read_record (canonical_json-line_of r) ∙ read_record-line_of r

-- The text of a block's record.
abbrev text_of : ContextBlock → Text
text_of b = canonical_json (record_json (record_of b))

read_records-map :
    (blocks : List ContextBlock) → read_records (map text_of blocks) ≡ some (map record_of blocks)
unfolding read_records
read_records-map [] = refl
read_records-map (b ∷ bs) = rw (read_record-canonical_json (record_of b), read_records-map bs)

texts-OneLine : (blocks : List ContextBlock) → All OneLine (map text_of blocks)
texts-OneLine [] = tt
texts-OneLine (b ∷ bs) = (record-OneLine (record_of b), texts-OneLine bs)

read_context-join_lines :
    (t : Text) (ts : List Text)
    → read_context (join_lines ((b'{' ∷ t) ∷ ts))
      ≡ read_records (split_lines (join_lines ((b'{' ∷ t) ∷ ts)))
unfolding read_context join_lines
read_context-join_lines t [] = refl
read_context-join_lines t (u ∷ ts) = refl

record-start : (r : RenderedBlockRecord) → (t : Text) × (canonical_json (record_json r) ≡ b'{' ∷ t)
unfolding canonical_json record_json render_object
record-start r = (_, refl)

-- From the text that a selection renders to, a reader gets the record of each block back, in order:
-- no content, however it reads, can pass for another block or for the end of one.
pub read_context-render_ordered_candidates :
    (blocks : List ContextBlock)
    → read_context (render_ordered_candidates blocks) ≡ some (map record_of blocks)
unfolding render_ordered_candidates read_context join_lines
read_context-render_ordered_candidates [] = refl
read_context-render_ordered_candidates (b ∷ bs) =
    let (t, starts) = record-start (record_of b) in
    subst
      (λ first.
        read_context (join_lines (first ∷ map text_of bs))
        ≡ read_records (split_lines (join_lines (first ∷ map text_of bs))))
      (sym starts) (read_context-join_lines t (map text_of bs))
    ∙ ap read_records (
        split_lines-join_lines (text_of b) (map text_of bs) (record-OneLine (record_of b))
          (texts-OneLine bs))
    ∙ read_records-map (b ∷ bs)
