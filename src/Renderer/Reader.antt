-- ===== src/Renderer/Reader.antt =====
-- A reader of the lines that packages/compiler/src/context-renderer.ts renders.
use ctxalloc.Shared.{
  ℕ, zero, suc, Option, none, some, List, [], ◌∷◌, Text, units, ◌==◌, if◌then◌else◌, length,
}
use ctxalloc.Canonical.Reader.{read_string}
use ctxalloc.Renderer.Records.{RenderedBlockRecord}
use ctxalloc.Renderer.Lines.{split_lines}

infixl 5 ◌>>=◌
abbrev pub ◌>>=◌ {ℓ κ} : {A : Type ℓ} {B : Type κ} → Option A → (A → Option B) → Option B
none >>= f = none
some a >>= f = f a

-- What comes after a given beginning.
unfoldable pub expect : Text → Text → Option Text
expect [] t = some t
expect (c ∷ cs) [] = none
expect (c ∷ cs) (d ∷ t) = let rest = expect cs t in if c == d then rest else none

-- The rest of an array of strings, after one of them. Each takes a character at least.
unfoldable pub read_tail : ℕ → Text → Option (List Text × Text)
read_tail zero t = none
read_tail (suc fuel) [] = none
read_tail (suc fuel) (c ∷ t) =
    let more = (do e ← read_string t; es ← read_tail fuel e.1; some (e.0 ∷ es.0, es.1)) in
    if c == 93 then some ([], t) else if c == 44 then more else none

-- An array of strings, after its bracket.
unfoldable pub read_array : Text → Option (List Text × Text)
unfolding read_tail
read_array [] = none
read_array (c ∷ t) =
    let more = (do
      e ← read_string (c ∷ t)
      es ← read_tail (length e.1) e.1
      some (e.0 ∷ es.0, es.1)) in
    if c == 93 then some ([], t) else more

unfoldable pub read_path : Text → Option (Option (List Text) × Text)
unfolding read_array
read_path t = elim (expect (units ",\"headingPath\":[") t) [
  | none ↦ some (none, t)
  | some rest ↦ (do path ← read_array rest; some (some path.0, path.1))
]

abbrev pub whole : RenderedBlockRecord → Text → Option RenderedBlockRecord
whole r [] = some r
whole r (c ∷ t) = none

unfoldable pub read_record : Text → Option RenderedBlockRecord
unfolding expect read_path
read_record t = do
  t1 ← expect (units "{\"blockId\":") t
  id ← read_string t1
  t2 ← expect (units ",\"content\":") id.1
  content ← read_string t2
  path ← read_path content.1
  t3 ← expect (units ",\"sourceDocumentId\":") path.1
  document ← read_string t3
  t4 ← expect (units ",\"sourceType\":") document.1
  type ← read_string t4
  t5 ← expect (units "}") type.1
  whole
      (record {
        block_id = id.0;
        content = content.0;
        heading_path = path.0;
        source_document_id = document.0;
        source_type = type.0;
      })
      t5

unfoldable pub read_records : List Text → Option (List RenderedBlockRecord)
unfolding read_record
read_records [] = some []
read_records (line ∷ rest) = do r ← read_record line; rs ← read_records rest; some (r ∷ rs)

-- The records of a context. The empty text is the context of no block.
unfoldable pub read_context : Text → Option (List RenderedBlockRecord)
unfolding read_records
read_context [] = some []
read_context (c ∷ t) = read_records (split_lines (c ∷ t))
