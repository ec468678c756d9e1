-- ===== src/Canonical.antt =====
-- packages/compiler/src/canonical-json.ts: serialization that does not depend on the order in which
-- an object's properties were inserted. `JSON.stringify` of a string is the language's: it escapes
-- the quote, the backslash, control characters and lone surrogates.
use ctxalloc.Shared.{
  ℕ, ◌+◌, ◌/◌, ◌%◌, Bool, true, false, ◌&&◌, List, [], ◌∷◌, ◌++◌, map, Ordering, Text, ltb, leb,
  ◌==◌, if◌then◌else◌, units, compare_code_units, sort,
}
use ctxalloc.Shared.Json.{
  Json, null, boolean, number, string, array, object, Items, nil, cons, Fields, end, field,
}
pub mod Reader
mod Tests

unfoldable pub hex_digit : ℕ → ℕ
hex_digit d = if ltb d 10 then 48 + d else 87 + d

-- `\u` and four lowercase hexadecimal digits
unfoldable pub unicode_escape : ℕ → Text
unfolding hex_digit
unicode_escape c =
    b'\\'
    ∷ b'u'
    ∷ hex_digit (c / 4096)
    ∷ hex_digit (c / 256 % 16)
    ∷ hex_digit (c / 16 % 16)
    ∷ hex_digit (c % 16)
    ∷ []

unfoldable pub is_surrogate : ℕ → Bool
is_surrogate c = leb 0xd800 c && leb c 0xdfff

unfoldable pub is_lead : ℕ → Bool
is_lead c = leb 0xd800 c && leb c 0xdbff

unfoldable pub is_trail : ℕ → Bool
is_trail c = leb 0xdc00 c && leb c 0xdfff

unfoldable pub escape : ℕ → Text
unfolding unicode_escape is_surrogate
escape c =
    if c == 8
    then units "\\b"
    else if c == 9
    then units "\\t"
    else if c == 10
    then units "\\n"
    else if c == 12
    then units "\\f"
    else if c == 13
    then units "\\r"
    else if c == 34
    then b'\\' ∷ 34 ∷ []
    else if c == 92
    then b'\\' ∷ b'\\' ∷ []
    else if ltb c 32
    then unicode_escape c
    else if is_surrogate c
    then unicode_escape c
    else c ∷ []

-- A lead surrogate with its trail stays as it is.
unfoldable pub escape_all : Text → Text
unfolding escape is_lead is_trail
escape_all [] = []
escape_all (c ∷ []) = escape c
escape_all (c ∷ d ∷ rest) =
    let paired = c ∷ d ∷ escape_all rest in
    let single = escape c ++ escape_all (d ∷ rest) in
    if is_lead c && is_trail d then paired else single

unfoldable pub quote_json : Text → Text
unfolding escape_all
quote_json s = 34 ∷ escape_all s ++ 34 ∷ []

-- `parts.join(',')`
unfoldable pub join : List Text → Text
join [] = []
join (t ∷ []) = t
join (t ∷ u ∷ ts) = t ++ b',' ∷ join (u ∷ ts)

-- Entries by key, in code-unit order.
unfoldable pub compare_entries : Text × Text → Text × Text → Ordering
compare_entries a b = compare_code_units a.0 b.0

unfoldable pub render_entry : Text × Text → Text
render_entry e = quote_json e.0 ++ b':' ∷ e.1

unfoldable pub render_object : List (Text × Text) → Text
unfolding compare_entries render_entry
render_object entries = b'{' ∷ join (map render_entry (sort compare_entries entries)) ++ b'}' ∷ []

unfoldable mutual
  pub canonical_json : Json → Text
  canonical_json null = units "null"
  canonical_json (boolean true) = units "true"
  canonical_json (boolean false) = units "false"
  canonical_json (number digits) = digits
  canonical_json (string s) = quote_json s
  canonical_json (array items) = b'[' ∷ join (canonical_items items) ++ b']' ∷ []
  canonical_json (object fields) = render_object (canonical_fields fields)

  pub canonical_items : Items → List Text
  canonical_items nil = []
  canonical_items (cons v rest) = canonical_json v ∷ canonical_items rest

  -- Each entry with its value serialized. The sort by key comes after, in `render_object`, since it
  -- reads the key alone.
  pub canonical_fields : Fields → List (Text × Text)
  canonical_fields end = []
  canonical_fields (field key v rest) = (key, canonical_json v) ∷ canonical_fields rest
