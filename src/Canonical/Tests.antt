-- ===== src/Canonical/Tests.antt =====
-- Serialized strings, and what the reader makes of them.
use ctxalloc.Shared.{◌≡◌, refl, some, [], ◌∷◌, ◌++◌, units}
use ctxalloc.Canonical.{quote_json}
use ctxalloc.Canonical.Reader.{read_string, read_string-quote_json}

quoted :
    quote_json (0xd83d ∷ 0xde00 ∷ 0xd83d ∷ 10 ∷ 34 ∷ [])
    ≡ 34 ∷ 0xd83d ∷ 0xde00 ∷ units "\\ud83d\\n\\" ++ 34 ∷ 34 ∷ []
unfolding quote_json
quoted = refl

read_back : read_string (units "\"a\\u0001\\\\\", b") ≡ some (b'a' ∷ 1 ∷ 92 ∷ [], units ", b")
unfolding read_string
read_back = refl

read_string-quote_json_example :
    read_string (quote_json (units "a\"\\") ++ units ",1") ≡ some (units "a\"\\", units ",1")
read_string-quote_json_example = read_string-quote_json (units "a\"\\") (units ",1")
