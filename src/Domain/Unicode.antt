-- ===== src/Domain/Unicode.antt =====
-- packages/domain/src/unicode.ts, and the blank test `value.trim().length > 0` of the schemas.
use ctxalloc.Shared.{
  ℕ, ◌+◌, Bool, true, false, ◌&&◌, ◌||◌, Option, none, some, [], ◌∷◌, Text, leb, ltb, ◌==◌,
  if◌then◌else◌,
}

abbrev pub high_surrogate_first : ℕ
high_surrogate_first = 0xd800

abbrev pub high_surrogate_last : ℕ
high_surrogate_last = 0xdbff

abbrev pub low_surrogate_first : ℕ
low_surrogate_first = 0xdc00

abbrev pub low_surrogate_last : ℕ
low_surrogate_last = 0xdfff

abbrev pub is_surrogate : ℕ → Bool
is_surrogate u = leb high_surrogate_first u && leb u low_surrogate_last

abbrev pub is_low : ℕ → Bool
is_low u = leb low_surrogate_first u && leb u low_surrogate_last

-- The scan from an index on. The second code unit of a valid pair is skipped with the first.
unfoldable pub scan_surrogates : ℕ → Text → Option ℕ
scan_surrogates index [] = none
scan_surrogates index (unit ∷ []) = if is_surrogate unit then some index else none
scan_surrogates index (unit ∷ next ∷ rest) =
    let after_one = scan_surrogates (index + 1) (next ∷ rest) in
    let after_pair = scan_surrogates (index + 2) rest in
    if is_surrogate unit
    then (if ltb high_surrogate_last unit
        then some index
        else if is_low next
        then after_pair
        else some index)
    else after_one

unfoldable pub find_lone_surrogate : Text → Option ℕ
unfolding scan_surrogates
find_lone_surrogate text = scan_surrogates 0 text

-- The code units that `trim` removes.
abbrev is_white : ℕ → Bool
is_white u =
    (leb 9 u && leb u 13)
    || u == 32
    || u == 0xa0
    || u == 0x1680
    || (leb 0x2000 u && leb u 0x200a)
    || u == 0x2028
    || u == 0x2029
    || u == 0x202f
    || u == 0x205f
    || u == 0x3000
    || u == 0xfeff

-- Empty or whitespace only, `value.trim().length === 0`.
unfoldable pub is_blank : Text → Bool
is_blank [] = true
is_blank (u ∷ rest) = is_white u && is_blank rest

-- The refinements of a policy string: not blank, and well-formed UTF-16.
unfoldable pub is_policy_string : Text → Bool
unfolding find_lone_surrogate is_blank
is_policy_string s = elim (find_lone_surrogate s) [
  | some _ ↦ false
  | none ↦ (if is_blank s then false else true)
]

-- A category key may be blank.
unfoldable pub is_category_string : Text → Bool
unfolding find_lone_surrogate
is_category_string s = elim (find_lone_surrogate s) [ some _ ↦ false | none ↦ true ]
