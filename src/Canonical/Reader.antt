-- ===== src/Canonical/Reader.antt =====
-- A reader of JSON strings, written from the grammar of JSON and not from the serialization of
-- packages/compiler/src/canonical-json.ts, and what it reads from a string that was serialized.
use ctxalloc.Shared.{
  ℕ, ◌+◌, ◌*◌, ◌-◌, ◌/◌, ◌%◌, ◌<◌, ◌≡◌, refl, sym, ap, ◌∙◌, inl, inr, true, false, ◌&&◌, Option,
  none, some, [], ◌∷◌, ◌++◌, arith, Text, ltb, ◌==◌, if◌then◌else◌, Bool-cases, tests, ==_iff,
  subst, ◌⊎◌,
}
use mathlib.Core.List.{append_assoc}
use ctxalloc.Canonical.{
  hex_digit, unicode_escape, is_surrogate, is_lead, is_trail, escape, escape_all, quote_json,
}

-- Where the reader stands: between characters, after a backslash, or after some of the four digits
-- of a code unit, with the value of those.
pub data Mode : Type 0 where
  plain escaped : Mode
  digits : ℕ → ℕ → Mode

unfoldable pub hex_value : ℕ → ℕ
hex_value c = if ltb c 58 then c - 48 else c - 87

-- What the letter after a backslash stands for.
unfoldable pub unescape : ℕ → ℕ
unescape c =
    if c == b'b'
    then 8
    else if c == b't'
    then 9
    else if c == b'n'
    then 10
    else if c == b'f'
    then 12
    else if c == b'r'
    then 13
    else c

abbrev pub push : ℕ → Option (Text × Text) → Option (Text × Text)
push c r = elim r [ none ↦ none | some e ↦ some (c ∷ e.0, e.1) ]

-- The text up to the closing quote, and what comes after it.
unfoldable pub read : Mode → Text → Option (Text × Text)
unfolding hex_value unescape
read mode [] = none
read plain (c ∷ cs) = elim (c == 34) [
  | true ↦ some ([], cs)
  | false ↦ (elim (c == 92) [ true ↦ read escaped cs | false ↦ push c (read plain cs) ])
]
read escaped (c ∷ cs) = elim (c == b'u') [
  | true ↦ read (digits 0 0) cs
  | false ↦ push (unescape c) (read plain cs)
]
read (digits k v) (c ∷ cs) = elim (k == 3) [
  | true ↦ push (v * 16 + hex_value c) (read plain cs)
  | false ↦ read (digits (k + 1) (v * 16 + hex_value c)) cs
]

unfoldable pub read_string : Text → Option (Text × Text)
unfolding read
read_string [] = none
read_string (c ∷ cs) = if c == 34 then read plain cs else none

hex_value-hex_digit : (d : ℕ) → d < 16 → hex_value (hex_digit d) ≡ d
unfolding hex_value hex_digit
hex_value-hex_digit d h = ground arith

surrogate-lt : (c : ℕ) → is_surrogate c ≡ true → c < 65536
unfolding is_surrogate
surrogate-lt c h = ground arith

read-unicode_escape :
    (c : ℕ) (rest : Text)
    → c < 65536
    → read plain (unicode_escape c ++ rest) ≡ push c (read plain rest)
unfolding read unicode_escape
read-unicode_escape c rest h =
    ap (λ n. push n (read plain rest))
      (omega (
        arith,
        hex_value-hex_digit (c / 4096),
        hex_value-hex_digit (c / 256 % 16),
        hex_value-hex_digit (c / 16 % 16),
        hex_value-hex_digit (c % 16),
      ))

abbrev Reads : ℕ → Text → Type 0
Reads c rest = read plain (escape c ++ rest) ≡ push c (read plain rest)

-- A short escape.
at : (k c : ℕ) (rest : Text) → (c == k) ≡ true → Reads k rest → Reads c rest
at k c rest same h = subst (λ n. Reads n rest) (sym ((==_iff c k).0 same)) h

-- A character without a short escape.
read-long :
    (c : ℕ) (rest : Text)
    → (c == 34) ≡ false
    → (c == 92) ≡ false
    → read plain (
        (if ltb c 32 then unicode_escape c else if is_surrogate c then unicode_escape c else c ∷ [])
        ++ rest)
      ≡ push c (read plain rest)
unfolding read
read-long c rest n34 n92 = elim (Bool-cases (ltb c 32)) [
  | inl low ↦ rw low (read-unicode_escape c rest (omega (tests, low)))
  | inr high ↦ elim (Bool-cases (is_surrogate c)) [
    | inl half ↦ rw (high, half) (read-unicode_escape c rest (surrogate-lt c half))
    | inr whole ↦ rw (high, whole) (ground arith)
  ]
]

read-escape : (c : ℕ) (rest : Text) → Reads c rest
unfolding escape read unescape
read-escape c rest = elim (Bool-cases (c == 8)) [
  | inl e ↦ at 8 c rest e refl
  | inr n8 ↦ elim (Bool-cases (c == 9)) [
    | inl e ↦ at 9 c rest e refl
    | inr n9 ↦ elim (Bool-cases (c == 10)) [
      | inl e ↦ at 10 c rest e refl
      | inr n10 ↦ elim (Bool-cases (c == 12)) [
        | inl e ↦ at 12 c rest e refl
        | inr n12 ↦ elim (Bool-cases (c == 13)) [
          | inl e ↦ at 13 c rest e refl
          | inr n13 ↦ elim (Bool-cases (c == 34)) [
            | inl e ↦ at 34 c rest e refl
            | inr n34 ↦ elim (Bool-cases (c == 92)) [
              | inl e ↦ at 92 c rest e refl
              | inr n92 ↦ rw (n8, n9, n10, n12, n13, n34, n92) (read-long c rest n34 n92)
            ]
          ]
        ]
      ]
    ]
  ]
]

read-raw :
    (c : ℕ) (rest : Text)
    → (is_lead c ≡ true) ⊎ (is_trail c ≡ true)
    → read plain (c ∷ rest) ≡ push c (read plain rest)
unfolding read is_lead is_trail
read-raw c rest h = ground arith

-- What was escaped is read back, up to the quote after it.
pub read-escape_all : (s rest : Text) → read plain (escape_all s ++ 34 ∷ rest) ≡ some (s, rest)
unfolding escape_all read
read-escape_all [] rest = refl
read-escape_all (c ∷ []) rest = read-escape c (34 ∷ rest) ∙ ap (push c) (read-escape_all [] rest)
read-escape_all (c ∷ d ∷ s) rest = elim (Bool-cases (is_lead c && is_trail d)) [
  | inl pair ↦ rw pair (
      read-raw c (d ∷ escape_all s ++ 34 ∷ rest) (inl (ground arith))
      ∙ ap (push c) (
          read-raw d (escape_all s ++ 34 ∷ rest) (inr (ground arith))
          ∙ ap (push d) (read-escape_all s rest)))
  | inr single ↦ rw single (
      rw append_assoc (
        read-escape c (escape_all (d ∷ s) ++ 34 ∷ rest)
        ∙ ap (push c) (read-escape_all (d ∷ s) rest)))
]

-- What is read from a serialized text and what follows it is the text and what follows it.
pub read_string-quote_json : (s rest : Text) → read_string (quote_json s ++ rest) ≡ some (s, rest)
unfolding read_string quote_json
read_string-quote_json s rest = rw append_assoc (read-escape_all s rest)
