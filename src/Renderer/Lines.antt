-- ===== src/Renderer/Lines.antt =====
-- The lines of a rendered context: a serialized record has no line feed, so splitting the text of
-- packages/compiler/src/context-renderer.ts at each one gives the records' texts back.
use ctxalloc.Shared.{
  ℕ, ◌≡◌, ◌⊎◌, refl, ap, ◌∙◌, inl, inr, Bool, true, false, ◌&&◌, List, [], ◌∷◌, ◌++◌, arith, Text,
  ◌==◌, if◌then◌else◌, Bool-cases, All, All-append, subst, sym, ==_iff, ◌/◌, ◌%◌,
}
use ctxalloc.Canonical.{
  escape, escape_all, quote_json, is_lead, is_trail, unicode_escape, hex_digit,
}
use ctxalloc.Renderer.Records.{join_lines}

-- The rest of the line at hand, and the lines after it.
pub data Lines : Type 0 where
  line : Text → List Text → Lines

abbrev pub prepend : ℕ → Lines → Lines
prepend c (line t ts) = line (c ∷ t) ts

abbrev pub all_lines : Lines → List Text
all_lines (line t ts) = t ∷ ts

unfoldable pub split : Text → Lines
split [] = line [] []
split (c ∷ cs) = elim (c == 10) [
  | true ↦ line [] (all_lines (split cs))
  | false ↦ prepend c (split cs)
]

-- `text.split('\n')`
unfoldable pub split_lines : Text → List Text
unfolding split
split_lines text = all_lines (split text)

abbrev pub OneLine : Text → Type 0
OneLine = All (λ c. (c == 10) ≡ false)

split-OneLine : (t : Text) → OneLine t → split t ≡ line t []
unfolding split
split-OneLine [] h = refl
split-OneLine (c ∷ t) h = rw (h.0, split) (ap (prepend c) (split-OneLine t h.1))

split-append :
    (t rest : Text) → OneLine t → split (t ++ 10 ∷ rest) ≡ line t (all_lines (split rest))
unfolding split
split-append [] rest h = refl
split-append (c ∷ t) rest h = rw (h.0, split) (ap (prepend c) (split-append t rest h.1))

-- Lines without a line feed are what their join splits into.
pub split_lines-join_lines :
    (t : Text) (ts : List Text)
    → OneLine t
    → All OneLine ts
    → split_lines (join_lines (t ∷ ts)) ≡ t ∷ ts
unfolding split_lines join_lines
split_lines-join_lines t [] h k = ap all_lines (split-OneLine t h)
split_lines-join_lines t (u ∷ ts) h k =
    ap all_lines (split-append t (join_lines (u ∷ ts)) h)
    ∙ ap (λ us. t ∷ us) (split_lines-join_lines u ts k.0 k.1)

digit-OneLine : (d : ℕ) → (hex_digit d == 10) ≡ false
unfolding hex_digit
digit-OneLine d = ground arith

unicode_escape-OneLine : (c : ℕ) → OneLine (unicode_escape c)
unfolding unicode_escape
unicode_escape-OneLine c = (
  refl,
  (
    refl,
    (
      digit-OneLine (c / 4096),
      (digit-OneLine (c / 256 % 16), (digit-OneLine (c / 16 % 16), (digit-OneLine (c % 16), tt))),
    ),
  ),
)

either : (P : Text → Type 0) (b : Bool) (s t : Text) → P s → P t → P (if b then s else t)
either P true s t h k = h
either P false s t h k = k

-- A character is escaped by a letter, by its code, or not at all.
escape_cases :
    (P : Text → Type 0) (c : ℕ)
    → ((l : ℕ) → (l == 10) ≡ false → P (b'\\' ∷ l ∷ []))
    → P (unicode_escape c)
    → P (c ∷ [])
    → P (escape c)
unfolding escape
escape_cases P c short long bare = either P _ _ _ (short b'b' refl) (
    either P _ _ _ (short b't' refl) (
      either P _ _ _ (short b'n' refl) (
        either P _ _ _ (short b'f' refl) (
          either P _ _ _ (short b'r' refl) (
            either P _ _ _ (short 34 refl)
              (either P _ _ _ (short 92 refl) (either P _ _ _ long (either P _ _ _ long bare))))))))

escape-OneLine : (c : ℕ) → OneLine (escape c)
unfolding escape
escape-OneLine c = elim (Bool-cases (c == 10)) [
  | inl feed ↦ subst (λ n. OneLine (escape n)) (sym ((==_iff c 10).0 feed)) (refl, (refl, tt))
  | inr other ↦
      escape_cases OneLine c (λ l h. (refl, (h, tt))) (unicode_escape-OneLine c) (other, tt)
]

unit_high : (c : ℕ) → (is_lead c ≡ true) ⊎ (is_trail c ≡ true) → (c == 10) ≡ false
unfolding is_lead is_trail
unit_high c h = ground arith

escape_all-OneLine : (s : Text) → OneLine (escape_all s)
unfolding escape_all
escape_all-OneLine [] = tt
escape_all-OneLine (c ∷ []) = escape-OneLine c
escape_all-OneLine (c ∷ d ∷ s) = elim (Bool-cases (is_lead c && is_trail d)) [
  | inl pair ↦
      rw pair
        (unit_high c (inl (ground arith)), (unit_high d (inr (ground arith)), escape_all-OneLine s))
  | inr single ↦
      rw single (
        All-append _ (escape c) (escape_all (d ∷ s)) (escape-OneLine c)
          (escape_all-OneLine (d ∷ s)))
]

-- A serialized string is one line.
pub quote_json-OneLine : (s : Text) → OneLine (quote_json s)
unfolding quote_json
quote_json-OneLine s =
    (refl, All-append _ (escape_all s) (34 ∷ []) (escape_all-OneLine s) (refl, tt))
