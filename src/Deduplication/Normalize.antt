-- ===== src/Deduplication/Normalize.antt =====
-- What the normalization of packages/domain/src/block-content-hash.ts does to line ends.
use ctxalloc.Shared.{◌≡◌, ◌≢◌, refl, ap, ◌∙◌, [], ◌∷◌, ◌++◌, arith, Text, All}
use ctxalloc.Deduplication.Group.{replace_crlf, replace_cr, normalize_content}

-- A text has no CR.
abbrev pub HasNoCr : Text → Type 0
HasNoCr = All (λ c. c ≢ 13)

replace_cr-HasNoCr : (s : Text) → HasNoCr (replace_cr s)
unfolding replace_cr
replace_cr-HasNoCr [] = tt
replace_cr-HasNoCr (c ∷ s) = ((λ e. absurd (ground (arith, e))), replace_cr-HasNoCr s)

replace_crlf-same : (s : Text) → HasNoCr s → replace_crlf s ≡ s
unfolding replace_crlf
replace_crlf-same [] h = refl
replace_crlf-same (c ∷ []) h = refl
replace_crlf-same (c ∷ d ∷ s) h = ground (arith, h.0, replace_crlf-same (d ∷ s) h.1)

replace_cr-same : (s : Text) → HasNoCr s → replace_cr s ≡ s
unfolding replace_cr
replace_cr-same [] h = refl
replace_cr-same (c ∷ s) h = ground (arith, h.0, replace_cr-same s h.1)

replace_crlf-line :
    (s t : Text) → replace_crlf (s ++ 13 ∷ 10 ∷ t) ≡ replace_crlf s ++ 10 ∷ replace_crlf t
unfolding replace_crlf
replace_crlf-line [] t = refl
replace_crlf-line (c ∷ []) t = ground arith
replace_crlf-line (c ∷ d ∷ s) t = ground (arith, replace_crlf-line s t, replace_crlf-line (d ∷ s) t)

replace_cr-line : (s t : Text) → replace_cr (s ++ 10 ∷ t) ≡ replace_cr s ++ 10 ∷ replace_cr t
unfolding replace_cr
replace_cr-line [] t = refl
replace_cr-line (c ∷ s) t = ground (arith, replace_cr-line s t)

-- A normalized text has no CR, a text without CR is normalized to itself, and a CRLF anywhere in a
-- text ends a line of it as one LF does.
pub normalize_content-lines :
    (s t : Text)
    → HasNoCr (normalize_content s)
      × (HasNoCr t → normalize_content t ≡ t)
      × (normalize_content (s ++ 13 ∷ 10 ∷ t) ≡ normalize_content s ++ 10 ∷ normalize_content t)
unfolding normalize_content
normalize_content-lines s t = (
  replace_cr-HasNoCr (replace_crlf s),
  (λ h. ap replace_cr (replace_crlf-same t h) ∙ replace_cr-same t h),
  ap replace_cr (replace_crlf-line s t) ∙ replace_cr-line (replace_crlf s) (replace_crlf t),
)
