-- ===== src/Shared/CodeUnits.antt =====
-- Strings as JavaScript has them, sequences of UTF-16 code units, with `===` and the order that
-- packages/compiler/src/canonical-json.ts names `compareCodeUnits`.
use Prim.Native.Nat.{ℕ, compare, Ordering}
use Prim.Native.Char.{code}
use Prim.Native.String.{String}
use mathlib.Core.Path.{◌≡◌, refl}
use mathlib.Core.Logic.{◌↔◌}
use mathlib.Core.Bool.{Bool, true, false, ◌&&◌}
use mathlib.Core.List.{List, [], ◌∷◌}
use native.Mathlib.Omega.{arith}
use ctxalloc.Shared.Tests.{◌==◌, flip, if◌then◌else◌}

abbrev pub Text : Type 0
Text = List ℕ

-- A literal of the source. Those here are ASCII, so a code point is a code unit.
abbrev pub units : String → Text
units String.[] = []
units (String.◌∷◌ c s) = code c ∷ units s

unfoldable pub text_eq : Text → Text → Bool
text_eq [] [] = true
text_eq [] (y ∷ ys) = false
text_eq (x ∷ xs) [] = false
text_eq (x ∷ xs) (y ∷ ys) = x == y && text_eq xs ys

-- `a < b ? -1 : a > b ? 1 : 0`, where `<` on strings compares code units.
unfoldable pub compare_code_units : Text → Text → Ordering
compare_code_units [] [] = Ordering.eq
compare_code_units [] (y ∷ ys) = Ordering.lt
compare_code_units (x ∷ xs) [] = Ordering.gt
compare_code_units (x ∷ xs) (y ∷ ys) = elim (compare x y) [
  | Ordering.lt ↦ Ordering.lt
  | Ordering.eq ↦ compare_code_units xs ys
  | Ordering.gt ↦ Ordering.gt
]

pub text_eq_refl : (s : Text) → text_eq s s ≡ true
unfolding text_eq
text_eq_refl [] = refl
text_eq_refl (x ∷ xs) = ground (arith, text_eq_refl xs)

pub text_eq→eq : (s t : Text) → text_eq s t ≡ true → s ≡ t
unfolding text_eq
text_eq→eq [] [] h = refl
text_eq→eq [] (y ∷ ys) h = cc
text_eq→eq (x ∷ xs) [] h = cc
text_eq→eq (x ∷ xs) (y ∷ ys) h = ground (arith, text_eq→eq xs ys)

pub text_eq_iff : (s t : Text) → (text_eq s t ≡ true) ↔ (s ≡ t)
text_eq_iff s t = (text_eq→eq s t, λ e. rw e (text_eq_refl t))

pub compare_code_units_refl : (s : Text) → compare_code_units s s ≡ Ordering.eq
unfolding compare_code_units
compare_code_units_refl [] = refl
compare_code_units_refl (x ∷ xs) = ground (arith, compare_code_units_refl xs)

pub compare_code_units-eq : (s t : Text) → compare_code_units s t ≡ Ordering.eq → s ≡ t
unfolding compare_code_units
compare_code_units-eq [] [] h = refl
compare_code_units-eq [] (y ∷ ys) h = cc
compare_code_units-eq (x ∷ xs) [] h = cc
compare_code_units-eq (x ∷ xs) (y ∷ ys) h = ground (arith, compare_code_units-eq xs ys)

pub compare_code_units-flip : (s t : Text) → compare_code_units t s ≡ flip (compare_code_units s t)
unfolding compare_code_units
compare_code_units-flip [] [] = refl
compare_code_units-flip [] (y ∷ ys) = refl
compare_code_units-flip (x ∷ xs) [] = refl
compare_code_units-flip (x ∷ xs) (y ∷ ys) = ground (arith, compare_code_units-flip xs ys)

pub compare_code_units_trans :
    (s t u : Text)
    → compare_code_units s t ≡ Ordering.lt
    → compare_code_units t u ≡ Ordering.lt
    → compare_code_units s u ≡ Ordering.lt
unfolding compare_code_units
compare_code_units_trans [] (y ∷ ys) (z ∷ zs) h k = refl
compare_code_units_trans [] [] u h k = cc
compare_code_units_trans [] (y ∷ ys) [] h k = cc
compare_code_units_trans (x ∷ xs) [] u h k = cc
compare_code_units_trans (x ∷ xs) (y ∷ ys) [] h k = cc
compare_code_units_trans (x ∷ xs) (y ∷ ys) (z ∷ zs) h k =
    ground (arith, compare_code_units_trans xs ys zs)

-- `seen.has(t)` of a `Set` of strings.
unfoldable pub contains : List Text → Text → Bool
contains [] t = false
contains (u ∷ us) t = let rest = contains us t in if text_eq u t then true else rest
