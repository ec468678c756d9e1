-- ===== src/Shared/Comparators.antt =====
-- The comparators of the source are lawful: numbers by a key, strings by code units, and one
-- comparator after another (`||`).
use Prim.Native.Nat.{ℕ, compare, Ordering}
use mathlib.Core.Path.{◌≡◌, refl}
use mathlib.Core.Bool.{true}
use native.Mathlib.Omega.{arith}
use ctxalloc.Shared.Tests.{◌orelse◌, flip, in_order}
use ctxalloc.Shared.CodeUnits.{
  Text, compare_code_units, compare_code_units-eq, compare_code_units-flip,
  compare_code_units_trans,
}
use ctxalloc.Shared.Sort.{IsComparator}

flip-orelse : (o p : Ordering) → flip (o orelse p) ≡ (flip o orelse flip p)
flip-orelse Ordering.lt p = refl
flip-orelse Ordering.eq p = refl
flip-orelse Ordering.gt p = refl

module _ {ℓ} {A : Type ℓ} where
  -- A tie of the first comparator is decided by the second.
  pub IsComparator-orelse :
      (c d : A → A → Ordering)
      → IsComparator c
      → IsComparator d
      → IsComparator (λ x y. c x y orelse d x y)
  IsComparator-orelse c d first second = record {
    flips = λ x y. ground (arith, first.flips x y, second.flips x y, flip-orelse (c x y) (d x y));
    trans = λ x y z h k. ground (
      arith,
      first.flips x y,
      first.flips y z,
      first.flips x z,
      first.trans x y z,
      first.trans z x y,
      first.trans y z x,
      second.trans x y z,
    );
  }

  pub IsComparator-ascending : (key : A → ℕ) → IsComparator (λ x y. compare (key x) (key y))
  IsComparator-ascending key = record {
    flips = λ x y. ground arith;
    trans = λ x y z h k. ground arith;
  }

  pub IsComparator-descending : (key : A → ℕ) → IsComparator (λ x y. compare (key y) (key x))
  IsComparator-descending key = record {
    flips = λ x y. ground arith;
    trans = λ x y z h k. ground arith;
  }

text_trans :
    (s t u : Text)
    → in_order (compare_code_units s t) ≡ true
    → in_order (compare_code_units t u) ≡ true
    → in_order (compare_code_units s u) ≡ true
text_trans s t u h k =
    ground
      (arith, compare_code_units-eq s t, compare_code_units-eq t u, compare_code_units_trans s t u)

module _ {ℓ} {A : Type ℓ} (key : A → Text) where
  pub IsComparator-by_text : IsComparator (λ x y. compare_code_units (key x) (key y))
  IsComparator-by_text = record {
    flips = λ x y. compare_code_units-flip (key x) (key y);
    trans = λ x y z. text_trans (key x) (key y) (key z);
  }

  pub IsComparator-by_text_descending : IsComparator (λ x y. compare_code_units (key y) (key x))
  IsComparator-by_text_descending = record {
    flips = λ x y. compare_code_units-flip (key y) (key x);
    trans = λ x y z h k. text_trans (key z) (key y) (key x) k h;
  }
