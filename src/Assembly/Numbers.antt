-- ===== src/Assembly/Numbers.antt =====
-- Differences of token counts and comparisons in which `NaN` equals nothing, as
-- packages/compiler/src/context-compiler.ts uses them, and the size of a `Set`.
use ctxalloc.Shared.{
  ℕ, ◌-◌, Bool, false, Option, none, some, List, [], ◌∷◌, if◌then◌else◌, leb, ltb, ◌==◌, length,
  Table, put, Key,
}
use ctxalloc.Renderer.Tokenizer.{max_safe_integer}

-- `negsuc n` is -(n + 1).
pub data ℤ : Type 0 where
  pos : ℕ → ℤ
  negsuc : ℕ → ℤ

-- `a - b`
unfoldable pub difference : ℕ → ℕ → ℤ
difference a b = if leb b a then pos (a - b) else negsuc (b - a - 1)

unfoldable pub same_integer : ℤ → ℤ → Bool
same_integer (pos m) (pos n) = m == n
same_integer (pos m) (negsuc n) = false
same_integer (negsuc m) (pos n) = false
same_integer (negsuc m) (negsuc n) = m == n

-- `===` of two numbers of which `none` is `NaN`
unfoldable pub strictly_equal {ℓ} : {A : Type ℓ} → (A → A → Bool) → Option A → Option A → Bool
strictly_equal eq none o = false
strictly_equal eq (some a) none = false
strictly_equal eq (some a) (some b) = eq a b

-- `a - b` where `b` may be `NaN`
unfoldable pub minus : ℕ → Option ℕ → Option ℤ
unfolding difference
minus a none = none
minus a (some b) = some (difference a b)

-- `Number.isSafeInteger`
unfoldable pub is_safe_count : Option ℕ → Bool
is_safe_count none = false
is_safe_count (some n) = leb n max_safe_integer

unfoldable pub is_safe_integer : Option ℤ → Bool
is_safe_integer none = false
is_safe_integer (some (pos n)) = leb n max_safe_integer
is_safe_integer (some (negsuc n)) = ltb n max_safe_integer

-- `sum <= available`, which is false where the sum is `NaN`
unfoldable pub is_at_most : Option ℕ → ℕ → Bool
is_at_most none available = false
is_at_most (some sum) available = leb sum available

module _ {ℓ} {K : Type ℓ} ⦃k : Key K⦄ where
  unfoldable pub enter_all : List K → Table K (Unit {0}) → Table K (Unit {0})
  enter_all [] m = m
  enter_all (x ∷ xs) m = enter_all xs (put x tt m)

  -- `new Set(xs).size`
  unfoldable pub set_size : List K → ℕ
  unfolding enter_all
  set_size xs = length (enter_all xs [])
