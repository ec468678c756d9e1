-- ===== src/Shared/Json.antt =====
-- JSON values as packages/domain/src/json-value.ts admits them. A number is kept as the digits that
-- `JSON.stringify` prints for it, since nothing here computes with one.
use Prim.Native.Nat.{ℕ, zero, suc, ◌+◌, ◌/◌, ◌%◌}
use mathlib.Core.Bool.{Bool}
use mathlib.Core.Option.{Option, none, some}
use mathlib.Core.List.{List, [], ◌∷◌, ◌++◌}
use ctxalloc.Shared.Tests.{ltb, if◌then◌else◌}
use ctxalloc.Shared.CodeUnits.{Text}

mutual
  pub data Json : Type 0 where
    null : Json
    boolean : Bool → Json
    number : Text → Json
    string : Text → Json
    array : Items → Json
    object : Fields → Json

  pub data Items : Type 0 where
    nil : Items
    cons : Json → Items → Items

  pub data Fields : Type 0 where
    end : Fields
    field : Text → Json → Fields → Fields

-- A property that is `undefined` is left out.
unfoldable pub optional : Text → Option Json → Fields → Fields
optional key none rest = rest
optional key (some v) rest = field key v rest

unfoldable pub strings : List Text → Items
strings [] = nil
strings (t ∷ ts) = cons (string t) (strings ts)

-- The decimal digits of a number, on fuel: a number has fewer digits than its successor.
decimal_digits : ℕ → ℕ → Text
decimal_digits zero n = []
decimal_digits (suc fuel) n =
    let before = decimal_digits fuel (n / 10) in
    if ltb n 10 then (48 + n) ∷ [] else before ++ (48 + n % 10) ∷ []

unfoldable pub decimal : ℕ → Text
unfolding decimal_digits
decimal n = decimal_digits (suc n) n

unfoldable pub natural : ℕ → Json
natural n = number (decimal n)
