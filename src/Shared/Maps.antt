-- ===== src/Shared/Maps.antt =====
-- A JavaScript `Map`: entries in insertion order, `set` on a present key replacing its value in
-- place. The key is a string (`===` on code units) or an object (by its identity, a number).
use Prim.Native.Nat.{ℕ, ◌+◌}
use mathlib.Core.Path.{◌≡◌, refl}
use mathlib.Core.Logic.{◌↔◌}
use mathlib.Core.Bool.{Bool, true}
use mathlib.Core.Option.{Option, none, some}
use mathlib.Core.List.{List, [], ◌∷◌}
use native.Mathlib.Omega.{arith}
use ctxalloc.Shared.Tests.{if◌then◌else◌, ◌==◌, ==_iff}
use ctxalloc.Shared.Lists.{weigh}
use ctxalloc.Shared.CodeUnits.{Text, text_eq, text_eq_iff}

-- How a map tells its keys apart.
pub record Key {ℓ} (K : Type ℓ) : Type ℓ where
  pub same : K → K → Bool
  pub same_iff : (a b : K) → (same a b ≡ true) ↔ (a ≡ b)

instance abbrev pub text_key : Key Text
text_key = record { same = text_eq; same_iff = text_eq_iff }

instance abbrev pub identity_key : Key ℕ
identity_key = record { same = ◌==◌; same_iff = ==_iff }

abbrev pub Table {ℓ κ} : Type ℓ → Type κ → Type (ℓ ⊔ κ)
Table K V = List (K × V)

pub same_refl {ℓ} : {K : Type ℓ} ⦃k : Key K⦄ (a : K) → k.same a a ≡ true
same_refl ⦃k⦄ a = (k.same_iff a a).1 refl

module _ {ℓ κ} {K : Type ℓ} {V : Type κ} ⦃k : Key K⦄ where
  -- `m.get(key)`, with `none` for `undefined`
  unfoldable pub get : K → Table K V → Option V
  get key [] = none
  get key ((j, v) ∷ m) = if k.same j key then some v else get key m

  -- `m.set(key, value)`
  unfoldable pub put : K → V → Table K V → Table K V
  put key v [] = (key, v) ∷ []
  put key v ((j, w) ∷ m) = if k.same j key then (j, v) ∷ m else (j, w) ∷ put key v m

  pub get-put :
      (key j : K) (v : V) (m : Table K V)
      → get j (put key v m) ≡ (if k.same key j then some v else get j m)
  unfolding get put
  get-put key j v [] = refl
  get-put key j v ((i, w) ∷ m) =
      ground (arith, k.same_iff key j, k.same_iff i key, k.same_iff i j, get-put key j v m)

-- `m.get(key) ?? 0`
abbrev pub or_zero : Option ℕ → ℕ
or_zero none = 0
or_zero (some n) = n

module _ {ℓ} {K : Type ℓ} ⦃k : Key K⦄ where
  abbrev pub tally : K → Table K ℕ → ℕ
  tally key m = or_zero (get key m)

  -- The sum of the values, `[...m.values()].reduce((total, n) => total + n, 0)`.
  abbrev pub sum_values : Table K ℕ → ℕ
  sum_values = weigh (λ e. e.1)

  pub tally-put :
      (key j : K) (v : ℕ) (m : Table K ℕ)
      → tally j (put key v m) ≡ (if k.same key j then v else tally j m)
  tally-put key j v m = ground (arith, get-put key j v m)

  -- A new value under a key replaces the old one in the sum.
  pub sum_values-put :
      (key : K) (v : ℕ) (m : Table K ℕ) → sum_values (put key v m) + tally key m ≡ sum_values m + v
  unfolding get put
  sum_values-put key v [] = omega arith
  sum_values-put key v ((j, w) ∷ m) = ground (arith, sum_values-put key v m)
