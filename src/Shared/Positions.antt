-- ===== src/Shared/Positions.antt =====
-- Where a key stands in a map's insertion order, as a program sees it that keeps the values in an
-- array beside the map.
use Prim.Native.Nat.{ℕ, zero, suc, ◌+◌}
use mathlib.Core.Path.{◌≡◌, refl}
use mathlib.Core.Logic.{◌↔◌, inl, inr}
use mathlib.Core.Bool.{Bool, true, ◌&&◌}
use mathlib.Core.Option.{Option, none, some}
use mathlib.Core.List.{List, [], ◌∷◌, ◌++◌, map}
use native.Mathlib.Omega.{arith}
use ctxalloc.Shared.Tests.{if◌then◌else◌, Bool-cases, Option-cases}
use ctxalloc.Shared.Lists.{length}
use ctxalloc.Shared.Maps.{Key, Table, get, put}

abbrev pub pair_same {ℓ κ} :
    {K : Type ℓ} {L : Type κ} ⦃k : Key K⦄ ⦃l : Key L⦄ → K × L → K × L → Bool
pair_same ⦃k⦄ ⦃l⦄ (x, y) (z, w) = k.same x z && l.same y w

pub pair_same_iff {ℓ κ} :
    {K : Type ℓ} {L : Type κ} ⦃k : Key K⦄ ⦃l : Key L⦄ (a b : K × L)
    → (pair_same a b ≡ true) ↔ (a ≡ b)
pair_same_iff ⦃k⦄ ⦃l⦄ (x, y) (z, w) = ground (arith, k.same_iff x z, l.same_iff y w)

-- Two keys as one.
instance abbrev pub pair_key {ℓ κ} : {K : Type ℓ} {L : Type κ} ⦃k : Key K⦄ ⦃l : Key L⦄ → Key (K × L)
pair_key = record { same = pair_same; same_iff = pair_same_iff }

-- A write through a shared reference to the object at a place of an array.
unfoldable pub update_at {ℓ} : {A : Type ℓ} → ℕ → (A → A) → List A → List A
update_at i f [] = []
update_at zero f (x ∷ xs) = f x ∷ xs
update_at (suc i) f (x ∷ xs) = x ∷ update_at i f xs

abbrev pub next_place : Option ℕ → Option ℕ
next_place none = none
next_place (some i) = some (i + 1)

module _ {ℓ κ} {K : Type ℓ} {V : Type κ} ⦃k : Key K⦄ where
  unfoldable pub place : K → Table K V → Option ℕ
  place key [] = none
  place key ((j, v) ∷ m) =
      let rest = place key m in if k.same j key then some 0 else next_place rest

  pub get_of_absent : (key : K) (m : Table K V) → place key m ≡ none → get key m ≡ none
  unfolding place get
  get_of_absent key [] h = refl
  get_of_absent key ((j, v) ∷ m) h = ground (arith, get_of_absent key m)

  pub get_of_present :
      (key : K) (m : Table K V) (i : ℕ) → place key m ≡ some i → (v : V) × (get key m ≡ some v)
  unfolding place get
  get_of_present key [] i h = absurd (ground arith)
  get_of_present key ((j, v) ∷ m) i h = elim (Bool-cases (k.same j key)) [
    | inl here ↦ (v, rw here refl)
    | inr gone ↦ elim (Option-cases (place key m)) [
      | inl absent ↦ absurd (ground arith)
      | inr (p, found) ↦ rw gone (get_of_present key m p found)
    ]
  ]

  pub put_new :
      (key : K) (v : V) (m : Table K V) → get key m ≡ none → put key v m ≡ m ++ (key, v) ∷ []
  unfolding put get
  put_new key v [] h = refl
  put_new key v ((j, w) ∷ m) h = ground (arith, put_new key v m)

  -- Replacing the value of a present key is a write at its place.
  pub values-put :
      (key : K) (w : V) (f : V → V) (m : Table K V) (i : ℕ)
      → place key m ≡ some i
      → get key m ≡ some w
      → map (λ e. e.1) (put key (f w) m) ≡ update_at i f (map (λ e. e.1) m)
  unfolding put get place update_at
  values-put key w f [] i h g = absurd (ground arith)
  values-put key w f ((j, v) ∷ m) i h g = elim (Bool-cases (k.same j key)) [
    | inl here ↦ ground arith
    | inr gone ↦ elim (Option-cases (place key m)) [
      | inl absent ↦ absurd (ground arith)
      | inr (p, found) ↦ ground (arith, values-put key w f m p found)
    ]
  ]

  pub place-put :
      (key j : K) (v : V) (m : Table K V)
      → place j (put key v m) ≡ (
          if k.same key j
          then elim (place key m) [ none ↦ some (length m) | some i ↦ some i ]
          else place j m)
  unfolding put place
  place-put key j v [] = refl
  place-put key j v ((i, w) ∷ m) =
      ground (arith, k.same_iff key j, k.same_iff i key, k.same_iff i j, place-put key j v m)
