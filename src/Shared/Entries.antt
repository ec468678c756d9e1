-- ===== src/Shared/Entries.antt =====
-- What a property or a weight of a map's entries becomes when an entry is put.
use Prim.Native.Nat.{ℕ, ◌+◌}
use mathlib.Core.Path.{◌≡◌, refl, sym, subst}
use mathlib.Core.Logic.{inl, inr}
use mathlib.Core.Option.{none, some}
use mathlib.Core.List.{[], ◌∷◌}
use native.Mathlib.Omega.{arith}
use ctxalloc.Shared.Tests.{Bool-cases}
use ctxalloc.Shared.Lists.{weigh, All}
use ctxalloc.Shared.Maps.{Key, Table, get, put, get-put}

module _ {ℓ κ} {K : Type ℓ} {V : Type κ} ⦃k : Key K⦄ where
  pub All-put {ν} :
      (P : K → V → Type ν) (key : K) (v : V) (m : Table K V)
      → P key v
      → All (λ e. P e.0 e.1) m
      → All (λ e. P e.0 e.1) (put key v m)
  unfolding put
  All-put P key v [] new h = (new, tt)
  All-put P key v ((j, w) ∷ m) new h = elim (Bool-cases (k.same j key)) [
    | inl here ↦ rw here (subst (λ i. P i v) (sym ((k.same_iff j key).0 here)) new, h.1)
    | inr gone ↦ rw gone (h.0, All-put P key v m new h.1)
  ]

  pub All-get {ν} :
      (P : K → V → Type ν) (key : K) (v : V) (m : Table K V)
      → All (λ e. P e.0 e.1) m
      → get key m ≡ some v
      → P key v
  unfolding get
  All-get P key v [] h found = absurd (ground arith)
  All-get P key v ((j, w) ∷ m) h found = elim (Bool-cases (k.same j key)) [
    | inl here ↦ subst (λ i. P i v) ((k.same_iff j key).0 here) (subst (P j) (ground arith) h.0)
    | inr gone ↦ All-get P key v m h.1 (ground arith)
  ]

  -- No two entries have one key.
  abbrev pub IsKeyed : Table K V → Type κ
  IsKeyed [] = Unit
  IsKeyed ((j, v) ∷ m) = (get j m ≡ none) × IsKeyed m

  pub put-IsKeyed : (key : K) (v : V) (m : Table K V) → IsKeyed m → IsKeyed (put key v m)
  unfolding put get
  put-IsKeyed key v [] h = (refl, tt)
  put-IsKeyed key v ((j, w) ∷ m) h = elim (Bool-cases (k.same j key)) [
    | inl here ↦ rw here h
    | inr gone ↦ rw gone (
      ground (arith, get-put key j v m, k.same_iff key j, k.same_iff j key),
      put-IsKeyed key v m h.1,
    )
  ]

  pub weigh-put :
      (f : V → ℕ) (key : K) (v : V) (m : Table K V)
      → weigh (λ e. f e.1) (put key v m) + elim (get key m) [ none ↦ 0 | some w ↦ f w ]
        ≡ weigh (λ e. f e.1) m + f v
  unfolding put get
  weigh-put f key v [] = omega arith
  weigh-put f key v ((j, w) ∷ m) = ground (arith, weigh-put f key v m)
