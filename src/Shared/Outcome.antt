-- ===== src/Shared/Outcome.antt =====
-- A value, or the issues that an exception carries.
use mathlib.Core.List.{List}

pub data Outcome {ℓ κ} (E : Type ℓ) (A : Type κ) : Type (ℓ ⊔ κ) where
  returned : A → Outcome E A
  thrown : List E → Outcome E A

-- What runs after a value was returned.
abbrev pub after {ℓ κ ν} :
    {E : Type ℓ} {A : Type κ} {B : Type ν} → Outcome E A → (A → Outcome E B) → Outcome E B
after m f = elim m [ returned value ↦ f value | thrown issues ↦ thrown issues ]

-- What a returned value and the thrown issues satisfy.
abbrev pub Ends {ℓ κ ν} :
    {E : Type ℓ} {A : Type κ} → (A → Type ν) → (List E → Type ν) → Outcome E A → Type ν
Ends P R (returned a) = P a
Ends P R (thrown es) = R es

-- The rule of a sequence: what the first part ends with is what the second may start from.
pub after-Ends {ℓ κ ν ι} :
    {E : Type ℓ} {A : Type κ} {B : Type ν} (P : A → Type ι) (Q : B → Type ι) (R : List E → Type ι)
    (m : Outcome E A) (f : A → Outcome E B)
    → Ends P R m
    → ((a : A) → P a → Ends Q R (f a))
    → Ends Q R (after m f)
after-Ends P Q R (returned a) f h k = k a h
after-Ends P Q R (thrown es) f h k = h

pub Ends-map {ℓ κ ν} :
    {E : Type ℓ} {A : Type κ} (P Q : A → Type ν) (R : List E → Type ν) (m : Outcome E A)
    → ((a : A) → P a → Q a)
    → Ends P R m
    → Ends Q R m
Ends-map P Q R (returned a) k h = k a h
Ends-map P Q R (thrown es) k h = h
