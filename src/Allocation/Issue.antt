-- ===== src/Allocation/Issue.antt =====
-- The failures of packages/compiler/src/budget-allocator.ts. A constructor stands for an issue code
-- and carries what the issue's path and message print.
use ctxalloc.Shared.{ℕ, ◌≡◌, refl, List, Text}

pub data Issue : Type 0 where
  invalid_policy : Issue
  -- the index of the constraint, its category, the index of the first one
  duplicate_category_constraint : ℕ → Text → ℕ → Issue
  invalid_budget : Issue
  -- the block, its tokens, the tokens left, the tokens available
  required_content_exceeds_budget : Text → ℕ → ℕ → ℕ → Issue
  -- the category, its maximum, its required blocks
  required_category_maximum_exceeded : Text → ℕ → ℕ → Issue
  -- the category, its minimum, its required blocks, its optional blocks
  category_minimum_unreachable : Text → ℕ → ℕ → ℕ → Issue
  -- the tokens left, the tokens available, the blocks needed, the block, its tokens
  category_minimums_exceed_content_budget : ℕ → ℕ → ℕ → Text → ℕ → Issue
  -- candidates, decisions, undecided, unrecognized
  wrong_decisions : ℕ → ℕ → ℕ → ℕ → Issue
  -- the sum of the included tokens, the published sum
  wrong_selected : ℕ → ℕ → Issue
  -- available, published
  over_available : ℕ → ℕ → Issue
  -- the published remainder
  wrong_unallocated : ℕ → Issue

pub data Result {ℓ} (A : Type ℓ) : Type ℓ where
  ok : A → Result A
  err : List Issue → Result A

-- A throw ends the chain.
infixl 5 ◌>>=◌ ◌>>◌
abbrev pub ◌>>=◌ {ℓ κ} : {A : Type ℓ} {B : Type κ} → Result A → (A → Result B) → Result B
◌>>=◌ m f = elim m [ ok value ↦ f value | err issues ↦ err issues ]

abbrev pub ◌>>◌ {ℓ κ} : {A : Type ℓ} {B : Type κ} → Result A → Result B → Result B
first >> second = first >>= λ _. second

-- The two halves of a chain that did not throw.
pub record Halves {ℓ κ} {A : Type ℓ} {B : Type κ} (m : Result A) (f : A → Result B) (out : B)
    : Type (ℓ ⊔ κ) where
  pub value : A
  pub first : m ≡ ok value
  pub second : f value ≡ ok out

pub Halves-ok {ℓ κ} :
    {A : Type ℓ} {B : Type κ} (m : Result A) (f : A → Result B) {out : B}
    → (m >>= f) ≡ ok out
    → Halves m f out
Halves-ok (err issues) f returned = absurd (cc)
Halves-ok (ok value) f returned = record { value = value; first = refl; second = returned }

pub ok-injective {ℓ} : {A : Type ℓ} {a b : A} → ok a ≡ ok b → a ≡ b
ok-injective h = cc
