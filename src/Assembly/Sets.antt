-- ===== src/Assembly/Sets.antt =====
-- The loops, the sets and the memberships of `verifyResult` in
-- packages/compiler/src/context-compiler.ts.
use ctxalloc.Shared.{
  suc, ◌+◌, ◌≤◌, ◌≡◌, refl, Bool, true, false, ◌&&◌, none, List, [], ◌∷◌, ◌++◌, arith, length, All,
  All-map, weigh, count, one, Text, text_eq, text_eq_refl, contains, Table, get, put, get-put, Key,
  same_refl,
}
use ctxalloc.Correction.Fallback.{flat}
use ctxalloc.Assembly.Numbers.{enter_all, set_size}
use ctxalloc.Assembly.Result.{ResultIssue}
use ctxalloc.Assembly.Verify.{unless, is_known, for_each}

pub met : (b : Bool) (i : ResultIssue) → b ≡ true → unless b i ≡ []
met true i h = refl
met false i h = absurd (cc)

pub for_each-none {ℓ} :
    {A : Type ℓ} (f : A → List ResultIssue) (xs : List A)
    → All (λ x. f x ≡ []) xs
    → for_each f xs ≡ []
unfolding for_each
for_each-none f [] h = refl
for_each-none f (x ∷ xs) h = rw (h.0, for_each-none f xs h.1)

pub flat-none {ℓ} : {A : Type ℓ} (xss : List (List A)) → All (λ xs. xs ≡ []) xss → flat xss ≡ []
unfolding flat
flat-none [] h = refl
flat-none (xs ∷ xss) h = rw (h.0, flat-none xss h.1)

pub unmet : (b : Bool) (i : ResultIssue) → unless b i ≡ [] → b ≡ true
unmet true i h = refl
unmet false i h = absurd (cc)

append-none {ℓ} : {A : Type ℓ} (xs ys : List A) → xs ++ ys ≡ [] → (xs ≡ []) × (ys ≡ [])
append-none [] ys h = (refl, h)
append-none (x ∷ xs) ys h = absurd (cc)

pub flat-parts {ℓ} : {A : Type ℓ} (xss : List (List A)) → flat xss ≡ [] → All (λ xs. xs ≡ []) xss
unfolding flat
flat-parts [] h = tt
flat-parts (xs ∷ xss) h =
    let (first, rest) = append-none xs (flat xss) h in (first, flat-parts xss rest)

module _ {ℓ} {K : Type ℓ} ⦃k : Key K⦄ where
  put-length :
      (x : K) (m : Table K (Unit {0})) → get x m ≡ none → length (put x tt m) ≡ suc (length m)
  unfolding get put
  put-length x [] h = refl
  put-length x ((j, v) ∷ m) h = ground (arith, h, put-length x m)

  -- No two members are the same, and none is in the table.
  abbrev pub AreNew {κ} : {V : Type κ} → List K → Table K V → Type ℓ
  AreNew xs m = (y : K) → count (λ x. k.same x y) xs + one (is_known (get y m)) ≤ 1

  pub AreNew-head {κ} :
      {V : Type κ} (x : K) (xs : List K) (m : Table K V) → AreNew (x ∷ xs) m → get x m ≡ none
  AreNew-head x xs m h = ground (arith, h x, same_refl x)

  pub AreNew-tail {κ} :
      {V : Type κ} (x : K) (xs : List K) (v : V) (m : Table K V)
      → AreNew (x ∷ xs) m
      → AreNew xs (put x v m)
  AreNew-tail x xs v m h y = ground (arith, h y, get-put x y v m)

  enter_all-length :
      (xs : List K) (m : Table K (Unit {0}))
      → AreNew xs m
      → length (enter_all xs m) ≡ length m + length xs
  unfolding enter_all
  enter_all-length [] m h = omega arith
  enter_all-length (x ∷ xs) m h = omega (
    arith,
    put-length x m (AreNew-head x xs m h),
    enter_all-length xs (put x tt m) (AreNew-tail x xs tt m h),
  )

  -- The set of a list without repetitions is as large as the list.
  pub set_size-length :
      (xs : List K) → ((y : K) → count (λ x. k.same x y) xs ≤ 1) → set_size xs ≡ length xs
  unfolding set_size get
  set_size-length xs h = omega (arith, enter_all-length xs [] (λ y. omega (arith, h y)))

pub contains-count :
    (ts : List Text) (u : Text) → 1 ≤ count (λ t. text_eq t u) ts → contains ts u ≡ true
unfolding contains
contains-count [] u h = absurd (omega (arith, h))
contains-count (t ∷ ts) u h = ground (arith, h, contains-count ts u)

pub count-contains :
    (ts : List Text) (u : Text) → contains ts u ≡ true → 1 ≤ count (λ t. text_eq t u) ts
unfolding contains
count-contains [] u h = absurd (cc)
count-contains (t ∷ ts) u h = ground (arith, h, count-contains ts u)

-- A member with a property is among the members that have its key and the property.
pub self_counted {ℓ} :
    {A : Type ℓ} (p : A → Bool) (key : A → Text) (xs : List A)
    → All (λ x. p x ≡ true → 1 ≤ weigh (λ y. one (text_eq (key y) (key x) && p y)) xs) xs
self_counted p key [] = tt
self_counted p key (x ∷ xs) = (
  λ h. ground (arith, h, text_eq_refl (key x)),
  All-map xs (λ y h has. ground (arith, h has)) (self_counted p key xs),
)
