-- ===== src/Allocation/Ledger.antt =====
-- The books of an allocation run (`AllocationState` in packages/compiler/src/budget-allocator.ts):
-- what each pass spends and counts, and which decisions it adds.
use ctxalloc.Shared.{
  ℕ, ◌+◌, ◌≤◌, ◌≡◌, refl, Option, none, some, arith, Text, text_eq, text_eq_iff, weigh, count, one,
  weigh-append, Table, get, tally, tally-put, text_key,
}
use ctxalloc.Candidates.{ScoredCandidate, tokens_of, category_of}
use ctxalloc.Allocation.State.{
  AllocationCandidate, in_category, InclusionReason, ExclusionReason, State, start, bump, include,
  exclude,
}

-- The remainder and the spent tokens make up the ceiling, and every category is counted.
pub record IsLedger (available : ℕ) (s : State) : Type 0 where
  pub balance : s.remaining + weigh (λ d. tokens_of d.candidate) s.included ≡ available
  pub costs :
      weigh (λ d. d.content_tokens) s.included ≡ weigh (λ d. tokens_of d.candidate) s.included
  pub tallies :
      (c : Text)
      → tally c s.selected_by_category
        ≡ count (λ d. in_category c (category_of d.candidate)) s.included

-- The weight of the decisions taken, where a weight may depend on the reason.
abbrev pub taken : (InclusionReason → ScoredCandidate → ℕ) → State → ℕ
taken f s = weigh (λ d. f d.reason d.candidate) s.included

abbrev pub dropped : (ScoredCandidate → ℕ) → State → ℕ
dropped f s = weigh (λ d. f d.candidate) s.excluded

pub start-IsLedger : (available : ℕ) → IsLedger available (start available)
unfolding get
start-IsLedger available = record { balance = omega arith; costs = refl; tallies = λ c. refl }

text_eq_comm : (s t : Text) → text_eq s t ≡ text_eq t s
text_eq_comm s t = ground (arith, text_eq_iff s t, text_eq_iff t s)

tally-bump :
    (c : Text) (o : Option Text) (m : Table Text ℕ)
    → tally c (bump o m) ≡ tally c m + one (in_category c o)
unfolding bump
tally-bump c none m = omega arith
tally-bump c (some k) m =
    ground (arith, tally-put k c (tally k m + 1) m, text_eq_comm k c, text_eq_iff k c)

module _ (e : AllocationCandidate) (why : InclusionReason) (s : State) where
  pub taken-include :
      (f : InclusionReason → ScoredCandidate → ℕ)
      → taken f (include e why s) ≡ taken f s + f why e.scored
  unfolding include
  taken-include f = rw weigh-append (omega arith)

  pub dropped-include : (f : ScoredCandidate → ℕ) → dropped f (include e why s) ≡ dropped f s
  unfolding include
  dropped-include f = refl

  pub remaining-include : (include e why s).remaining ≤ s.remaining
  unfolding include
  remaining-include = omega arith

  pub include-IsLedger :
      (available : ℕ)
      → tokens_of e.scored ≤ s.remaining
      → IsLedger available s
      → IsLedger available (include e why s)
  unfolding include
  include-IsLedger available fits h = record {
    balance = rw weigh-append (omega (arith, h.balance));
    costs = omega (
      arith,
      h.costs,
      weigh-append (λ d. d.content_tokens) s.included _,
      weigh-append (λ d. tokens_of d.candidate) s.included _,
    );
    tallies =
        λ c. rw weigh-append (omega (arith, h.tallies c, tally-bump c (category_of e.scored) _));
  }

module _ (e : AllocationCandidate) (why : ExclusionReason) (s : State) where
  pub taken-exclude :
      (f : InclusionReason → ScoredCandidate → ℕ) → taken f (exclude e why s) ≡ taken f s
  unfolding exclude
  taken-exclude f = refl

  pub dropped-exclude :
      (f : ScoredCandidate → ℕ) → dropped f (exclude e why s) ≡ dropped f s + f e.scored
  unfolding exclude
  dropped-exclude f = rw weigh-append (omega arith)

  pub remaining-exclude : (exclude e why s).remaining ≤ s.remaining
  unfolding exclude
  remaining-exclude = omega arith

  pub exclude-IsLedger :
      (available : ℕ) → IsLedger available s → IsLedger available (exclude e why s)
  unfolding exclude
  exclude-IsLedger available h = record {
    balance = h.balance;
    costs = h.costs;
    tallies = h.tallies;
  }
