-- ===== src/Correction/Tests.antt =====
-- The theorems about the correction of packages/compiler/src/context-compiler.ts at a run with a
-- required block and a category that wants one of two. The allocator took the cheaper one, whose
-- rendered text is the longer one.
use ctxalloc.Shared.{
  false, ℕ, ◌+◌, ◌≡◌, ◌≤◌, refl, sym, subst, true, some, List, [], ◌∷◌, ◌++◌, map, Text, units,
  length, leb, arith, All, IsKeyed, get, text_key, Bool-cases, inl, inr,
}
use mathlib.Core.List.{Memᴰ}
use ctxalloc.Shared.Outcome.{returned, thrown}
use ctxalloc.Candidates.{ScoredCandidate, id_of}
use ctxalloc.Allocation.Fixture.{scope, budget, batch}
use ctxalloc.Allocation.Policy.{constraints_of}
use ctxalloc.Allocation.State.{Included, included_required}
use ctxalloc.Allocation.Reconcile.{Allocated}
use ctxalloc.Orderer.Order.{order}
use ctxalloc.Renderer.Measures.{Counts}
use ctxalloc.Renderer.Render.{attempt, render}
use ctxalloc.Correction.Measure.{
  rendered_hard_constraints_exceed_budget, measurement, arranged, blocks_of,
}
use ctxalloc.Correction.Deficits.{CategoryDeficit, category_deficits}
use ctxalloc.Correction.Fallback.{
  Settlement, used, hard_base, search_fallback, hard_bases, rescue, find_fitting, settled,
  exhausted_failure, conclude, proceed, flat, reasons_from,
}
use ctxalloc.Correction.Fallback
use ctxalloc.Correction.Settle.{CompilationRun, settle}
use ctxalloc.Correction.Keys.{by_ids}
use ctxalloc.Correction.Visits.{Measures, IsSelection, HoldsContent}
use ctxalloc.Correction.Spans.{IsPart}
use ctxalloc.Correction.Evictions.{IsLessened}
use ctxalloc.Correction.Eligible.{by_ids-IsUnique, required_among, optional_among, valid_parts}
use ctxalloc.Correction.Bounded.{KeepsBounds, AreSpare}
use ctxalloc.Correction.Explained.{IsBounded, Explains, selections_to_visit}
use ctxalloc.Correction.Initial.{IsRun}
use ctxalloc.Correction.Promises.{settle-fits, settle-explains, settle_succeeds}
use ctxalloc.Correction.Fixture.{
  tokenizer, renderer, orderer, needed, cheap, short, policy, eligible, code,
}

abbrev include : ScoredCandidate → Included
include c = record {
  candidate = c;
  reason = included_required;
  content_tokens = 1;
  remaining_before = 10;
  remaining_after = 9;
}

abbrev chosen : List ScoredCandidate
chosen = needed ∷ cheap ∷ []

abbrev allocated : Allocated
allocated = record {
  scope = scope;
  source_documents = [];
  scoring_policy_id = units "scoring";
  scoring_policy_version = units "1";
  allocation_policy_id = units "allocation";
  allocation_policy_version = units "1";
  reference_time = units "2026-01-01T00:00:00.000Z";
  token_budget = budget;
  available_input_tokens = 10;
  selected_block_content_tokens = 2;
  unallocated_block_content_tokens = 8;
  included = map include chosen;
  excluded = [];
  optional_eviction_order = [];
}

-- The run, with a number of tokens left.
abbrev run : ℕ → CompilationRun
run available = record {
  allocation_policy = policy;
  available_tokens = available;
  filtered = record {
    scored = batch;
    filtering_policy_id = units "filtering";
    filtering_policy_version = units "1";
    eligible = record batch { candidates = eligible };
    decisions = [];
  };
  allocated = allocated;
  rendered = attempt renderer (order orderer allocated) 20;
}

rendered :
    render renderer (order orderer allocated)
    ≡ returned (attempt renderer (order orderer allocated) 20)
unfolding code
rendered = refl

keyed : IsKeyed (by_ids eligible)
unfolding code
keyed = (refl, (refl, (refl, tt)))

chosen_keyed : IsKeyed (by_ids chosen)
unfolding code
chosen_keyed = (refl, (refl, tt))

known : All (λ c. get (id_of c) (by_ids eligible) ≡ some c) chosen
unfolding code
known = (refl, (refl, tt))

nothing_spare :
    (gone rest : List ScoredCandidate)
    → gone ++ rest ≡ []
    → AreSpare (constraints_of policy) chosen gone
unfolding code
nothing_spare [] rest h = (ground arith, tt)
nothing_spare (c ∷ gone) rest h = absurd (cc)

-- A run with so many tokens more than four.
facts : (more : ℕ) → IsRun renderer orderer (run (4 + more))
unfolding code
facts more = record {
  content = omega arith;
  rendered = rendered;
  keyed = keyed;
  distinct = (refl, tt);
  included = (known, by_ids-IsUnique chosen chosen_keyed);
  surplus = [];
  published = refl;
  surplus_known = tt;
  surplus_within = λ f. omega arith;
  surplus_optional = refl;
  required_included = λ f. omega arith;
  kept = (refl, tt);
  spare = λ gone rest parts. nothing_spare gone rest parts;
}

-- The base with the shorter text is the third selection visited.
abbrev settlement : Settlement
settlement = record {
  measurement = measurement (arranged (blocks_of (needed ∷ short ∷ []))) 5;
  correction_applied = true;
  evicted_block_ids = [];
  search = used 3 10 hard_base (units "b" ∷ units "r" ∷ []);
  inclusion_reasons =
      (units "r", Fallback.included_required)
      ∷ (units "b", Fallback.included_category_minimum)
      ∷ [];
  rebuilt = true;
}

ends : settle tokenizer 10 (run 10) ≡ returned settlement
unfolding code
ends = refl

fails : settle tokenizer 10 (run 4) ≡ thrown (rendered_hard_constraints_exceed_budget 4 4 ∷ [])
unfolding code
fails = refl

settle-fits_example :
    ((cs : List ScoredCandidate) × (IsSelection (by_ids eligible) cs
        × Measures tokenizer cs settlement.measurement
        × KeepsBounds (constraints_of policy) cs
        × HoldsContent 10 cs
        × (settlement.rebuilt ≡ false → IsLessened chosen (facts 6).surplus cs)
        × (settlement.rebuilt ≡ true
            → (picks : List ScoredCandidate) × IsPart
                (by_ids eligible)
                (optional_among eligible)
                picks
              × (cs ≡ required_among eligible ++ picks))))
    × (settlement.measurement.rendered_tokens ≤ 10)
    × IsBounded settlement.search
settle-fits_example = settle-fits renderer orderer (run 10) 10 (facts 6) settlement ends

settle-explains_example :
    Explains tokenizer 4 10 eligible
      (facts 0).keyed
      (constraints_of policy)
      (facts 0).distinct
      (rendered_hard_constraints_exceed_budget 4 4 ∷ [])
settle-explains_example =
    settle-explains renderer orderer (run 4) 10 (facts 0)
      (rendered_hard_constraints_exceed_budget 4 4 ∷ []) fails

total-Counts : (text : Text) → (n : ℕ) × Counts tokenizer text n
total-Counts text = (
  _,
  (
    refl,
    elim (Bool-cases (leb 165 (length text))) [
      | inl long ↦ rw long (ground arith)
      | inr short ↦ rw short (ground arith)
    ],
  ),
)

abbrev deficits : List CategoryDeficit
deficits = record { category = units "facts"; combinations = (cheap ∷ []) ∷ (short ∷ []) ∷ [] } ∷ []

owed :
    category_deficits (constraints_of policy) (required_among eligible) (optional_among eligible)
    ≡ returned deficits
unfolding code
owed = refl

parts :
    valid_parts eligible (facts 6).keyed (constraints_of policy)
    ≡ (cheap ∷ []) ∷ (short ∷ []) ∷ (cheap ∷ short ∷ []) ∷ []
unfolding code
parts = refl

enough :
    selections_to_visit tokenizer 10 10 eligible
      (facts 6).keyed
      (constraints_of policy)
      (facts 6).distinct
    ≤ 10
unfolding code
enough = ground arith

valid : Memᴰ (short ∷ []) (valid_parts eligible (facts 6).keyed (constraints_of policy))
valid = subst (Memᴰ (short ∷ [])) (sym parts) (Memᴰ.tail (Memᴰ.head refl))

settle_succeeds_example : (s : Settlement) × (settle tokenizer 10 (run 10) ≡ returned s)
unfolding code
settle_succeeds_example =
    settle_succeeds renderer orderer (run 10) 10 (facts 6) deficits (short ∷ []) total-Counts owed
      enough valid (refl, (5, (refl, ground arith), ground arith))
