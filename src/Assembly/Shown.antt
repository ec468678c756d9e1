-- ===== src/Assembly/Shown.antt =====
-- The render positions that `build` of packages/compiler/src/compilation-trace.ts gives to groups, as
-- `checkRenderPositions` looks at them.
use ctxalloc.Shared.{
  ℕ, ◌+◌, ◌≤◌, ◌≡◌, refl, sym, ap, ◌∙◌, true, ◌&&◌, not, Option, none, some, List, [], ◌∷◌, map,
  arith, ltb, ◌==◌, length, length-map, SameItems, All, All-map, weigh, weigh-map, weigh-zero,
  weigh-one-length, weigh_cong_All, weigh_cong, count, one, length-select, if◌then◌else◌, Bool,
  Text, text_eq, get, text_key, identity_key, IsKeyed,
}
use ctxalloc.Candidates.{DeduplicatedCandidate, ScoredCandidateSet, id_of}
use ctxalloc.Domain.TokenBudget.{TokenBudget}
use ctxalloc.Filter.Guarantees.{dropped}
use ctxalloc.Allocation.State.{Included}
use ctxalloc.Allocation.Guarantees.{excluded_candidates}
use ctxalloc.Renderer.Tokenizer.{Tokenizer}
use ctxalloc.Orderer.Order.{OrderedCandidateSet, order}
use ctxalloc.Orderer.Guarantees.{order-arranges}
use ctxalloc.Correction.Settle.{CompilationRun}
use ctxalloc.Correction.Keys.{by_ids}
use ctxalloc.Correction.Initial.{included_of}
use ctxalloc.Compilation.Compile.{CompilationPolicy}
use ctxalloc.Compilation.Runs.{Staged, orderer}
use ctxalloc.Compilation.Promises.{Staged-IsRun}
use ctxalloc.Assembly.Numbers.{set_size}
use ctxalloc.Assembly.Verify.{all_below}
use ctxalloc.Assembly.Sets.{AreNew, set_size-length, self_counted}
use ctxalloc.Assembly.Trace.{included_group, TraceGroup, positions_from, evidence_of}
use ctxalloc.Assembly.Dispositions.{placed_at, AreShown}
use ctxalloc.Assembly.Places.{
  at, indexed, positions_from-weigh, nothing-weigh, indexed-length, indexed-once, indexed-below,
  none_over-all_below,
}
use ctxalloc.Assembly.Totals.{
  by_disposition, with_position, positions_shown, check_render_positions, is_of,
  positions_uncovered,
}
use ctxalloc.Assembly.Complete.{shown-weigh, in_order}

with_position-weigh :
    (f : ℕ → ℕ) (t : Text) (o : Option ℕ) (ps : List ℕ)
    → weigh f (with_position o ps) ≡ at (λ _ i. f i) t o + weigh f ps
with_position-weigh f t none ps = omega arith
with_position-weigh f t (some i) ps = refl

positions_shown-weigh :
    (f : ℕ → ℕ) (gs : List TraceGroup)
    → weigh f (positions_shown gs)
      ≡ weigh (λ (g : TraceGroup). at (λ _ i. f i) g.block_id g.render_position) gs
unfolding positions_shown
positions_shown-weigh f [] = refl
positions_shown-weigh f (g ∷ gs) = omega (
  arith,
  with_position-weigh f g.block_id g.render_position (positions_shown gs),
  positions_shown-weigh f gs,
)

when_covered :
    (a b n : ℕ) (c : Bool)
    → a ≡ n
    → b ≡ n
    → c ≡ true
    → (if a == n && b == n && c then [] else positions_uncovered ∷ []) ≡ []
when_covered a b n c h k l = ground (arith, h, k, l)

abbrev AreFirst : List ℕ → List Text → Type 0
AreFirst ps ts = (f : ℕ → ℕ) → weigh f ps ≡ weigh (λ e. f e.1) (indexed 0 ts)

first_many : (ps : List ℕ) (ts : List Text) → AreFirst ps ts → length ps ≡ length ts
first_many ps ts all = omega (arith, all (λ _. 1), weigh-one-length ps, indexed-length 0 ts)

distinct : (ps : List ℕ) (ts : List Text) → AreFirst ps ts → set_size ps ≡ length ps
distinct ps ts all =
    set_size-length ps (λ y. ground (arith, all (λ p. one (p == y)), indexed-once y 0 ts))

-- Positions that are the first so many numbers, each once.
positions-covered :
    (ps : List ℕ) (ts : List Text) (gs : List TraceGroup)
    → positions_shown gs ≡ ps
    → AreFirst ps ts
    → length (by_disposition included_group gs) ≡ length ts
    → check_render_positions gs ≡ []
unfolding check_render_positions
positions-covered ps ts gs same all counted =
    rw (check_render_positions, same, counted)
      (when_covered (length ps) (set_size ps) (length ts) (all_below (length ts) ps)
        (first_many ps ts all) (distinct ps ts all ∙ first_many ps ts all)
        (none_over-all_below (length ts) ps (
          all (λ p. one (not (ltb p (length ts)))) ∙ indexed-below (length ts) 0 ts (omega arith))))

module _ (policy : CompilationPolicy) (tokenizer : Tokenizer) (max_selections : ℕ)
    (budget : TokenBudget) (scored : ScoredCandidateSet)
    (keyed : IsKeyed (by_ids scored.candidates)) (run : CompilationRun)
    (staged : Staged policy tokenizer max_selections budget scored run)
    (groups : List DeduplicatedCandidate)
    (same : (f : Text → ℕ)
      → weigh (λ (g : DeduplicatedCandidate). f g.canonical_block.id) groups
        ≡ weigh (λ c. f (id_of c)) scored.candidates)
    (gs : List TraceGroup)
    (facts : AreShown (evidence_of run.filtered run.rendered) groups gs) where
  abbrev ordered : List Text
  ordered = map (λ d. id_of d.candidate) run.rendered.ordered.ordered_included

  abbrev chosen : List Text
  chosen = map id_of (included_of run)

  ordered-SameItems : SameItems ordered chosen
  ordered-SameItems f =
      let placed = order (orderer policy tokenizer max_selections budget scored) run.allocated in
      ap (λ (o : OrderedCandidateSet). weigh f (map (λ d. id_of d.candidate) o.ordered_included))
        (in_order policy tokenizer max_selections budget scored keyed run staged)
      ∙ weigh-map f (λ (d : Included). id_of d.candidate) placed.ordered_included
      ∙ (order-arranges (orderer policy tokenizer max_selections budget scored) run.allocated).0
          (λ d. f (id_of d.candidate))
      ∙ sym (weigh-map (λ c. f (id_of c)) (λ (d : Included). d.candidate) run.allocated.included)
      ∙ sym (weigh-map f id_of (included_of run))

  chosen-once : (t : Text) → count (λ e. text_eq e t) chosen ≤ 1
  chosen-once t = omega (
    arith,
    (Staged-IsRun policy tokenizer max_selections budget scored keyed run staged).included.1 t,
    weigh-map (λ e. one (text_eq e t)) id_of (included_of run),
  )

  ordered-once : All (λ t. count (λ e. text_eq e t) chosen ≡ 1) ordered
  ordered-once =
      All-map ordered
        (λ t h. omega (
          arith,
          h refl,
          chosen-once t,
          ordered-SameItems (λ e. one (text_eq e t)),
          weigh_cong (λ e. one (text_eq e t && true)) (λ e. one (text_eq e t)) ordered
              (λ e. ground arith),
        ))
        (self_counted (λ t. true) (λ t. t) ordered)

  ordered-AreNew : AreNew {V = ℕ} ordered []
  unfolding get
  ordered-AreNew t = omega (arith, chosen-once t, ordered-SameItems (λ e. one (text_eq e t)))

  positions_made :
      (evidence_of run.filtered run.rendered).render_position ≡ positions_from 0 ordered []
  unfolding evidence_of
  positions_made = refl

  positions-weigh :
      (f : ℕ → ℕ) → weigh f (positions_shown gs) ≡ weigh (λ e. f e.1) (indexed 0 ordered)
  positions-weigh f =
      let ev = evidence_of run.filtered run.rendered in
      let h = λ (t : Text) (i : ℕ). f i in
      positions_shown-weigh f gs
      ∙ weigh_cong_All _ (λ g. at h g.block_id (placed_at ev g.block_id g.current_disposition)) gs
          (All-map gs (λ g e. ap (at h g.block_id) e) facts.placed)
      ∙ shown-weigh policy tokenizer max_selections budget scored keyed run staged groups gs same
          facts (λ e. at h e.0 (placed_at ev e.0 e.1))
      ∙ omega (
        arith,
        weigh-zero (dropped run.filtered.decisions),
        weigh-zero (excluded_candidates run.allocated),
        weigh-map (λ t. at h t (get t ev.render_position)) id_of (included_of run),
        ap (λ m. weigh (λ t. at h t (get t m)) chosen) positions_made,
        positions_from-weigh h chosen ordered 0 [] ordered-AreNew ordered-once,
        nothing-weigh h chosen,
      )

  included-length : length (by_disposition included_group gs) ≡ length ordered
  included-length = omega (
    arith,
    length-select (λ (g : TraceGroup). is_of included_group g.current_disposition) gs,
    shown-weigh policy tokenizer max_selections budget scored keyed run staged groups gs same facts
        (λ e. one (is_of included_group e.1)),
    weigh-zero (dropped run.filtered.decisions),
    weigh-zero (excluded_candidates run.allocated),
    weigh-one-length (included_of run),
    weigh-one-length ordered,
    ordered-SameItems (λ _. 1),
    weigh-one-length chosen,
    length-map id_of (included_of run),
  )

  pub check_render_positions-none : check_render_positions gs ≡ []
  check_render_positions-none =
      positions-covered (positions_shown gs) ordered gs refl positions-weigh included-length
