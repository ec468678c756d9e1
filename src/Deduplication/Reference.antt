-- ===== src/Deduplication/Reference.antt =====
-- The grouping of packages/compiler/src/candidate-deduplicator.ts as one table, keyed by hash and
-- normalized content, and that the code's map of maps with a list of groups is that table.
use ctxalloc.Shared.{
  ℕ, ◌≡◌, refl, sym, ap, ◌∙◌, inl, inr, none, some, List, [], ◌∷◌, ◌++◌, map, arith, if◌then◌else◌,
  Option-cases, length, length-map, Text, text_eq, text_eq_iff, Table, get, put, get-put, text_key,
  pair_key, place, get_of_absent, get_of_present, put_new, values-put, place-put, update_at,
}
use ctxalloc.Domain.ContextBlock.{CandidateBlock}
use ctxalloc.Deduplication.Group.{
  normalize_content, Group, new_group, enter, Grouping, no_groups, bucket_of, add_candidate,
  add_all, group_by_exact_content,
}

-- What two wrappers of one group agree on.
abbrev pub key_of : CandidateBlock → Text × Text
key_of c = (c.block.normalized_content_hash, normalize_content c.block.content)

abbrev pub Filing : Type 0
Filing = Table (Text × Text) Group

abbrev pub held : Text × Text → Filing → Group
held key t = elim (get key t) [ none ↦ new_group key.1 | some g ↦ g ]

unfoldable pub file : CandidateBlock → Filing → Filing
file c t = put (key_of c) (enter c (held (key_of c) t)) t

unfoldable pub file_all : List CandidateBlock → Filing → Filing
file_all [] t = t
file_all (c ∷ cs) t = file_all cs (file c t)

-- The list is the table's values, and a bucket knows the places of the table's keys.
record Agrees (g : Grouping) (t : Filing) : Type 0 where
  ordered : g.ordered ≡ map (λ e. e.1) t
  places : (hash content : Text) → get content (bucket_of hash g.buckets) ≡ place (hash, content) t

bucket_of-put :
    (hash h : Text) (bucket : Table Text ℕ) (buckets : Table Text (Table Text ℕ))
    → bucket_of h (put hash bucket buckets)
      ≡ (if text_eq hash h then bucket else bucket_of h buckets)
unfolding bucket_of
bucket_of-put hash h bucket buckets = ground (arith, get-put hash h bucket buckets)

map-append {ℓ κ} :
    {A : Type ℓ} {B : Type κ} (f : A → B) (xs ys : List A) → map f (xs ++ ys) ≡ map f xs ++ map f ys
map-append f [] ys = refl
map-append f (x ∷ xs) ys = ap (λ zs. f x ∷ zs) (map-append f xs ys)

held_new : (key : Text × Text) (t : Filing) → get key t ≡ none → held key t ≡ new_group key.1
held_new key t absent = rw (held, absent) refl

held_old : (key : Text × Text) (t : Filing) (g : Group) → get key t ≡ some g → held key t ≡ g
held_old key t g present = rw (held, present) refl

add_new :
    (c : CandidateBlock) (g : Grouping)
    → get (key_of c).1 (bucket_of (key_of c).0 g.buckets) ≡ none
    → add_candidate c g ≡ record {
      buckets =
          put
            (key_of c).0
            (put (key_of c).1 (length g.ordered) (bucket_of (key_of c).0 g.buckets))
            g.buckets;
      ordered = g.ordered ++ enter c (new_group (key_of c).1) ∷ [];
    }
unfolding add_candidate
add_new c g absent = rw (add_candidate, absent) refl

add_old :
    (c : CandidateBlock) (g : Grouping) (p : ℕ)
    → get (key_of c).1 (bucket_of (key_of c).0 g.buckets) ≡ some p
    → add_candidate c g ≡ record g { ordered = update_at p (enter c) g.ordered }
unfolding add_candidate
add_old c g p found = rw (add_candidate, found) refl

add_new-Agrees :
    (c : CandidateBlock) (g : Grouping) (t : Filing)
    → Agrees g t
    → place (key_of c) t ≡ none
    → Agrees (add_candidate c g) (file c t)
unfolding file
add_new-Agrees c g t h absent =
    let key = key_of c in
    let new = get_of_absent key t absent in
    rw (add_new c g (h.places key.0 key.1 ∙ absent)) (record {
      ordered =
          ap (λ gs. gs ++ enter c (new_group key.1) ∷ []) h.ordered
          ∙ sym (
              map-append (λ (e : (Text × Text) × Group). e.1) t
                ((key, enter c (new_group key.1)) ∷ []))
          ∙ ap (map (λ e. e.1)) (
              sym (
                ap (λ v. put key (enter c v) t) (held_new key t new)
                ∙ put_new key (enter c (new_group key.1)) t new));
      places = λ a b. ground (
        arith,
        ap length h.ordered ∙ length-map (λ (e : (Text × Text) × Group). e.1) t,
        bucket_of-put key.0 a (put key.1 (length g.ordered) (bucket_of key.0 g.buckets)) g.buckets,
        get-put key.1 b (length g.ordered) (bucket_of key.0 g.buckets),
        place-put key (a, b) (enter c (held key t)) t,
        h.places a b,
        text_eq_iff key.0 a,
        absent,
      );
    })

add_old-Agrees :
    (c : CandidateBlock) (g : Grouping) (t : Filing) (p : ℕ)
    → Agrees g t
    → place (key_of c) t ≡ some p
    → Agrees (add_candidate c g) (file c t)
unfolding file
add_old-Agrees c g t p h found =
    let key = key_of c in
    let (old, present) = get_of_present key t p found in
    rw (add_old c g p (h.places key.0 key.1 ∙ found)) (record {
      ordered =
          ap (update_at p (enter c)) h.ordered
          ∙ sym (values-put key old (enter c) t p found present)
          ∙ ap (λ v. map (λ e. e.1) (put key (enter c v) t)) (sym (held_old key t old present));
      places = λ a b. ground (
        arith,
        place-put key (a, b) (enter c (held key t)) t,
        h.places a b,
        text_eq_iff key.0 a,
        text_eq_iff key.1 b,
        found,
      );
    })

add_all-Agrees :
    (cs : List CandidateBlock) (g : Grouping) (t : Filing)
    → Agrees g t
    → Agrees (add_all cs g) (file_all cs t)
unfolding add_all file_all
add_all-Agrees [] g t h = h
add_all-Agrees (c ∷ cs) g t h = elim (Option-cases (place (key_of c) t)) [
  | inl absent ↦ add_all-Agrees cs _ _ (add_new-Agrees c g t h absent)
  | inr (p, found) ↦ add_all-Agrees cs _ _ (add_old-Agrees c g t p h found)
]

no_groups-Agrees : Agrees no_groups []
unfolding bucket_of get place
no_groups-Agrees = record { ordered = refl; places = λ a b. refl }

-- The buckets by hash, the groups by content within a bucket and the list of groups in the order of
-- their first wrapper are together one table keyed by hash and content, for every batch.
pub group_by_exact_content-eq-file_all :
    (cs : List CandidateBlock) → group_by_exact_content cs ≡ map (λ e. e.1) (file_all cs [])
unfolding group_by_exact_content
group_by_exact_content-eq-file_all cs = (add_all-Agrees cs no_groups [] no_groups-Agrees).ordered
