-- ===== src/Orderer/Lawful.antt =====
-- The comparison of packages/compiler/src/context-orderer.ts is a total order.
use ctxalloc.Shared.{
  ℕ, compare, ◌≡◌, refl, true, arith, Ordering, ◌orelse◌, flip, in_order, Option, none, some, Text,
  compare_code_units, compare_code_units_refl, compare_code_units-eq, IsComparator,
  IsComparator-orelse, IsComparator-ascending, IsComparator-by_text, [],
}
use ctxalloc.Canonical.{canonical_json}
use ctxalloc.Domain.ContextBlock.{SourceLocation, text_range, conversation_message, ContextBlock}
use ctxalloc.Domain.Serialized.{block_json}
use ctxalloc.Orderer.Compare.{
  location_kind_rank, compare_messages, compare_same_kind, compare_location, compare_blocks,
}

-- A comparator for values of which some are absent: those come last.
none_last {ℓ} : {A : Type ℓ} → (A → A → Ordering) → Option A → Option A → Ordering
none_last c none none = Ordering.eq
none_last c none (some y) = Ordering.gt
none_last c (some x) none = Ordering.lt
none_last c (some x) (some y) = c x y

module _ {ℓ κ} {A : Type ℓ} {B : Type κ} where
  IsComparator-by :
      (key : A → B) (c : B → B → Ordering)
      → IsComparator c
      → IsComparator (λ x y. c (key x) (key y))
  IsComparator-by key c laws = record {
    flips = λ x y. laws.flips (key x) (key y);
    trans = λ x y z. laws.trans (key x) (key y) (key z);
  }

module _ {ℓ} {A : Type ℓ} where
  IsComparator-cong :
      (c d : A → A → Ordering) → ((x y : A) → c x y ≡ d x y) → IsComparator d → IsComparator c
  IsComparator-cong c d same laws = record {
    flips = λ x y. ground (arith, same x y, same y x, laws.flips x y);
    trans = λ x y z h k. ground (arith, same x y, same y z, same x z, laws.trans x y z);
  }

  none_last-IsComparator : (c : A → A → Ordering) → IsComparator c → IsComparator (none_last c)
  unfolding none_last
  none_last-IsComparator c laws = record { flips = flips_last; trans = trans_last }
    where
      flips_last : (x y : Option A) → none_last c y x ≡ flip (none_last c x y)
      flips_last none none = refl
      flips_last none (some y) = refl
      flips_last (some x) none = refl
      flips_last (some x) (some y) = laws.flips x y

      trans_last :
          (x y z : Option A)
          → in_order (none_last c x y) ≡ true
          → in_order (none_last c y z) ≡ true
          → in_order (none_last c x z) ≡ true
      trans_last none none z h k = k
      trans_last none (some y) z h k = cc
      trans_last (some x) y none h k = refl
      trans_last (some x) none (some z) h k = cc
      trans_last (some x) (some y) (some z) h k = laws.trans x y z h k

-- What a location is compared by, where it has it.
start_of : SourceLocation → ℕ
start_of (text_range start _ _ _) = start
start_of (conversation_message _ _) = 0

stop_of : SourceLocation → ℕ
stop_of (text_range _ stop _ _) = stop
stop_of (conversation_message _ _) = 0

index_of : SourceLocation → Option ℕ
index_of (text_range _ _ _ _) = none
index_of (conversation_message _ index) = index

message_of : SourceLocation → Text
message_of (text_range _ _ _ _) = []
message_of (conversation_message message _) = message

-- One key after the other.
by_keys : SourceLocation → SourceLocation → Ordering
by_keys x y =
    compare (location_kind_rank x) (location_kind_rank y)
    orelse (compare (start_of x) (start_of y)
        orelse (compare (stop_of x) (stop_of y)
            orelse (none_last compare (index_of x) (index_of y)
                orelse compare_code_units (message_of x) (message_of y))))

by_keys-IsComparator : IsComparator by_keys
unfolding by_keys
by_keys-IsComparator = IsComparator-orelse _ _ (IsComparator-ascending location_kind_rank) (
    IsComparator-orelse _ _ (IsComparator-ascending start_of) (
      IsComparator-orelse _ _ (IsComparator-ascending stop_of) (
        IsComparator-orelse _ _
          (IsComparator-by index_of (none_last compare)
            (none_last-IsComparator compare (IsComparator-ascending (λ n. n))))
          (IsComparator-by_text message_of))))

compare_given-by_keys :
    (x y : SourceLocation)
    → (compare (location_kind_rank x) (location_kind_rank y) orelse compare_same_kind x y)
      ≡ by_keys x y
unfolding by_keys compare_same_kind compare_messages none_last start_of stop_of index_of message_of
compare_given-by_keys (text_range a b c d) (text_range a' b' c' d') =
    ground (arith, compare_code_units_refl [])
compare_given-by_keys (text_range a b c d) (conversation_message m i) = refl
compare_given-by_keys (conversation_message m i) (text_range a b c d) = refl
compare_given-by_keys (conversation_message m none) (conversation_message n none) = refl
compare_given-by_keys (conversation_message m none) (conversation_message n (some j)) = refl
compare_given-by_keys (conversation_message m (some i)) (conversation_message n none) = refl
compare_given-by_keys (conversation_message m (some i)) (conversation_message n (some j)) = refl

compare_location-by_keys :
    (x y : Option SourceLocation) → compare_location x y ≡ none_last by_keys x y
unfolding compare_location none_last
compare_location-by_keys none none = refl
compare_location-by_keys none (some y) = refl
compare_location-by_keys (some x) none = refl
compare_location-by_keys (some x) (some y) = compare_given-by_keys x y

compare_location-IsComparator : IsComparator compare_location
compare_location-IsComparator =
    IsComparator-cong compare_location (none_last by_keys) compare_location-by_keys
      (none_last-IsComparator by_keys by_keys-IsComparator)

pub compare_blocks-IsComparator : IsComparator compare_blocks
unfolding compare_blocks
compare_blocks-IsComparator =
    IsComparator-orelse _ _ (IsComparator-by_text (λ (b : ContextBlock). b.source_document_id)) (
      IsComparator-orelse _ _
        (IsComparator-by (λ (b : ContextBlock). b.source_location) compare_location
          compare_location-IsComparator)
        (IsComparator-orelse _ _ (IsComparator-by_text (λ (b : ContextBlock). b.id))
          (IsComparator-by_text (λ b. canonical_json (block_json b)))))

compare_blocks-json :
    (a b : ContextBlock)
    → compare_blocks a b ≡ Ordering.eq
    → canonical_json (block_json a) ≡ canonical_json (block_json b)
unfolding compare_blocks
compare_blocks-json a b h =
    compare_code_units-eq (canonical_json (block_json a)) (canonical_json (block_json b))
      (ground (arith, h))

-- The comparison of blocks is a total order: exchanging two blocks turns its answer around, "not
-- after" is transitive, and it finds a tie only between blocks with one canonical serialization.
pub compare_blocks-orders :
    IsComparator compare_blocks
    × ((a b : ContextBlock)
        → compare_blocks a b ≡ Ordering.eq
        → canonical_json (block_json a) ≡ canonical_json (block_json b))
compare_blocks-orders = (compare_blocks-IsComparator, compare_blocks-json)
