-- ===== src/Book/Slots.antt =====
-- The slots of the order table: which are free, and which order id owns each of the others.
use mathlib.Core.Path.{fun_ext}
use account_services.Base.{
  ℕ, suc, ◌+◌, ◌<◌, ◌≡◌, ◌≢◌, refl, ap, inl, inr, none, some, List, [], ◌∷◌, Map, IsMap, insert,
  erase, lookup, lookup-insert, lookup-erase, insert-IsMap, erase-IsMap, length-insert_new,
  length-erase, nat_eq, All, Distinct, Distinct-range, All-range, length-range, range, length,
  update, Bool-cases, arith,
}
use account_services.Book.State.{OrderEntry, OrderBook, store, notify, OrderBookEvent}

pub record Slots : Type 0 where
  pub index : Map ℕ ℕ
  pub free : List ℕ
  pub count : ℕ
  pub id_at : ℕ → ℕ

abbrev pub slots_of : OrderBook → Slots
slots_of b = record {
  index = b.id_to_index;
  free = b.free_slots;
  count = b.active_count;
  id_at = λ i. (b.orders i).request.internal_order_id;
}

-- Every id in work owns a slot of the table that holds its order and is not free; the free slots
-- are in the table and differ; and the slots in use are counted.
pub record IsValidSlots (capacity : ℕ) (s : Slots) : Type 0 where
  pub is_map : IsMap s.index
  pub nonzero : (k i : ℕ) → lookup k s.index ≡ some i → k ≢ 0
  pub in_table : (k i : ℕ) → lookup k s.index ≡ some i → i < capacity
  pub owned : (k i : ℕ) → lookup k s.index ≡ some i → s.id_at i ≡ k
  pub used : (k i : ℕ) → lookup k s.index ≡ some i → All (λ j. i ≢ j) s.free
  pub free_in : All (λ j. j < capacity) s.free
  pub free_distinct : Distinct s.free
  pub counted : s.count ≡ length s.index
  pub filled : s.count + length s.free ≡ capacity

abbrev pub IsValid : ℕ → OrderBook → Type 0
IsValid capacity b = IsValidSlots capacity (slots_of b)

pub empty-IsValidSlots :
    (capacity : ℕ) (ids : ℕ → ℕ)
    → IsValidSlots capacity (record { index = []; free = range 0 capacity; count = 0; id_at = ids })
unfolding lookup
empty-IsValidSlots capacity ids = record {
  is_map = tt;
  nonzero = λ k i h. cc;
  in_table = λ k i h. absurd (cc);
  owned = λ k i h. absurd (cc);
  used = λ k i h. absurd (cc);
  free_in = All-range (λ j. j < capacity) 0 capacity (λ y lo hi. omega arith);
  free_distinct = Distinct-range 0 capacity;
  counted = refl;
  filled = omega (arith, length-range 0 capacity);
}

-- Taking the first free slot.
pub take-IsValidSlots :
    (capacity : ℕ) (s : Slots) (k slot : ℕ) (free : List ℕ)
    → IsValidSlots capacity s
    → k ≢ 0
    → lookup k s.index ≡ none
    → s.free ≡ slot ∷ free
    → IsValidSlots capacity (record {
      index = insert k slot s.index;
      free = free;
      count = s.count + 1;
      id_at = update s.id_at slot k;
    })
take-IsValidSlots capacity s k slot free v nz fresh first = record {
  is_map = insert-IsMap k slot s.index v.is_map;
  nonzero = λ j i h. ground (arith, lookup-insert k j slot s.index, v.nonzero j i);
  in_table = λ j i h. ground (arith, lookup-insert k j slot s.index, v.in_table j i, v.free_in);
  owned = λ j i h. ground (arith, lookup-insert k j slot s.index, v.owned j i, v.used j i);
  used = λ j i h. ground (arith, lookup-insert k j slot s.index, v.used j i, v.free_distinct);
  free_in = ground (arith, v.free_in);
  free_distinct = ground (arith, v.free_distinct);
  counted = ground (arith, length-insert_new k slot s.index fresh, v.counted);
  filled = ground (arith, v.filled);
}

-- Giving a slot back.
pub release-IsValidSlots :
    (capacity : ℕ) (s : Slots) (k slot count : ℕ)
    → IsValidSlots capacity s
    → lookup k s.index ≡ some slot
    → suc count ≡ s.count
    → IsValidSlots capacity (record {
      index = erase k s.index;
      free = slot ∷ s.free;
      count = count;
      id_at = update s.id_at slot 0;
    })
release-IsValidSlots capacity s k slot count v at less = record {
  is_map = erase-IsMap k s.index v.is_map;
  nonzero = λ j i h. ground (arith, lookup-erase k j s.index, v.nonzero j i);
  in_table = λ j i h. ground (arith, lookup-erase k j s.index, v.in_table j i);
  owned = λ j i h. ground (arith, lookup-erase k j s.index, v.owned j i, v.owned k slot);
  used = λ j i h. ground (arith, lookup-erase k j s.index, v.used j i, v.owned j i, v.owned k slot);
  free_in = (v.in_table k slot at, v.free_in);
  free_distinct = (v.used k slot at, v.free_distinct);
  counted = omega (arith, length-erase k slot s.index v.is_map at, v.counted);
  filled = omega (arith, v.filled);
}

-- A write that keeps the entry's id, and a call of the callback, change no slot.
pub slots_of-store :
    (i : ℕ) (e : OrderEntry) (b : OrderBook)
    → e.request.internal_order_id ≡ (b.orders i).request.internal_order_id
    → slots_of (store i e b) ≡ slots_of b
slots_of-store i e b h =
    ap
      (λ (f : ℕ → ℕ).
        let s : Slots = record {
          index = b.id_to_index;
          free = b.free_slots;
          count = b.active_count;
          id_at = f;
        } in
        s)
      (fun_ext (λ j. ground arith))

pub slots_of-notify :
    (i : ℕ) (event : OrderBookEvent) (b : OrderBook) → slots_of (notify i event b) ≡ slots_of b
slots_of-notify i event b = elim (Bool-cases b.has_callback) [ inl e ↦ rw e | inr e ↦ rw e ]
