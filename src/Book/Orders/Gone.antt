-- ===== src/Book/Orders/Gone.antt =====
-- What an archived order leaves behind.
use account_services.Base.{
  ℕ, ◌≡◌, refl, ap, ◌∙◌, inl, inr, Bool, none, some, erase, lookup-erase, nat_eq, eq_text, update,
  ◌==◌, if◌then◌else◌, Option-cases, arith,
}
use account_services.Book.State.{
  OrderEntry, blank_entry, OrderBook, archived, find_slot, find_order, call_back,
}
use account_services.Book.Slots.{IsValid}
use account_services.Book.Orders.{
  unindex_broker, unindex_security, release_slot, removed, archive_order,
}
use account_services.Book.Orders.Stores.{Store, store_of, store_of-call_back, find_in, find_in_lem}
use account_services.Book.Orders.Removed.{archive_order_at, archive_order_absent}

store_of-unindex_broker :
    (k : ℕ) (e : OrderEntry) (b : OrderBook) → store_of (unindex_broker k e b) ≡ store_of b
unfolding unindex_broker
store_of-unindex_broker k e b = ground arith

store_of-unindex_security :
    (k : ℕ) (e : OrderEntry) (b : OrderBook) → store_of (unindex_security k e b) ≡ store_of b
unfolding unindex_security
store_of-unindex_security k e b = ground arith

without : ℕ → ℕ → Store → Store
without k slot s = (erase k s.0, update s.1 slot blank_entry)

store_of-release_slot :
    (k slot : ℕ) (b : OrderBook) → store_of (release_slot k slot b) ≡ without k slot (store_of b)
unfolding release_slot without
store_of-release_slot k slot b = refl

store_of-removed :
    (k slot : ℕ) (b : OrderBook)
    → store_of (call_back (b.orders slot) archived (removed k slot b)) ≡ without k slot (store_of b)
unfolding removed
store_of-removed k slot b =
    let e = b.orders slot in
    store_of-call_back e archived (removed k slot b)
    ∙ store_of-release_slot k slot (unindex_security k e (unindex_broker k e b))
    ∙ ap (without k slot)
        (store_of-unindex_security k e (unindex_broker k e b) ∙ store_of-unindex_broker k e b)

find_order_absent :
    (k j : ℕ) (b : OrderBook)
    → find_slot k b ≡ none
    → find_order j b ≡ (if k == j then none else find_order j b)
unfolding find_order
find_order_absent k j b absent = ground (arith, absent)

find_in-without :
    (capacity k slot j : ℕ) (b : OrderBook)
    → IsValid capacity b
    → find_slot k b ≡ some slot
    → find_in j (without k slot (store_of b)) ≡ (if k == j then none else find_order j b)
unfolding find_in without find_order
find_in-without capacity k slot j b v at = elim (Option-cases (find_slot j b)) [
  | inl absent ↦ ground (arith, absent, lookup-erase k j b.id_to_index)
  | inr (i, at_j) ↦
      ground (arith, at_j, lookup-erase k j b.id_to_index, v.owned j i at_j, v.owned k slot at)
]

-- In a valid book, an order that is archived is found no more, and every other order is found as
-- before.
pub find_order-archive_order :
    (capacity k j : ℕ) (b : OrderBook)
    → IsValid capacity b
    → find_order j (archive_order k b).1 ≡ (if k == j then none else find_order j b)
unfolding find_in without
find_order-archive_order capacity k j b v = elim (Option-cases (find_slot k b)) [
  | inl absent ↦
      ap (λ (r : Bool × OrderBook). find_order j r.1) (archive_order_absent k b absent)
      ∙ find_order_absent k j b absent
  | inr (slot, at) ↦
      ap (λ (r : Bool × OrderBook). find_order j r.1) (archive_order_at k slot b at)
      ∙ find_in_lem j (call_back (b.orders slot) archived (removed k slot b))
      ∙ ap (find_in j) (store_of-removed k slot b)
      ∙ find_in-without capacity k slot j b v at
]
