-- ===== src/Book/Orders/Found.antt =====
-- What an added order leaves in the table.
use account_services.Base.{
  ℕ, ◌+◌, ◌≡◌, ◌≢◌, refl, ap, subst, sym, ◌∙◌, ◌⊎◌, inl, inr, Bool, true, false, some, List, ◌∷◌,
  lookup, insert, lookup-insert, nat_eq, eq_text, update, All, ◌==◌, if◌then◌else◌, Option-cases,
  arith,
}
use account_services.Book.State.{
  OrderEntry, OrderBook, added, find_slot, find_order, ensure_next_order_id_at_least,
}
use account_services.Book.Slots.{IsValid}
use account_services.Book.Refresh.Frame.{IsOwned, find_order-refresh_other}
use account_services.Book.Orders.{
  stored_entry, place, index_broker, index_security, linked, index_child, add_to_slot, add_order,
}
use account_services.Book.Orders.Stores.{Store, store_of, store_of-call_back, find_in, find_in_lem}
use account_services.Book.Orders.Added.{index_child_cases, add_order_cases}

with_order : ℕ → ℕ → OrderEntry → Store → Store
with_order k slot e s = (insert k slot s.0, update s.1 slot e)

store_of-place :
    (k slot : ℕ) (free : List ℕ) (e : OrderEntry) (b : OrderBook)
    → store_of (place k slot free e b) ≡ with_order k slot e (store_of b)
unfolding place ensure_next_order_id_at_least with_order
store_of-place k slot free e b = ground arith

store_of-index_broker :
    (k : ℕ) (e : OrderEntry) (b : OrderBook) → store_of (index_broker k e b) ≡ store_of b
unfolding index_broker
store_of-index_broker k e b = ground arith

store_of-index_security :
    (k : ℕ) (e : OrderEntry) (b : OrderBook) → store_of (index_security k e b) ≡ store_of b
unfolding index_security
store_of-index_security k e b = ground arith

-- Before the links to a parent.
secured : ℕ → ℕ → List ℕ → OrderEntry → OrderBook → OrderBook
secured k slot free e b = index_security k e (index_broker k e (place k slot free e b))

store_of-secured :
    (k slot : ℕ) (free : List ℕ) (e : OrderEntry) (b : OrderBook)
    → store_of (secured k slot free e b) ≡ with_order k slot e (store_of b)
unfolding secured
store_of-secured k slot free e b =
    store_of-index_security k e (index_broker k e (place k slot free e b))
    ∙ store_of-index_broker k e (place k slot free e b)
    ∙ store_of-place k slot free e b

-- The refresh after the entry does not reach the order.
abbrev pub IsApart : ℕ → OrderEntry → Type 0
IsApart j e = (e.is_split_child ≡ false) ⊎ (j ≢ e.parent_order_id)

find_order-index_child :
    (k j : ℕ) (e : OrderEntry) (b : OrderBook)
    → IsOwned b
    → IsApart j e
    → find_order j (index_child k e b) ≡ find_order j b
unfolding index_child find_order
find_order-index_child k j e b owned (inl single) = ground (arith, single)
find_order-index_child k j e b owned (inr other) = elim (index_child_cases k e b) [
  | inl same ↦ ap (find_order j) same
  | inr (inl link) ↦ ap (find_order j) link
  | inr (inr link) ↦
      ap (find_order j) link
      ∙ find_order-refresh_other (linked k e.parent_order_id b) owned e.parent_order_id j other
]

OwnedStore : Store → Type 0
OwnedStore s = (k i : ℕ) → lookup k s.0 ≡ some i → (s.1 i).request.internal_order_id ≡ k

top_unused :
    (capacity slot : ℕ) (free : List ℕ) (b : OrderBook)
    → IsValid capacity b
    → b.free_slots ≡ slot ∷ free
    → (j i : ℕ) → find_slot j b ≡ some i
    → i ≢ slot
top_unused capacity slot free b v tops j i at =
    let unused : All (λ x. i ≢ x) (slot ∷ free) =
      subst (λ l. All (λ x. i ≢ x) l) tops (v.used j i at) in
    unused.0

with_order-OwnedStore :
    (capacity k slot : ℕ) (free : List ℕ) (e : OrderEntry) (b : OrderBook)
    → IsValid capacity b
    → b.free_slots ≡ slot ∷ free
    → e.request.internal_order_id ≡ k
    → OwnedStore (with_order k slot e (store_of b))
unfolding OwnedStore with_order
with_order-OwnedStore capacity k slot free e b v tops named j i at =
    let found = lookup-insert k j slot b.id_to_index in
    elim (Option-cases (find_slot j b)) [
      | inl absent ↦ ground (arith, at, found, absent)
      | inr (i', at_j) ↦ ground (
        arith,
        at,
        found,
        at_j,
        v.owned j i' at_j,
        top_unused capacity slot free b v tops j i' at_j,
      )
    ]

find_in-with_order :
    (capacity k slot j : ℕ) (free : List ℕ) (e : OrderEntry) (b : OrderBook)
    → IsValid capacity b
    → b.free_slots ≡ slot ∷ free
    → find_in j (with_order k slot e (store_of b)) ≡ (if k == j then some e else find_order j b)
unfolding find_in with_order find_order
find_in-with_order capacity k slot j free e b v tops =
    let found = lookup-insert k j slot b.id_to_index in
    elim (Option-cases (find_slot j b)) [
      | inl absent ↦ ground (arith, found, absent)
      | inr (i, at_j) ↦ ground (arith, found, at_j, top_unused capacity slot free b v tops j i at_j)
    ]

counted_up : OrderBook → OrderBook
counted_up b = record b { active_count = b.active_count + 1 }

find_order-add_to_slot :
    (capacity k slot j : ℕ) (free : List ℕ) (e : OrderEntry) (b : OrderBook)
    → IsValid capacity b
    → b.free_slots ≡ slot ∷ free
    → e.request.internal_order_id ≡ k
    → IsApart j e
    → find_order j (add_to_slot k slot free e b) ≡ (if k == j then some e else find_order j b)
unfolding add_to_slot secured counted_up OwnedStore
find_order-add_to_slot capacity k slot j free e b v tops named apart =
    let before = secured k slot free e b in
    let indexed = index_child k e before in
    let stored = store_of-secured k slot free e b in
    let owned : OwnedStore (store_of before) =
      subst OwnedStore (sym stored) (with_order-OwnedStore capacity k slot free e b v tops named) in
    find_in_lem j (add_to_slot k slot free e b)
    ∙ ap (find_in j) (store_of-call_back (indexed.orders slot) added (counted_up indexed))
    ∙ sym (find_in_lem j indexed)
    ∙ find_order-index_child k j e before owned apart
    ∙ find_in_lem j before
    ∙ ap (find_in j) stored
    ∙ find_in-with_order capacity k slot j free e b v tops

-- An order that a valid book accepts is found under its id as it is stored, and every other order is
-- found as before, but for the parent of a split order, which may be refreshed.
pub find_order-add_order :
    (capacity now j : ℕ) (e : OrderEntry) (b : OrderBook)
    → IsValid capacity b
    → (add_order now e b).0 ≡ true
    → IsApart j e
    → find_order j (add_order now e b).1
      ≡ (if e.request.internal_order_id == j then some (stored_entry now e) else find_order j b)
unfolding stored_entry
find_order-add_order capacity now j e b v done apart = elim (add_order_cases now e b) [
  | inl refused ↦ absurd (ground (arith, done, ap (λ (r : Bool × OrderBook). r.0) refused))
  | inr (slot, free, nonzero, fresh, tops, same) ↦
      ap (λ (r : Bool × OrderBook). find_order j r.1) same
      ∙ find_order-add_to_slot capacity e.request.internal_order_id slot j free (stored_entry now e)
          b v tops refl apart
]
