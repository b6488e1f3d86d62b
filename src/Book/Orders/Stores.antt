-- ===== src/Book/Orders/Stores.antt =====
-- The part of the book that a lookup reads.
use account_services.Base.{ℕ, ◌≡◌, refl, Option, none, some, Map, lookup, nat_eq, eq_text, arith}
use account_services.Book.State.{OrderEntry, OrderBook, OrderBookEvent, find_order, call_back}

-- What `find_order` reads.
abbrev pub Store : Type 0
Store = Map ℕ ℕ × (ℕ → OrderEntry)

abbrev pub store_of : OrderBook → Store
store_of b = (b.id_to_index, b.orders)

pub store_of-call_back :
    (e : OrderEntry) (event : OrderBookEvent) (b : OrderBook)
    → store_of (call_back e event b) ≡ store_of b
store_of-call_back e event b = ground arith

unfoldable pub find_in : ℕ → Store → Option OrderEntry
find_in j s = elim (lookup j s.0) [ none ↦ none | some i ↦ some (s.1 i) ]

pub find_in_lem : (j : ℕ) (b : OrderBook) → find_order j b ≡ find_in j (store_of b)
unfolding find_order find_in
find_in_lem j b = refl
