-- ===== src/Book/Orders.antt =====
-- OrderBook::add_order, archive_order and clear. `now` is the value of now_ns().
pub mod Added
pub mod Removed
pub mod Stores
pub mod Found
pub mod Gone
use account_services.Base.{
  ℕ, ◌+◌, ◌-◌, Bool, true, false, not, ◌&&◌, Option, none, some, List, [], ◌∷◌, ◌++◌, Map, Text,
  insert, erase, lookup, contains, nat_eq, eq_text, update, range, empty, ltb, leb, ◌==◌,
  if◌then◌else◌,
}
use account_services.Types.{is_new}
use account_services.Request.{OrderRequest}
use account_services.Identity.{normalize_security_key}
use account_services.Book.State.{
  OrderEntry, blank_entry, OrderBook, OrderBookEvent, added, archived, find_slot, call_back, notify,
  or_nil, is_managed_parent, saturated_next_order_id, ensure_next_order_id_at_least,
}
use account_services.Book.Refresh.{refresh_parent_from_children}

-- The entry as it is stored: missing times and the missing remaining volume are filled in.
unfoldable pub stored_entry : ℕ → OrderEntry → OrderEntry
stored_entry now e =
    let r = e.request in
    let submit_time_ns = if e.submit_time_ns == 0 then now else e.submit_time_ns in
    record e {
      submit_time_ns = submit_time_ns;
      last_update_ns = if e.last_update_ns == 0 then submit_time_ns else e.last_update_ns;
      request = record r {
        volume_remain =
            if is_new r.order_type
              && ((r.volume_remain == 0) && leb r.volume_traded r.volume_entrust)
            then r.volume_entrust - r.volume_traded
            else r.volume_remain;
      };
    }

-- Takes the slot, and lifts the id counter over the new id.
unfoldable pub place : ℕ → ℕ → List ℕ → OrderEntry → OrderBook → OrderBook
place order_id slot free stored b =
    ensure_next_order_id_at_least (saturated_next_order_id order_id) (record b {
      free_slots = free;
      orders = update b.orders slot stored;
      id_to_index = insert order_id slot b.id_to_index;
    })

unfoldable pub index_broker : ℕ → OrderEntry → OrderBook → OrderBook
index_broker order_id stored b =
    if stored.request.broker_order_id == 0
    then b
    else record b { broker_id_map = insert stored.request.broker_order_id order_id b.broker_id_map }

-- The canonical key is the index's; the entry in the table keeps the key that it came with, since
-- the source writes the canonical one to its local copy only.
unfoldable pub index_security : ℕ → OrderEntry → OrderBook → OrderBook
index_security order_id stored b =
    if empty stored.request.internal_security_id
    then b
    else elim (normalize_security_key stored.request.internal_security_id) [
      | none ↦ b
      | some key ↦ record b {
        security_orders =
            insert key (or_nil (lookup key b.security_orders) ++ (order_id ∷ [])) b.security_orders;
      }
    ]

abbrev pub linked : ℕ → ℕ → OrderBook → OrderBook
linked order_id parent_id b = record b {
  parent_to_children =
      insert parent_id (or_nil (lookup parent_id b.parent_to_children) ++ (order_id ∷ []))
        b.parent_to_children;
  child_to_parent = insert order_id parent_id b.child_to_parent;
}

unfoldable pub index_child : ℕ → OrderEntry → OrderBook → OrderBook
index_child order_id stored b =
    let b' = linked order_id stored.parent_order_id b in
    if stored.is_split_child && not (stored.parent_order_id == 0)
    then (if is_managed_parent stored.parent_order_id b'
        then b'
        else refresh_parent_from_children stored.parent_order_id b')
    else b

unfoldable pub add_to_slot : ℕ → ℕ → List ℕ → OrderEntry → OrderBook → OrderBook
add_to_slot order_id slot free stored b =
    let indexed = index_child order_id stored (
      index_security order_id stored
        (index_broker order_id stored (place order_id slot free stored b))) in
    notify slot added (record indexed { active_count = indexed.active_count + 1 })

unfoldable pub add_order : ℕ → OrderEntry → OrderBook → Bool × OrderBook
add_order now entry b =
    let order_id = entry.request.internal_order_id in
    if order_id == 0 then (false, b) else elim (find_slot order_id b) [
      | some _ ↦ (false, b)
      | none ↦ elim b.free_slots [
        | [] ↦ (false, b)
        | slot ∷ free ↦ (true, add_to_slot order_id slot free (stored_entry now entry) b)
      ]
    ]

-- std::remove and erase
unfoldable pub remove_id : ℕ → List ℕ → List ℕ
remove_id order_id [] = []
remove_id order_id (x ∷ xs) =
    let rest = remove_id order_id xs in if x == order_id then rest else x ∷ rest

unfoldable pub unindex_broker : ℕ → OrderEntry → OrderBook → OrderBook
unindex_broker order_id entry b =
    if entry.request.broker_order_id == 0
    then b
    else elim (lookup entry.request.broker_order_id b.broker_id_map) [
      | none ↦ b
      | some owner ↦
          if owner == order_id
          then record b { broker_id_map = erase entry.request.broker_order_id b.broker_id_map }
          else b
    ]

-- An id list that becomes empty goes with its key.
abbrev put_orders : Text → List ℕ → Map Text (List ℕ) → Map Text (List ℕ)
put_orders key [] m = erase key m
put_orders key (x ∷ xs) m = insert key (x ∷ xs) m

unfoldable pub unindex_security : ℕ → OrderEntry → OrderBook → OrderBook
unindex_security order_id entry b =
    if empty entry.request.internal_security_id
    then b
    else elim (normalize_security_key entry.request.internal_security_id) [
      | none ↦ b
      | some key ↦ elim (lookup key b.security_orders) [
        | none ↦ b
        | some ids ↦ record b {
          security_orders = put_orders key (remove_id order_id ids) b.security_orders;
        }
      ]
    ]

-- Frees the slot. The links between parents and children stay.
unfoldable pub release_slot : ℕ → ℕ → OrderBook → OrderBook
release_slot order_id slot b = record b {
  id_to_index = erase order_id b.id_to_index;
  managed_parent_ids = erase order_id b.managed_parent_ids;
  split_parent_error_latched = erase order_id b.split_parent_error_latched;
  orders = update b.orders slot blank_entry;
  free_slots = slot ∷ b.free_slots;
  active_count = if ltb 0 b.active_count then b.active_count - 1 else b.active_count;
}

unfoldable pub removed : ℕ → ℕ → OrderBook → OrderBook
removed order_id slot b =
    release_slot order_id slot
      (unindex_security order_id (b.orders slot) (unindex_broker order_id (b.orders slot) b))

-- The callback gets the entry as it was.
unfoldable pub archive_order : ℕ → OrderBook → Bool × OrderBook
archive_order order_id b = elim (find_slot order_id b) [
  | none ↦ (false, b)
  | some slot ↦ (true, call_back (b.orders slot) archived (removed order_id slot b))
]

-- For a table of `capacity` orders. The id counter and the callback stay.
unfoldable pub clear : ℕ → OrderBook → OrderBook
clear capacity b = record b {
  id_to_index = [];
  broker_id_map = [];
  security_orders = [];
  parent_to_children = [];
  child_to_parent = [];
  managed_parent_ids = [];
  split_parent_error_latched = [];
  free_slots = range 0 capacity;
  orders = λ _. blank_entry;
  active_count = 0;
}
