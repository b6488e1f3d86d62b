-- ===== src/Book/State.antt =====
-- The order book's state and its lookups. The spin lock makes each operation one step.
use account_services.Base.{
  ℕ, ◌+◌, Bool, false, Option, none, some, List, [], ◌∷◌, Map, Text, lookup, contains, map, nat_eq,
  eq_text, update, range, u32_max, add32, ltb, ◌==◌, if◌then◌else◌,
}
use account_services.Types.{RiskResult, is_terminal_state}
use account_services.Request.{OrderRequest, blank_request}
use account_services.Identity.{normalize_security_key}

pub record OrderEntry : Type 0 where
  pub request : OrderRequest
  pub submit_time_ns : ℕ
  pub last_update_ns : ℕ
  pub strategy_id : ℕ
  pub risk_result : RiskResult
  pub retry_count : ℕ
  pub is_split_child : Bool
  pub parent_order_id : ℕ
  pub shm_order_index : ℕ
  pub fund_frozen : ℕ

-- OrderEntry{}
abbrev pub blank_entry : OrderEntry
blank_entry = record {
  request = blank_request;
  submit_time_ns = 0;
  last_update_ns = 0;
  strategy_id = 0;
  risk_result = RiskResult.pass;
  retry_count = 0;
  is_split_child = false;
  parent_order_id = 0;
  shm_order_index = u32_max;
  fund_frozen = 0;
}

unfoldable pub is_terminal : OrderEntry → Bool
is_terminal e = is_terminal_state e.request.order_state

pub data OrderBookEvent : Type 0 where
  added status_updated trade_updated archived parent_refreshed : OrderBookEvent

-- A set of ids is a map to nothing.
abbrev pub IdSet : Type 0
IdSet = Map ℕ (Unit {0})

-- `free_slots` lists the stack from its top. `notified` lists the calls of the change callback,
-- newest first.
pub record OrderBook : Type 0 where
  pub orders : ℕ → OrderEntry
  pub id_to_index : Map ℕ ℕ
  pub broker_id_map : Map ℕ ℕ
  pub security_orders : Map Text (List ℕ)
  pub parent_to_children : Map ℕ (List ℕ)
  pub child_to_parent : Map ℕ ℕ
  pub managed_parent_ids : IdSet
  pub split_parent_error_latched : IdSet
  pub free_slots : List ℕ
  pub active_count : ℕ
  pub next_order_id : ℕ
  pub has_callback : Bool
  pub notified : List (OrderEntry × OrderBookEvent)

-- kMaxActiveOrders
pub max_active_orders : ℕ
max_active_orders = 1048576

-- OrderBook(), for a table of `capacity` orders
unfoldable pub new_book : ℕ → OrderBook
new_book capacity = record {
  orders = λ _. blank_entry;
  id_to_index = [];
  broker_id_map = [];
  security_orders = [];
  parent_to_children = [];
  child_to_parent = [];
  managed_parent_ids = [];
  split_parent_error_latched = [];
  free_slots = range 0 capacity;
  active_count = 0;
  next_order_id = 1;
  has_callback = false;
  notified = [];
}

-- A pointer to an entry is the index of its slot.
abbrev pub find_slot : ℕ → OrderBook → Option ℕ
find_slot order_id b = lookup order_id b.id_to_index

unfoldable pub find_order : ℕ → OrderBook → Option OrderEntry
find_order order_id b = elim (find_slot order_id b) [ none ↦ none | some i ↦ some (b.orders i) ]

unfoldable pub find_by_broker_id : ℕ → OrderBook → Option OrderEntry
find_by_broker_id broker_order_id b = elim (lookup broker_order_id b.broker_id_map) [
  | none ↦ none
  | some order_id ↦ find_order order_id b
]

abbrev pub store : ℕ → OrderEntry → OrderBook → OrderBook
store i entry b = record b { orders = update b.orders i entry }

-- An entry goes to the callback, if one is set.
abbrev pub call_back : OrderEntry → OrderBookEvent → OrderBook → OrderBook
call_back entry event b =
    if b.has_callback then record b { notified = (entry, event) ∷ b.notified } else b

abbrev pub notify : ℕ → OrderBookEvent → OrderBook → OrderBook
notify i event b = call_back (b.orders i) event b

abbrev pub is_managed_parent : ℕ → OrderBook → Bool
is_managed_parent parent_id b = contains parent_id b.managed_parent_ids

abbrev pub has_children : ℕ → OrderBook → Bool
has_children order_id b = contains order_id b.parent_to_children

unfoldable pub get_active_order_ids : OrderBook → List ℕ
get_active_order_ids b = map (λ e. e.0) b.id_to_index

abbrev pub or_nil : Option (List ℕ) → List ℕ
or_nil none = []
or_nil (some ids) = ids

unfoldable pub get_orders_by_security : Text → OrderBook → List ℕ
get_orders_by_security security_id b = elim (normalize_security_key security_id) [
  | none ↦ []
  | some key ↦ or_nil (lookup key b.security_orders)
]

unfoldable pub get_children : ℕ → OrderBook → List ℕ
get_children parent_id b = or_nil (lookup parent_id b.parent_to_children)

unfoldable pub try_get_parent : ℕ → OrderBook → Option ℕ
try_get_parent child_id b = lookup child_id b.child_to_parent

-- fetch_add on a uint32_t: the id, and the book with the next one
unfoldable pub next_order_id : OrderBook → ℕ × OrderBook
next_order_id b = (b.next_order_id, record b { next_order_id = add32 b.next_order_id 1 })

unfoldable pub saturated_next_order_id : ℕ → ℕ
saturated_next_order_id order_id = if order_id == u32_max then order_id else order_id + 1

-- What the compare-and-exchange loop leaves.
unfoldable pub ensure_next_order_id_at_least : ℕ → OrderBook → OrderBook
ensure_next_order_id_at_least next_id b =
    if ltb b.next_order_id next_id then record b { next_order_id = next_id } else b

unfoldable pub set_change_callback : Bool → OrderBook → OrderBook
set_change_callback callback b = record b { has_callback = callback }
