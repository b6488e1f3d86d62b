-- ===== src/Book/Refresh.antt =====
-- OrderBook::refresh_parent_from_children_nolock: a split order's parent takes over the sums and
-- the state of its children.
pub mod Sums
pub mod Frame
pub mod Parent
use account_services.Base.{
  ℕ, ◌+◌, ◌-◌, ◌*◌, ◌/◌, Bool, true, false, not, ◌&&◌, ◌||◌, Option, none, some, List, [], ◌∷◌,
  lookup, contains, nat_eq, update, saturating_add, max, ltb, ◌==◌, if◌then◌else◌,
}
use account_services.Types.{OrderState, state_code, is_new, is_terminal_state, status_progress_rank}
use account_services.Request.{OrderRequest}
use account_services.Book.State.{
  OrderEntry, OrderBook, OrderBookEvent, parent_refreshed, find_slot, find_order, store, notify,
  is_managed_parent,
}

-- The locals of the loop. `best_progress_rank` starts at -1, here none.
pub record Totals : Type 0 where
  pub total_volume_traded : ℕ
  pub total_volume_remain : ℕ
  pub total_dvalue_traded : ℕ
  pub total_fee : ℕ
  pub latest_update_ns : ℕ
  pub all_terminal : Bool
  pub best_progress_status : OrderState
  pub best_progress_rank : Option ℕ
  pub new_child_count : ℕ

abbrev pub initial_totals : OrderEntry → Totals
initial_totals parent = record {
  total_volume_traded = 0;
  total_volume_remain = 0;
  total_dvalue_traded = 0;
  total_fee = 0;
  latest_update_ns = parent.last_update_ns;
  all_terminal = true;
  best_progress_status = OrderState.not_set;
  best_progress_rank = none;
  new_child_count = 0;
}

-- rank > best
abbrev pub outranks : ℕ → Option ℕ → Bool
outranks rank none = true
outranks rank (some best) = ltb best rank

-- One child that is a new order.
unfoldable pub add_child : OrderEntry → Totals → Totals
add_child child t =
    let status = child.request.order_state in
    let rank = status_progress_rank status in
    let better = outranks rank t.best_progress_rank in
    record {
      total_volume_traded = saturating_add t.total_volume_traded child.request.volume_traded;
      total_volume_remain = saturating_add t.total_volume_remain child.request.volume_remain;
      total_dvalue_traded = saturating_add t.total_dvalue_traded child.request.dvalue_traded;
      total_fee = saturating_add t.total_fee child.request.dfee_executed;
      latest_update_ns = max t.latest_update_ns child.last_update_ns;
      all_terminal = if is_terminal_state status then t.all_terminal else false;
      best_progress_status = if better then status else t.best_progress_status;
      best_progress_rank = if better then some rank else t.best_progress_rank;
      new_child_count = t.new_child_count + 1;
    }

-- The body of the loop: a missing child, or one that is no new order, is passed over.
abbrev pub visit_child : OrderBook → ℕ → Totals → Totals
visit_child b child_id t = elim (find_order child_id b) [
  | none ↦ t
  | some child ↦ if is_new child.request.order_type then add_child child t else t
]

unfoldable pub sum_children : OrderBook → List ℕ → Totals → Totals
sum_children b [] t = t
sum_children b (child_id ∷ rest) t = sum_children b rest (visit_child b child_id t)

-- The parent's state after the sums: a latched error wins, then the end of all children, then the
-- most advanced of them.
unfoldable pub refreshed_state : Totals → Bool → OrderState → OrderState
refreshed_state t latched current =
    if latched
    then OrderState.trader_error
    else if t.all_terminal
    then OrderState.finished
    else if not (state_code t.best_progress_status == state_code OrderState.not_set)
    then t.best_progress_status
    else current

unfoldable pub refreshed_parent : Totals → Bool → OrderEntry → OrderEntry
refreshed_parent t latched parent =
    let r = parent.request in
    record parent {
      request = record r {
        volume_traded = t.total_volume_traded;
        volume_remain =
            if ltb 0 r.volume_entrust && ltb r.volume_entrust t.total_volume_remain
            then r.volume_entrust
            else t.total_volume_remain;
        dvalue_traded = t.total_dvalue_traded;
        dfee_executed = t.total_fee;
        dprice_traded =
            if ltb 0 t.total_volume_traded
            then t.total_dvalue_traded / t.total_volume_traded
            else r.dprice_traded;
        order_state = refreshed_state t latched r.order_state;
      };
      last_update_ns = t.latest_update_ns;
    }

-- The writes, if some child was a new order.
unfoldable pub apply_totals : ℕ → ℕ → Totals → OrderBook → OrderBook
apply_totals parent_id slot t b =
    let latched = contains parent_id b.split_parent_error_latched in
    if t.new_child_count == 0
    then b
    else notify slot parent_refreshed (store slot (refreshed_parent t latched (b.orders slot)) b)

unfoldable pub refresh_parent_from_children : ℕ → OrderBook → OrderBook
refresh_parent_from_children parent_id b =
    if is_managed_parent parent_id b then b else elim (find_slot parent_id b) [
      | none ↦ b
      | some slot ↦ elim (lookup parent_id b.parent_to_children) [
        | none ↦ b
        | some children ↦
            apply_totals parent_id slot (sum_children b children (initial_totals (b.orders slot))) b
      ]
    ]
