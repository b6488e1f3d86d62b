-- ===== src/Book/Updates.antt =====
-- OrderBook::update_state, update_trade, mark_managed_parent and sync_managed_parent_view. `now` is
-- the value of now_ns(). An operation that returns a bool returns it with the book.
pub mod Cases
pub mod Frame
pub mod Trade
use account_services.Base.{
  ℕ, ◌+◌, ◌-◌, ◌/◌, Bool, true, false, not, ◌&&◌, Option, none, some, insert, lookup, contains,
  nat_eq, update, saturating_add, ltb, leb, ◌==◌, if◌then◌else◌,
}
use account_services.Types.{
  OrderState, state_code, is_terminal_state, PassiveExecutionAlgo, algo_code, ExecutionState,
  execution_code,
}
use account_services.Request.{OrderRequest}
use account_services.Book.State.{
  OrderEntry, OrderBook, OrderBookEvent, status_updated, trade_updated, parent_refreshed, find_slot,
  store, notify, is_managed_parent, has_children,
}
use account_services.Book.Refresh.{refresh_parent_from_children}

-- The parent of a child is refreshed, unless the execution engine manages it.
unfoldable pub refresh_parent_of : ℕ → OrderBook → OrderBook
refresh_parent_of order_id b = elim (lookup order_id b.child_to_parent) [
  | none ↦ b
  | some parent_id ↦
      if is_managed_parent parent_id b then b else refresh_parent_from_children parent_id b
]

-- An error of the parent of a split order stays.
abbrev pub latch_error : ℕ → OrderState → OrderBook → OrderBook
latch_error order_id new_state b =
    if (state_code new_state == state_code OrderState.trader_error)
      && (has_children order_id b && not (is_managed_parent order_id b))
    then record b { split_parent_error_latched = insert order_id tt b.split_parent_error_latched }
    else b

abbrev pub with_state : ℕ → OrderState → OrderEntry → OrderEntry
with_state now new_state e = record e {
  request = record (e.request) { order_state = new_state };
  last_update_ns = now;
}

unfoldable pub update_state : ℕ → ℕ → OrderState → OrderBook → Bool × OrderBook
update_state now order_id new_state b = elim (find_slot order_id b) [
  | none ↦ (false, b)
  | some slot ↦
      let written = store slot (with_state now new_state (b.orders slot)) b in
      (
        true,
        notify slot status_updated
            (refresh_parent_of order_id (latch_error order_id new_state written)),
      )
]

-- The volumes, amounts, price and state of a request after a trade.
unfoldable pub trade_request : ℕ → ℕ → ℕ → ℕ → OrderRequest → OrderRequest
trade_request vol px val fee r =
    let sum = saturating_add r.volume_traded vol in
    let volume_traded =
      if ltb 0 r.volume_entrust && ltb r.volume_entrust sum then r.volume_entrust else sum in
    let volume_remain = if leb r.volume_remain vol then 0 else r.volume_remain - vol in
    let dvalue_traded = saturating_add r.dvalue_traded val in
    record r {
      volume_traded = volume_traded;
      volume_remain = volume_remain;
      dvalue_traded = dvalue_traded;
      dfee_executed = saturating_add r.dfee_executed fee;
      dprice_traded =
          if ltb 0 volume_traded
          then (if ltb 0 dvalue_traded then dvalue_traded / volume_traded else px)
          else r.dprice_traded;
      order_state =
          if (volume_remain == 0) && not (is_terminal_state r.order_state)
          then OrderState.finished
          else r.order_state;
    }

unfoldable pub update_trade : ℕ → ℕ → ℕ → ℕ → ℕ → ℕ → OrderBook → Bool × OrderBook
update_trade now order_id vol px val fee b = elim (find_slot order_id b) [
  | none ↦ (false, b)
  | some slot ↦
      let e = b.orders slot in
      let traded = record e {
        request = trade_request vol px val fee e.request;
        last_update_ns = now;
      } in
      (true, notify slot trade_updated (refresh_parent_of order_id (store slot traded b)))
]

unfoldable pub mark_managed_parent : ℕ → OrderBook → Bool × OrderBook
mark_managed_parent parent_id b = elim (find_slot parent_id b) [
  | none ↦ (false, b)
  | some _ ↦ (true, record b { managed_parent_ids = insert parent_id tt b.managed_parent_ids })
]

pub record ManagedParentView : Type 0 where
  pub execution_algo : PassiveExecutionAlgo
  pub execution_state : ExecutionState
  pub target_volume : ℕ
  pub working_volume : ℕ
  pub schedulable_volume : ℕ
  pub confirmed_traded_volume : ℕ
  pub confirmed_traded_value : ℕ
  pub confirmed_fee : ℕ

abbrev pub next_volume_remain : ManagedParentView → ℕ
next_volume_remain v =
    if leb v.confirmed_traded_volume v.target_volume
    then v.target_volume - v.confirmed_traded_volume
    else 0

abbrev pub next_dprice_traded : ManagedParentView → ℕ
next_dprice_traded v =
    if ltb 0 v.confirmed_traded_volume
    then v.confirmed_traded_value / v.confirmed_traded_volume
    else 0

-- Nothing that the mirror shows differs from the view.
unfoldable pub is_mirrored : ManagedParentView → OrderState → OrderRequest → Bool
is_mirrored v parent_state r =
    (algo_code r.execution_algo == algo_code v.execution_algo)
    && ((execution_code r.execution_state == execution_code v.execution_state)
        && ((r.target_volume == v.target_volume)
            && ((r.working_volume == v.working_volume)
                && ((r.schedulable_volume == v.schedulable_volume)
                    && ((r.volume_entrust == v.target_volume)
                        && ((r.volume_traded == v.confirmed_traded_volume)
                            && ((r.volume_remain == next_volume_remain v)
                                && ((r.dvalue_traded == v.confirmed_traded_value)
                                    && ((r.dfee_executed == v.confirmed_fee)
                                        && ((r.dprice_traded == next_dprice_traded v)
                                            && (state_code r.order_state
                                                == state_code parent_state)))))))))))

unfoldable pub mirror : ManagedParentView → OrderState → OrderRequest → OrderRequest
mirror v parent_state r = record r {
  execution_algo = v.execution_algo;
  execution_state = v.execution_state;
  target_volume = v.target_volume;
  working_volume = v.working_volume;
  schedulable_volume = v.schedulable_volume;
  volume_entrust = v.target_volume;
  volume_traded = v.confirmed_traded_volume;
  volume_remain = next_volume_remain v;
  dvalue_traded = v.confirmed_traded_value;
  dfee_executed = v.confirmed_fee;
  dprice_traded = next_dprice_traded v;
  order_state = parent_state;
}

unfoldable pub sync_managed_parent_view :
    ℕ → ℕ → ManagedParentView → OrderState → OrderBook → Bool × OrderBook
sync_managed_parent_view now parent_id v parent_state b = elim (find_slot parent_id b) [
  | none ↦ (false, b)
  | some slot ↦
      let marked = record b { managed_parent_ids = insert parent_id tt b.managed_parent_ids } in
      let parent = b.orders slot in
      let synced = record parent {
        request = mirror v parent_state parent.request;
        last_update_ns = now;
      } in
      if is_mirrored v parent_state parent.request
      then (true, marked)
      else (true, notify slot parent_refreshed (store slot synced marked))
]
