-- ===== src/Loop/Kept.antt =====
-- What the loop's writes to the router's state keep, its handlers keep.
pub mod Funds
pub mod Orders
pub mod Trades
use account_services.Base.{
  ℕ, ◌-◌, ◌≡◌, refl, Bool, true, false, not, ◌&&◌, ◌||◌, ◌==◌, if◌then◌else◌, leb, ltb, Option,
  none, some, option_keeps, if_keeps, List, [], ◌∷◌,
}
use account_services.Types.{OrderState, RiskResult, is_new}
use account_services.Request.{OrderRequest}
use account_services.Layout.{TradeResponse}
use account_services.Pool.{OrderSlotState}
use account_services.Portfolio.State.{PositionManager}
use account_services.Risk.Rules.{passed}
use account_services.Risk.Manager.{RiskManager, check_order}
use account_services.Portfolio.Fund.{freeze_fund, unfreeze_fund, deduct_fund, apply_buy_trade_fund}
use account_services.Layout.{TradesShm}
use account_services.Portfolio.State.{PositionManager}
use account_services.Portfolio.Fund.{freeze_fund, unfreeze_fund}
use account_services.Book.State.{OrderEntry, find_slot, find_order}
use account_services.Book.Orders.{add_order, archive_order}
use account_services.Book.Updates.{update_trade}
use account_services.Router.{
  OrderRouter, on_book, set_stage, set_state, allocate_internal_order_id, route_order,
}
use account_services.Router.Kept.{IsKept, Leaves, route_order_keeps}
use account_services.Loop.State.{
  EventLoop, Services, Engine, Times, on_order_book_changed, book_of, call_book, set_order_state,
  set_slot_stage, write_order, write_entry,
}
use account_services.Loop.Funds.{
  with_frozen, entry_at, is_new_buy, reserved_total, try_total_with_fee, reserve_order_resources,
  release_order_resources, settle_buy_trade_fund,
}
use account_services.Loop.Orders.{
  identified, requested_entry, sync_slot, refuse_request, numbered, reject_order, fail_order,
  route_request, start_managed, place_request, record_result, check_request, accept_request,
  handle_order_request,
}
use account_services.Loop.Trades.{
  trade_fund, settle_trade, apply_trade, release_original, release_ended, forget_deadline,
  schedule_archive, tell_engine, handle_trade_response, archive_due, process_pending_archives,
  due_order_ids,
}

-- A property of the router's state that every write of the loop and its engine keeps.
pub record IsKeptByLoop {E : Type 0} (services : Services E) (P : OrderRouter → Type 0)
    : Type 0 where
  pub routes : (now : ℕ) → IsKept (on_order_book_changed now) P
  pub entries :
      (slot : ℕ) (write : OrderEntry → OrderEntry) (r : OrderRouter)
      → ((e : OrderEntry) → (write e).request.internal_order_id ≡ e.request.internal_order_id)
      → P r
      → P (write_order slot write r)
  pub trades :
      (now k vol px val fee : ℕ) (r : OrderRouter)
      → P r
      → P (on_book (on_order_book_changed now) (update_trade now k vol px val fee) r).1
  pub archives :
      (now k : ℕ) (r : OrderRouter)
      → P r
      → P (on_book (on_order_book_changed now) (archive_order k) r).1
  pub starts :
      (index : ℕ) (request : OrderRequest) (strategy time : ℕ) (engine : E) (r : OrderRouter)
      → P r
      → P (services.engine.start_session index request strategy time (engine, r)).2
  pub ticks :
      (now : ℕ) (engine : E) (r : OrderRouter) → P r → P (services.engine.tick now (engine, r)).1

-- A property of the queue of responses, which no handler changes, the positions and the router.
abbrev pub Property : Type 1
Property = Option TradesShm → PositionManager → OrderRouter → Type 0

-- What the handling of orders writes keeps it.
pub record Keeps {E : Type 0} (services : Services E) (P : Property) : Type 0 where
  pub writes : (t : Option TradesShm) (m : PositionManager) → IsKeptByLoop services (P t m)
  pub freezes :
      (now amount : ℕ) (t : Option TradesShm) (m : PositionManager) (r : OrderRouter)
      → P t m r
      → P t (freeze_fund now amount m).1 r
  pub unfreezes :
      (now amount : ℕ) (t : Option TradesShm) (m : PositionManager) (r : OrderRouter)
      → P t m r
      → P t (unfreeze_fund now amount m).1 r

-- The positions make no difference to it.
abbrev pub Ignores : Property → Type 0
Ignores P = (t : Option TradesShm) (m m' : PositionManager) (r : OrderRouter) → P t m r → P t m' r

-- A property without the positions
pub steady :
    {E : Type 0} (services : Services E) (R : Option TradesShm → OrderRouter → Type 0)
    → ((t : Option TradesShm) → IsKeptByLoop services (R t))
    → Keeps services (λ t m. R t)
steady services R keeps = record {
  writes = λ t m. keeps t;
  freezes = λ now amount t m r v. v;
  unfreezes = λ now amount t m r v. v;
}

module _ {E : Type 0} (P : Property) where
  unfoldable pub Holds : EventLoop E → Type 0
  Holds s = P s.trades_shm s.positions s.router

  abbrev pub HoldsAfter : {A : Type 0} → A × EventLoop E → Type 0
  HoldsAfter t = Holds t.1
