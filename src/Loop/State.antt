-- ===== src/Loop/State.antt =====
-- The state of EventLoop, its statistics and the book's change callback. The book, the router and
-- the shared memory that the loop and the router both point to stand once, in the router. `E` is
-- the state of the execution engine, which may be absent.
use account_services.Base.{ℕ, Bool, true, false, ◌||◌, Option, Map, u32_max, ◌==◌, if◌then◌else◌}
use account_services.Types.{OrderState, TradeSide, is_terminal_state, state_code}
use account_services.Request.{OrderRequest}
use account_services.Layout.{TradesShm, TradeResponse}
use account_services.Pool.{
  OrderSlotState, OrderSlotSource, orders_shm_write_order, orders_shm_sync_order,
}
use account_services.Portfolio.State.{PositionManager}
use account_services.Risk.Manager.{RiskManager}
use account_services.Book.State.{OrderEntry, OrderBook, OrderBookEvent, store}
use account_services.Router.{OrderRouter, Callback, set_state, set_stage, on_book}

pub record EventLoopStats : Type 0 where
  pub total_iterations : ℕ
  pub orders_processed : ℕ
  pub responses_processed : ℕ
  pub idle_iterations : ℕ
  pub start_time : ℕ
  pub last_order_time : ℕ
  pub last_response_time : ℕ
  pub min_latency_ns : ℕ
  pub max_latency_ns : ℕ
  pub total_latency_ns : ℕ
  pub latency_samples : ℕ

abbrev pub blank_loop_stats : EventLoopStats
blank_loop_stats = record {
  total_iterations = 0;
  orders_processed = 0;
  responses_processed = 0;
  idle_iterations = 0;
  start_time = 0;
  last_order_time = 0;
  last_response_time = 0;
  min_latency_ns = 18446744073709551615;
  max_latency_ns = 0;
  total_latency_ns = 0;
  latency_samples = 0;
}

-- The settings that the loop reads, but for those of the processor and of sleeping.
pub record EventLoopConfig : Type 0 where
  pub poll_batch_size : ℕ
  pub stats_interval_ms : ℕ
  pub archive_terminal_orders : Bool
  pub terminal_archive_delay_ms : ℕ

pub record EventLoop (E : Type 0) : Type 0 where
  pub config : EventLoopConfig
  pub router : OrderRouter
  pub trades_shm : Option TradesShm
  pub positions : PositionManager
  pub risk : RiskManager
  pub execution_engine : Option E
  pub pending_archive_deadlines_ns : Map ℕ ℕ
  pub stats : EventLoopStats
  pub last_stats_time : ℕ

pub data SessionStartResult : Type 0 where
  started unsupported invalid_config duplicate market_data_unavailable unsplittable :
      SessionStartResult

-- What the loop calls of the execution engine, with the router that the engine drives. A response
-- reads the book, which has the parent of its order, and writes the engine alone.
pub record Engine (E : Type 0) : Type 0 where
  pub should_manage : OrderRequest → E → Bool
  pub has_active_strategy : E → Bool
  pub start_session :
      ℕ → OrderRequest → ℕ → ℕ → E × OrderRouter → SessionStartResult × E × OrderRouter
  pub tick : ℕ → E × OrderRouter → E × OrderRouter
  pub on_trade_response : TradeResponse → OrderBook → E → E

-- What other components give to the loop: the engine, and the fee of the fee model, which computes
-- with doubles.
pub record Services (E : Type 0) : Type 0 where
  pub engine : Engine E
  pub calculate_fee : TradeSide → ℕ → ℕ

-- The times that one order reads: the wall clock, and the clock of each risk rule.
pub record Times : Type 0 where
  pub now : ℕ
  pub clock : ℕ → ℕ

abbrev pub is_archived : OrderBookEvent → Bool
is_archived OrderBookEvent.archived = true
is_archived _ = false

-- is_terminal_state contains the state of a rejection by the risk rules, so that the second test
-- of the source never holds; it is written out all the same.
unfoldable pub on_order_book_changed : ℕ → Callback
on_order_book_changed now entry event shm =
    let status = entry.request.order_state in
    if entry.shm_order_index == u32_max
    then shm
    else if is_archived event || is_terminal_state status
    then (orders_shm_write_order now entry.shm_order_index entry.request OrderSlotState.terminal
        OrderSlotSource.account_internal now shm).1
    else if state_code status == state_code OrderState.risk_controller_rejected
    then (orders_shm_write_order now entry.shm_order_index entry.request
        OrderSlotState.risk_rejected OrderSlotSource.account_internal now shm).1
    else (orders_shm_sync_order now entry.shm_order_index entry.request now shm).1

-- A write through a pointer to an entry of the book.
unfoldable pub write_order : ℕ → (OrderEntry → OrderEntry) → OrderRouter → OrderRouter
write_order slot write r = record r {
  order_book = store slot (write (r.order_book.orders slot)) r.order_book;
}

module _ {E : Type 0} where
  abbrev pub book_of : EventLoop E → OrderBook
  book_of s = s.router.order_book

  -- A call of the book by the loop.
  unfoldable pub call_book :
      {A : Type 0} → ℕ → (OrderBook → A × OrderBook) → EventLoop E → EventLoop E
  call_book now call s = record s { router = (on_book (on_order_book_changed now) call s.router).1 }

  unfoldable pub set_order_state : ℕ → ℕ → OrderState → EventLoop E → EventLoop E
  set_order_state now order_id st s = record s {
    router = set_state (on_order_book_changed now) now order_id st s.router;
  }

  unfoldable pub set_slot_stage : ℕ → ℕ → OrderSlotState → EventLoop E → EventLoop E
  set_slot_stage now index stage s = record s { router = set_stage now index stage s.router }

  unfoldable pub write_entry : ℕ → (OrderEntry → OrderEntry) → EventLoop E → EventLoop E
  write_entry slot write s = record s { router = write_order slot write s.router }
