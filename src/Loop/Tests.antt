-- ===== src/Loop/Tests.antt =====
-- A loop over a book of four slots with one order that waits, an engine that submits a child for
-- every order that it takes over, and the loop's theorems at them.
use account_services.Base.{
  ap, ℕ, ◌+◌, ◌<◌, refl, true, false, not, ◌==◌, none, some, [], lookup, nat_eq, ◌-◌, length, arith,
}
use account_services.Ring.Cells.{cells}
use account_services.Types.{OrderType, TradeSide}
use account_services.Request.{OrderRequest, blank_request}
use account_services.Layout.{UpstreamShm}
use account_services.Pool.{OrdersShm, OrderSlotState, OrderSlotSource}
use account_services.Risk.Manager.{RiskConfig}
use account_services.Risk.Manager.Registry.{new_manager}
use account_services.Recovery.{Reading}
use account_services.Book.State.{OrderEntry, blank_entry, new_book}
use account_services.Router.{OrderRouter, blank_stats, submit_internal_order}
use account_services.Router.Kept.{submit_keeps}
use account_services.Loop.State.{
  EventLoop, Engine, Services, SessionStartResult, blank_loop_stats, on_order_book_changed,
}
use account_services.Loop.Laws.{EngineLaws, HasRingOf, HasRingOf-IsKept, upstream_ring}
use account_services.Portfolio.State.{FundInfo, store_fund_info, clear_position}
use account_services.Portfolio.Fund.Worth.{IsWorth, get_fund_info_at}
use account_services.Loop.Batches.Balance.{EndsWorth, process_upstream_orders-IsWorth}
use account_services.Loop.Batches.{process_upstream_orders, Turn, process_orders}
use account_services.Loop.Batches.Ends.{Ends, waiting, IsQueued, process_orders-Ends}

abbrev child_of : OrderRequest → OrderEntry
child_of r = record blank_entry {
  request = record r { internal_order_id = 0; volume_entrust = 100 };
  is_split_child = true;
  parent_order_id = r.internal_order_id;
}

-- The engine's state counts its sessions; a response to a child ends one.
abbrev submitting : Engine ℕ
submitting = record {
  should_manage = λ r sessions. not (r.target_volume == 0);
  has_active_strategy = λ sessions. false;
  start_session = λ index r strategy time (sessions, router).
      let (_, _, router') =
        submit_internal_order (on_order_book_changed time) time (child_of r) router in
      (SessionStartResult.started, sessions + 1, router');
  tick = λ now s. s;
  on_trade_response = λ response book sessions.
      elim (lookup response.internal_order_id book.child_to_parent) [
        | none ↦ sessions
        | some parent ↦ sessions - 1
      ];
}

abbrev services : Services ℕ
services = record { engine = submitting; calculate_fee = λ side value. 5 }

submitting-EngineLaws : EngineLaws submitting
submitting-EngineLaws = record {
  starts_queue = λ index r strategy time e router.
      submit_keeps (on_order_book_changed time) (HasRingOf (upstream_ring router))
        (HasRingOf-IsKept (upstream_ring router) (on_order_book_changed time)) time (child_of r)
        router refl;
  ticks_queue = λ now e router. refl;
}

abbrev order : OrderRequest
order = record blank_request {
  order_type = OrderType.new;
  trade_side = TradeSide.buy;
  volume_entrust = 100;
  dprice_entrust = 20;
  target_volume = 200;
}

abbrev pool : OrdersShm
pool = record {
  capacity = 4;
  last_update = 5;
  next_index = 1;
  full_reject_count = 0;
  slots = λ i. record {
    seq = 2;
    body = record {
      request = order;
      stage = OrderSlotState.upstream_queued;
      source = OrderSlotSource.user;
      last_update_ns = 5;
    };
  };
}

abbrev one_order : UpstreamShm
one_order = record {
  next_order_id = 9;
  upstream_order_queue = record { head = 1; tail = 0; buffer = λ i. 0 };
}

abbrev router : OrderRouter
router = record {
  order_book = new_book 4;
  downstream_shm =
      some
        (record { last_update = 0; order_queue = record { head = 0; tail = 0; buffer = λ i. 0 } });
  orders_shm = some pool;
  upstream_shm = some one_order;
  stats = blank_stats;
}

abbrev limits : RiskConfig
limits = record {
  max_order_value = 5000;
  max_order_volume = 300;
  max_daily_turnover = 0;
  max_orders_per_second = 2;
  enable_price_limit_check = true;
  enable_duplicate_check = true;
  enable_fund_check = false;
  enable_position_check = true;
  duplicate_window_ns = 100000000;
}

abbrev loop : EventLoop ℕ
loop = record {
  config = record {
    poll_batch_size = 8;
    stats_interval_ms = 1000;
    archive_terminal_orders = true;
    terminal_archive_delay_ms = 0;
  };
  router = router;
  trades_shm = none;
  positions = record { shm = none; security_to_row = [] };
  risk = new_manager limits;
  execution_engine = some 0;
  pending_archive_deadlines_ns = [];
  stats = blank_loop_stats;
  last_stats_time = 0;
}

abbrev memory : ℕ → Reading
memory i = record {
  shm = pool;
  loads =
      λ j. record { seq0 = 0; request = 0; stage = 0; source = 0; last_update_ns = 0; seq1 = 0 };
  slot = λ t. pool.slots 0;
}

abbrev turn : Turn
turn = record {
  seen = memory;
  order_times = λ i. record { now = 20 + i; clock = λ j. 20 };
  response_times = λ i. 30;
  now = 40;
  start = 10;
  finish = 50;
}

loop-IsQueued : IsQueued loop
loop-IsQueued = record { head_in = omega arith; tail_in = omega arith; words = omega arith }

loop_waits : length (waiting loop) < 2
unfolding cells
loop_waits = omega arith

process_orders-Ends_example :
    Ends services submitting-EngineLaws 8 0
      (process_orders services 2 memory turn.order_times 8 0 loop)
process_orders-Ends_example =
    process_orders-Ends services submitting-EngineLaws 2 8 0 memory turn.order_times loop
      loop-IsQueued loop_waits

abbrev funded : EventLoop ℕ
funded = record loop {
  positions = record {
    shm = some (record {
      header = record {
        magic = 0;
        version = 4;
        header_size = 64;
        total_size = 1000;
        capacity = 8192;
        init_state = 1;
        create_time = 5;
        last_update = 5;
        id = 1;
      };
      position_count = 0;
      positions = λ row.
          store_fund_info clear_position
            (record { total_asset = 9000; available = 6000; frozen = 1000; market_value = 2000 });
    });
    security_to_row = [];
  };
}

funded-IsWorth : IsWorth 9000 2000 funded.positions
funded-IsWorth =
    let fund = get_fund_info_at funded.positions refl in
    record {
      balanced = rw fund (record { adds_up = refl; fits = omega arith });
      total = ap (λ (f : FundInfo). f.total_asset) fund;
      market = ap (λ (f : FundInfo). f.market_value) fund;
    }

process_upstream_orders-IsWorth_example :
    EndsWorth services submitting-EngineLaws 9000 2000
      (process_upstream_orders services 2 memory turn.order_times 40 funded)
process_upstream_orders-IsWorth_example =
    process_upstream_orders-IsWorth services submitting-EngineLaws 2 9000 2000 40 memory
      turn.order_times funded loop-IsQueued loop_waits funded-IsWorth
