-- ===== src/Loop/Batches.antt =====
-- EventLoop::process_upstream_orders, process_downstream_responses, update_latency_stats and
-- loop_iteration. `seen n` is what the n-th read of a slot finds in memory that other processes
-- write, and `times n` the times that the n-th order reads. The loops run on fuel, and return none
-- when it runs out. Sleeping and printing are left out.
pub mod Kept
pub mod Ends
pub mod Balance
pub mod Turns
use account_services.Base.{
  ℕ, zero, suc, ◌+◌, ◌-◌, ◌*◌, Bool, true, false, not, ◌&&◌, Option, none, some, add64, mul64, ltb,
  leb, ◌==◌, if◌then◌else◌,
}
use account_services.Ring.{Ring, try_pop, size}
use account_services.Layout.{UpstreamShm, TradesShm, TradeResponse, queue_capacity}
use account_services.Pool.{OrdersShm, OrderSlotState, Snapshot, orders_shm_read_snapshot}
use account_services.Recovery.{Reading}
use account_services.Loop.State.{EventLoop, EventLoopStats, Services, Engine, Times, set_slot_stage}
use account_services.Loop.Orders.{handle_order_request}
use account_services.Loop.Trades.{handle_trade_response, process_pending_archives}

unfoldable pub read_upstream : ℕ → Reading → OrdersShm → Option Snapshot
read_upstream index seen shm = orders_shm_read_snapshot index shm seen.loads seen.slot

abbrev pub batch_limit : ℕ → ℕ
batch_limit poll_batch_size = if poll_batch_size == 0 then 1 else poll_batch_size

abbrev pub shifted : {A : Type 0} → (ℕ → A) → ℕ → A
shifted f i = f (i + 1)

abbrev pub on_some : {A B : Type 0} → (A → B) → Option A → Option B
on_some f none = none
on_some f (some a) = some (f a)

-- What one turn of the loop reads: memory, and the clocks.
pub record Turn : Type 0 where
  pub seen : ℕ → Reading
  pub order_times : ℕ → Times
  pub response_times : ℕ → ℕ
  pub now : ℕ
  pub start : ℕ
  pub finish : ℕ

-- total_latency_ns wraps; the source keeps the extremes and counts the sample.
unfoldable pub update_latency_stats : ℕ → ℕ → EventLoopStats → EventLoopStats
update_latency_stats start finish t =
    let latency = finish - start in
    if ltb finish start then t else record t {
      min_latency_ns = if ltb latency t.min_latency_ns then latency else t.min_latency_ns;
      max_latency_ns = if ltb t.max_latency_ns latency then latency else t.max_latency_ns;
      total_latency_ns = add64 t.total_latency_ns latency;
      latency_samples = add64 t.latency_samples 1;
    }

module _ {E : Type 0} where
  -- try_pop of the upstream queue
  unfoldable pub pop_upstream : UpstreamShm → EventLoop E → Option ℕ × EventLoop E
  pop_upstream up s =
      let (popped, queue) = try_pop queue_capacity up.upstream_order_queue in
      (
        popped,
        record s {
          router = record (s.router) {
            upstream_shm = some (record up { upstream_order_queue = queue });
          };
        },
      )

  unfoldable pub take_from : Option UpstreamShm → EventLoop E → Option ℕ × EventLoop E
  take_from none s = (none, s)
  take_from (some up) s = pop_upstream up s

  unfoldable pub take_upstream : EventLoop E → Option ℕ × EventLoop E
  take_upstream s = take_from s.router.upstream_shm s

  unfoldable pub take_response_from :
      Option TradesShm → EventLoop E → Option TradeResponse × EventLoop E
  take_response_from none s = (none, s)
  take_response_from (some trades) s =
      let (popped, queue) = try_pop queue_capacity trades.response_queue in
      (popped, record s { trades_shm = some (record { response_queue = queue }) })

  unfoldable pub take_response : EventLoop E → Option TradeResponse × EventLoop E
  take_response s = take_response_from s.trades_shm s

  -- The print itself is left out.
  unfoldable pub print_step : ℕ → EventLoop E → EventLoop E
  print_step now s =
      let interval_ns = mul64 s.config.stats_interval_ms 1000000 in
      if ltb 0 s.config.stats_interval_ms
        && (leb s.last_stats_time now && leb interval_ns (now - s.last_stats_time))
      then record s { last_stats_time = now }
      else s

  unfoldable pub snapshot_of : ℕ → Reading → EventLoop E → Option Snapshot
  snapshot_of index seen s = elim s.router.orders_shm [
    | none ↦ none
    | some shm ↦ read_upstream index seen shm
  ]

  -- A number of handled orders, with the statistics that tell of it.
  unfoldable pub count_orders : ℕ → ℕ × EventLoop E → ℕ × EventLoop E
  count_orders now (processed, s) =
      if ltb 0 processed
      then (
        processed,
        record s {
          stats = record (s.stats) {
            orders_processed = add64 s.stats.orders_processed processed;
            last_order_time = now;
          };
        },
      )
      else (processed, s)

  unfoldable pub count_responses : ℕ → ℕ × EventLoop E → ℕ × EventLoop E
  count_responses now (processed, s) =
      if ltb 0 processed
      then (
        processed,
        record s {
          stats = record (s.stats) {
            responses_processed = add64 s.stats.responses_processed processed;
            last_response_time = now;
          };
        },
      )
      else (processed, s)

module _ {E : Type 0} (services : Services E) where
  -- An order that was read
  unfoldable pub handle_upstream : Times → ℕ → Snapshot → EventLoop E → EventLoop E
  handle_upstream t index snapshot s =
      handle_order_request services t index snapshot.request
        (set_slot_stage t.now index OrderSlotState.upstream_dequeued s)

  -- The loop of process_upstream_orders: the number of orders that it handles. A slot that cannot be
  -- read is passed over and not counted.
  unfoldable pub process_orders :
      ℕ → (ℕ → Reading) → (ℕ → Times) → ℕ → ℕ → EventLoop E → Option (ℕ × EventLoop E)
  process_orders zero seen times limit processed s = none
  process_orders (suc fuel) seen times limit processed s =
      if ltb processed limit
      then elim (take_upstream s).0 [
        | none ↦ some (processed, s)
        | some index ↦ elim (snapshot_of index (seen 0) s) [
          | none ↦
              process_orders fuel (shifted seen) (shifted times) limit processed (take_upstream s).1
          | some snapshot ↦
              process_orders fuel (shifted seen) (shifted times) limit (processed + 1)
                (handle_upstream (times 0) index snapshot (take_upstream s).1)
        ]
      ]
      else some (processed, s)

  unfoldable pub process_responses : ℕ → (ℕ → ℕ) → ℕ → ℕ → EventLoop E → Option (ℕ × EventLoop E)
  process_responses zero now limit processed s = none
  process_responses (suc fuel) now limit processed s =
      if ltb processed limit
      then elim (take_response s).0 [
        | none ↦ some (processed, s)
        | some response ↦
            process_responses fuel (shifted now) limit (processed + 1)
              (handle_trade_response services (now 0) response (take_response s).1)
      ]
      else some (processed, s)

  -- Without one of the two memories nothing is taken.
  unfoldable pub process_upstream_orders :
      ℕ → (ℕ → Reading) → (ℕ → Times) → ℕ → EventLoop E → Option (ℕ × EventLoop E)
  process_upstream_orders fuel seen times now s = elim s.router.upstream_shm [
    | none ↦ some (0, s)
    | some _ ↦ elim s.router.orders_shm [
      | none ↦ some (0, s)
      | some _ ↦
          on_some (count_orders now)
            (process_orders fuel seen times (batch_limit s.config.poll_batch_size) 0 s)
    ]
  ]

  unfoldable pub process_downstream_responses :
      ℕ → (ℕ → ℕ) → ℕ → EventLoop E → Option (ℕ × EventLoop E)
  process_downstream_responses fuel times now s = elim s.trades_shm [
    | none ↦ some (0, s)
    | some _ ↦
        on_some (count_responses now)
          (process_responses fuel times (batch_limit s.config.poll_batch_size) 0 s)
  ]

  unfoldable pub tick_engine : ℕ → EventLoop E → EventLoop E
  tick_engine now s = elim s.execution_engine [
    | none ↦ s
    | some engine ↦
        let (engine', router) = services.engine.tick now (engine, s.router) in
        record s { execution_engine = some engine'; router = router }
  ]

  abbrev pub with_stats : (EventLoopStats → EventLoopStats) → EventLoop E → EventLoop E
  with_stats f s = record s { stats = f s.stats }

  unfoldable pub archive_step : ℕ → EventLoop E → EventLoop E
  archive_step now s =
      if s.config.archive_terminal_orders then process_pending_archives now s else s

  -- The idle turns, the time of the last print, and the latency, after what the turn has handled.
  unfoldable pub finish_turn : Turn → ℕ → ℕ → EventLoop E → EventLoop E
  finish_turn turn orders responses s =
      let idle =
        if (orders == 0) && (responses == 0)
        then with_stats (λ t. record t { idle_iterations = add64 t.idle_iterations 1 }) s
        else s in
      with_stats (update_latency_stats turn.start turn.finish) (print_step turn.finish idle)

  unfoldable pub after_responses : Turn → ℕ → Option (ℕ × EventLoop E) → Option (EventLoop E)
  after_responses turn orders none = none
  after_responses turn orders (some (responses, s)) =
      some (finish_turn turn orders responses (archive_step turn.now (tick_engine turn.now s)))

  unfoldable pub after_orders : ℕ → Turn → Option (ℕ × EventLoop E) → Option (EventLoop E)
  after_orders fuel turn none = none
  after_orders fuel turn (some (orders, s)) =
      after_responses turn orders (process_downstream_responses fuel turn.response_times turn.now s)

  unfoldable pub loop_iteration : ℕ → Turn → EventLoop E → Option (EventLoop E)
  loop_iteration fuel turn s =
      let counted =
        with_stats (λ t. record t { total_iterations = add64 t.total_iterations 1 }) s in
      after_orders fuel turn
        (process_upstream_orders fuel turn.seen turn.order_times turn.now counted)
