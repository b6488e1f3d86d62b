-- ===== src/Loop/Orders.antt =====
-- EventLoop::handle_order_request. The request is the local copy that the caller read from the slot.
use account_services.Base.{
  ℕ, Bool, true, false, not, ◌&&◌, Option, none, some, empty, ◌==◌, if◌then◌else◌,
}
use account_services.Types.{OrderState, RiskResult, is_new}
use account_services.Identity.{build_internal_security_id}
use account_services.Request.{OrderRequest}
use account_services.Pool.{OrderSlotState, orders_shm_sync_order}
use account_services.Risk.Rules.{passed}
use account_services.Risk.Manager.{check_order}
use account_services.Book.State.{OrderEntry, blank_entry, find_slot}
use account_services.Book.Orders.{add_order}
use account_services.Router.{on_option, on_book, allocate_internal_order_id, route_order}
use account_services.Loop.State.{
  EventLoop, Services, Times, SessionStartResult, on_order_book_changed, book_of, set_order_state,
  set_slot_stage, write_entry,
}
use account_services.Loop.Funds.{
  entry_at, prepare_order_estimate, reserve_order_resources, release_order_resources,
}

-- The internal key of a new order that comes without one; none if it cannot be built.
unfoldable pub identified : OrderRequest → Option OrderRequest
identified r =
    if is_new r.order_type && (empty r.internal_security_id && not (empty r.security_id))
    then (elim (build_internal_security_id r.market r.security_id) [
      | none ↦ none
      | some key ↦ some (record r { internal_security_id = key })
    ])
    else some r

-- What handle_order_request puts into the book.
unfoldable pub requested_entry : ℕ → ℕ → OrderRequest → OrderEntry
requested_entry now index request = record blank_entry {
  request = request;
  submit_time_ns = now;
  last_update_ns = now;
  shm_order_index = index;
}

abbrev pub is_started : SessionStartResult → Bool
is_started SessionStartResult.started = true
is_started _ = false

abbrev pub failure_state : SessionStartResult → OrderState
failure_state SessionStartResult.unsupported = OrderState.trader_rejected
failure_state SessionStartResult.market_data_unavailable = OrderState.trader_rejected
failure_state SessionStartResult.unsplittable = OrderState.trader_rejected
failure_state _ = OrderState.trader_error

module _ {E : Type 0} where
  unfoldable pub sync_slot : ℕ → ℕ → OrderRequest → EventLoop E → EventLoop E
  sync_slot now index request s = record s {
    router = record (s.router) {
      orders_shm =
          on_option (λ shm. (orders_shm_sync_order now index request now shm).1)
            s.router.orders_shm;
    };
  }

  -- A request whose key cannot be built.
  unfoldable pub refuse_request : ℕ → ℕ → OrderRequest → EventLoop E → EventLoop E
  refuse_request now index request s =
      set_slot_stage now index OrderSlotState.queue_push_failed
        (sync_slot now index (record request { order_state = OrderState.trader_error }) s)

  -- A request without an id takes the next one, and its slot shows it.
  unfoldable pub numbered : ℕ → ℕ → OrderRequest → EventLoop E → OrderRequest × EventLoop E
  numbered now index request s =
      let (id, router) = allocate_internal_order_id s.router in
      let request' = record request { internal_order_id = id } in
      if request.internal_order_id == 0
      then (request', sync_slot now index request' (record s { router = router }))
      else (request, s)

  unfoldable pub reject_order : ℕ → ℕ → ℕ → EventLoop E → EventLoop E
  reject_order now order_id index s =
      set_slot_stage now index OrderSlotState.risk_rejected
        (set_order_state now order_id OrderState.risk_controller_rejected s)

  unfoldable pub fail_order : ℕ → ℕ → ℕ → OrderState → EventLoop E → EventLoop E
  fail_order now order_id index st s =
      set_slot_stage now index OrderSlotState.queue_push_failed (set_order_state now order_id st s)

  -- The end of a request that the loop routes itself.
  unfoldable pub route_request : ℕ → ℕ → ℕ → ℕ → EventLoop E → EventLoop E
  route_request now order_id index slot s =
      let (reserved, s') = reserve_order_resources now slot s in
      let (routed, router) =
        route_order (on_order_book_changed now) now (entry_at slot s') s'.router in
      let s'' = record s' { router = router } in
      if not reserved
      then reject_order now order_id index s'
      else if routed
      then s''
      else fail_order now order_id index OrderState.trader_error
          (release_order_resources now slot s'')

module _ {E : Type 0} (services : Services E) where
  -- The end of a request that the execution engine takes over.
  unfoldable pub start_managed : ℕ → ℕ → ℕ → ℕ → E → EventLoop E → EventLoop E
  start_managed now order_id index slot engine s =
      let claimed = if services.engine.has_active_strategy engine then 1 else 0 in
      let marked = set_order_state now order_id OrderState.trader_pending (
        write_entry slot
          (λ e. record e { request = record (e.request) { active_strategy_claimed = claimed } })
          s) in
      let e = entry_at slot marked in
      let (result, engine', router) =
        services.engine.start_session index e.request e.strategy_id e.submit_time_ns
          (engine, marked.router) in
      let s' = record marked { execution_engine = some engine'; router = router } in
      if is_started result then s' else fail_order now order_id index (failure_state result) s'

  unfoldable pub place_request : ℕ → ℕ → ℕ → EventLoop E → EventLoop E
  place_request now order_id index s = elim (find_slot order_id (book_of s)) [
    | none ↦ s
    | some slot ↦ elim s.execution_engine [
      | none ↦ route_request now order_id index slot s
      | some engine ↦
          if services.engine.should_manage (entry_at slot s).request engine
          then start_managed now order_id index slot engine s
          else route_request now order_id index slot s
    ]
  ]

  -- active->risk_result = risk_result.code
  unfoldable pub record_result : ℕ → RiskResult → EventLoop E → EventLoop E
  record_result order_id code s = elim (find_slot order_id (book_of s)) [
    | none ↦ s
    | some slot ↦ write_entry slot (λ e. record e { risk_result = code }) s
  ]

  unfoldable pub check_request : Times → OrderRequest → ℕ → EventLoop E → EventLoop E
  check_request t request index s =
      let id = request.internal_order_id in
      let pending = set_order_state t.now id OrderState.risk_controller_pending s in
      let (code, risk) = check_order t.clock t.now s.positions request s.risk in
      let checked = record_result id code (record pending { risk = risk }) in
      if is_new request.order_type
      then (if passed code
          then place_request t.now id index
              (set_order_state t.now id OrderState.risk_controller_accepted checked)
          else reject_order t.now id index checked)
      else place_request t.now id index
          (set_order_state t.now id OrderState.risk_controller_accepted pending)

  unfoldable pub accept_request : Times → ℕ → OrderRequest → EventLoop E → EventLoop E
  accept_request t index request s =
      let (added, router) =
        on_book (on_order_book_changed t.now)
          (add_order t.now (requested_entry t.now index request)) s.router in
      let s' = record s { router = router } in
      if added
      then check_request t request index s'
      else set_slot_stage t.now index OrderSlotState.queue_push_failed s'

  unfoldable pub handle_order_request : Times → ℕ → OrderRequest → EventLoop E → EventLoop E
  handle_order_request t index request s = elim (identified request) [
    | none ↦ refuse_request t.now index request s
    | some keyed ↦
        let (request', s') = numbered t.now index keyed s in
        accept_request t index (prepare_order_estimate services.calculate_fee request') s'
  ]
