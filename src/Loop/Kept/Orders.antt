-- ===== src/Loop/Kept/Orders.antt =====
-- EventLoop::handle_order_request.
use account_services.Base.{ℕ, ◌≡◌, refl, not, ◌==◌, some, option_keeps, if_keeps}
use account_services.Types.{OrderState, RiskResult, is_new}
use account_services.Request.{OrderRequest}
use account_services.Pool.{OrderSlotState}
use account_services.Risk.Rules.{passed}
use account_services.Risk.Manager.{RiskManager, check_order}
use account_services.Book.State.{OrderEntry, find_slot}
use account_services.Book.Orders.{add_order}
use account_services.Router.{on_book, allocate_internal_order_id, route_order}
use account_services.Router.Kept.{route_order_keeps}
use account_services.Loop.State.{
  EventLoop, Services, Times, on_order_book_changed, book_of, write_entry,
}
use account_services.Loop.Funds.{entry_at, reserve_order_resources}
use account_services.Loop.Orders.{
  identified, requested_entry, sync_slot, refuse_request, numbered, reject_order, fail_order,
  route_request, start_managed, place_request, record_result, check_request, accept_request,
  handle_order_request,
}
use account_services.Loop.Kept.{Property, Keeps, Holds, HoldsAfter}
use account_services.Loop.Kept.Funds.{reserve_keeps, release_keeps, state_keeps, stage_keeps}

module _ {E : Type 0} (services : Services E) (P : Property) (keeps : Keeps services P) where
  sync_keeps :
      (now index : ℕ) (request : OrderRequest) (s : EventLoop E)
      → Holds P s
      → Holds P (sync_slot now index request s)
  unfolding sync_slot Holds
  sync_keeps now index request s v =
      ((keeps.writes s.trades_shm s.positions).routes now).writes _ s.router v

  refuse_keeps :
      (now index : ℕ) (request : OrderRequest) (s : EventLoop E)
      → Holds P s
      → Holds P (refuse_request now index request s)
  unfolding refuse_request
  refuse_keeps now index request s v =
      stage_keeps services P keeps now index _ _ (sync_keeps now index _ s v)

  allocated_keeps :
      (now : ℕ) (s : EventLoop E)
      → Holds P s
      → Holds P (record s { router = (allocate_internal_order_id s.router).1 })
  unfolding Holds
  allocated_keeps now s v =
      ((keeps.writes s.trades_shm s.positions).routes now).allocates s.router v

  numbered_keeps :
      (now index : ℕ) (request : OrderRequest) (s : EventLoop E)
      → Holds P s
      → HoldsAfter P (numbered now index request s)
  unfolding numbered
  numbered_keeps now index request s v =
      if_keeps (HoldsAfter P) (request.internal_order_id == 0)
        (sync_keeps now index _ _ (allocated_keeps now s v)) v

  reject_keeps :
      (now id index : ℕ) (s : EventLoop E) → Holds P s → Holds P (reject_order now id index s)
  unfolding reject_order
  reject_keeps now id index s v =
      stage_keeps services P keeps now index _ _ (state_keeps services P keeps now id _ s v)

  fail_keeps :
      (now id index : ℕ) (st : OrderState) (s : EventLoop E)
      → Holds P s
      → Holds P (fail_order now id index st s)
  unfolding fail_order
  fail_keeps now id index st s v =
      stage_keeps services P keeps now index _ _ (state_keeps services P keeps now id st s v)

  routed_keeps :
      (now : ℕ) (e : OrderEntry) (s : EventLoop E)
      → Holds P s
      → Holds P (record s { router = (route_order (on_order_book_changed now) now e s.router).1 })
  unfolding Holds
  routed_keeps now e s v =
      route_order_keeps (on_order_book_changed now) (P s.trades_shm s.positions)
        ((keeps.writes s.trades_shm s.positions).routes now) now e s.router v

  route_keeps :
      (now id index slot : ℕ) (s : EventLoop E)
      → Holds P s
      → Holds P (route_request now id index slot s)
  unfolding route_request
  route_keeps now id index slot s v =
      let reserved = reserve_order_resources now slot s in
      let kept = reserve_keeps services P keeps now slot s v in
      let routed =
        route_order (on_order_book_changed now) now (entry_at slot reserved.1) reserved.1.router in
      let kept' = routed_keeps now (entry_at slot reserved.1) reserved.1 kept in
      if_keeps (Holds P) (not reserved.0) (reject_keeps now id index _ kept) (
        if_keeps (Holds P) routed.0 kept'
          (fail_keeps now id index _ _ (release_keeps services P keeps now slot _ kept')))

  entry_keeps :
      (slot : ℕ) (write : OrderEntry → OrderEntry) (s : EventLoop E)
      → ((e : OrderEntry) → (write e).request.internal_order_id ≡ e.request.internal_order_id)
      → Holds P s
      → Holds P (write_entry slot write s)
  unfolding write_entry Holds
  entry_keeps slot write s same v =
      (keeps.writes s.trades_shm s.positions).entries slot write s.router same v

  started_keeps :
      (index : ℕ) (request : OrderRequest) (strategy time : ℕ) (engine : E) (s : EventLoop E)
      → Holds P s
      → Holds P (record s {
        execution_engine =
            some (services.engine.start_session index request strategy time (engine, s.router)).1;
        router = (services.engine.start_session index request strategy time (engine, s.router)).2;
      })
  unfolding Holds
  started_keeps index request strategy time engine s v =
      (keeps.writes s.trades_shm s.positions).starts index request strategy time engine s.router v

  managed_keeps :
      (now id index slot : ℕ) (engine : E) (s : EventLoop E)
      → Holds P s
      → Holds P (start_managed services now id index slot engine s)
  unfolding start_managed
  managed_keeps now id index slot engine s v =
      let marked =
        state_keeps services P keeps now id OrderState.trader_pending _
          (entry_keeps slot _ s (λ e. refl) v) in
      let kept = started_keeps index _ _ _ engine _ marked in
      if_keeps (Holds P) _ kept (fail_keeps now id index _ _ kept)

  place_keeps :
      (now id index : ℕ) (s : EventLoop E)
      → Holds P s
      → Holds P (place_request services now id index s)
  unfolding place_request
  place_keeps now id index s v = option_keeps (Holds P) (find_slot id (book_of s)) v (λ slot.
      option_keeps (Holds P) s.execution_engine (route_keeps now id index slot s v) (λ engine.
        if_keeps (Holds P) (services.engine.should_manage (entry_at slot s).request engine)
          (managed_keeps now id index slot engine s v) (route_keeps now id index slot s v)))

  result_keeps :
      (id : ℕ) (code : RiskResult) (s : EventLoop E)
      → Holds P s
      → Holds P (record_result services id code s)
  unfolding record_result
  result_keeps id code s v =
      option_keeps (Holds P) (find_slot id (book_of s)) v
        (λ slot. entry_keeps slot _ s (λ e. refl) v)

  risk_keeps : (m : RiskManager) (s : EventLoop E) → Holds P s → Holds P (record s { risk = m })
  unfolding Holds
  risk_keeps m s v = v

  check_keeps :
      (t : Times) (request : OrderRequest) (index : ℕ) (s : EventLoop E)
      → Holds P s
      → Holds P (check_request services t request index s)
  unfolding check_request
  check_keeps t request index s v =
      let id = request.internal_order_id in
      let risk = check_order t.clock t.now s.positions request s.risk in
      let pending = state_keeps services P keeps t.now id OrderState.risk_controller_pending s v in
      let checked = result_keeps id risk.0 _ (risk_keeps risk.1 _ pending) in
      if_keeps (Holds P) (is_new request.order_type)
        (if_keeps (Holds P) (passed risk.0)
          (place_keeps t.now id index _
            (state_keeps services P keeps t.now id OrderState.risk_controller_accepted _ checked))
          (reject_keeps t.now id index _ checked))
        (place_keeps t.now id index _
          (state_keeps services P keeps t.now id OrderState.risk_controller_accepted _ pending))

  added_keeps :
      (now : ℕ) (e : OrderEntry) (s : EventLoop E)
      → Holds P s
      → Holds P
          (record s { router = (on_book (on_order_book_changed now) (add_order now e) s.router).1 })
  unfolding Holds
  added_keeps now e s v = ((keeps.writes s.trades_shm s.positions).routes now).adds now e s.router v

  accept_keeps :
      (t : Times) (index : ℕ) (request : OrderRequest) (s : EventLoop E)
      → Holds P s
      → Holds P (accept_request services t index request s)
  unfolding accept_request
  accept_keeps t index request s v =
      let e = requested_entry t.now index request in
      let kept = added_keeps t.now e s v in
      if_keeps (Holds P) (on_book (on_order_book_changed t.now) (add_order t.now e) s.router).0
        (check_keeps t request index _ kept)
        (stage_keeps services P keeps t.now index OrderSlotState.queue_push_failed _ kept)

  pub handle_order_request_keeps :
      (t : Times) (index : ℕ) (request : OrderRequest) (s : EventLoop E)
      → Holds P s
      → Holds P (handle_order_request services t index request s)
  unfolding handle_order_request
  handle_order_request_keeps t index request s v =
      option_keeps (Holds P) (identified request) (refuse_keeps t.now index request s v)
        (λ keyed. accept_keeps t index _ _ (numbered_keeps t.now index keyed s v))
