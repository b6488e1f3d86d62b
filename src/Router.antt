-- ===== src/Router.antt =====
-- src/order/order_router.cpp: from the book and the order slots to the queue of the trading process.
-- The section's parameter is what the book's change callback does to the order slots; it is applied
-- after each call of the book, in the order of the callbacks. `now` stands for every value of
-- now_ns() in one call.
mod Tests
pub mod Kept
pub mod Sent
pub mod Routed
use account_services.Base.{
  ℕ, ◌+◌, Bool, true, false, not, ◌&&◌, ◌||◌, Option, none, some, List, [], ◌∷◌, add32, add64,
  u32_max, ◌==◌, if◌then◌else◌,
}
use account_services.Types.{OrderType, OrderState, RiskResult, is_new, is_cancel}
use account_services.Request.{OrderRequest, blank_request, init_cancel}
use account_services.Ring.{Ring, try_push}
use account_services.Layout.{UpstreamShm, DownstreamShm, queue_capacity}
use account_services.Pool.{
  OrdersShm, OrderSlotState, OrderSlotSource, orders_shm_update_stage, orders_shm_append,
}
use account_services.Recovery.{
  Candidate, Candidates, Reading, recover_downstream_active_orders_from_shm,
}
use account_services.Book.State.{
  OrderEntry, blank_entry, OrderBook, OrderBookEvent, is_terminal, find_order, get_children,
  next_order_id,
}
use account_services.Book.Orders.{add_order}
use account_services.Book.Updates.{update_state}

pub record RouterStats : Type 0 where
  pub orders_received : ℕ
  pub orders_sent : ℕ
  pub orders_rejected : ℕ
  pub queue_full_count : ℕ
  pub last_order_time : ℕ

abbrev pub blank_stats : RouterStats
blank_stats = record {
  orders_received = 0;
  orders_sent = 0;
  orders_rejected = 0;
  queue_full_count = 0;
  last_order_time = 0;
}

-- A pointer that may be null is an option. The book stands here with what its callback writes to.
pub record OrderRouter : Type 0 where
  pub order_book : OrderBook
  pub downstream_shm : Option DownstreamShm
  pub orders_shm : Option OrdersShm
  pub upstream_shm : Option UpstreamShm
  pub stats : RouterStats

abbrev pub Callback : Type 0
Callback = OrderEntry → OrderBookEvent → OrdersShm → OrdersShm

abbrev pub on_option : {A : Type 0} → (A → A) → Option A → Option A
on_option f none = none
on_option f (some a) = some (f a)

-- The calls of a callback, listed newest first, made oldest first.
unfoldable pub call_all : Callback → List (OrderEntry × OrderBookEvent) → OrdersShm → OrdersShm
call_all callback [] shm = shm
call_all callback ((entry, event) ∷ earlier) shm =
    callback entry event (call_all callback earlier shm)

-- A call of the book, and then of its callback.
unfoldable pub on_book :
    {A : Type 0} → Callback → (OrderBook → A × OrderBook) → OrderRouter → A × OrderRouter
on_book callback call r =
    let (result, book) = call (record r.order_book { notified = [] }) in
    (
      result,
      record r {
        order_book = record book { notified = [] };
        orders_shm = on_option (call_all callback book.notified) r.orders_shm;
      },
    )

unfoldable pub set_state : Callback → ℕ → ℕ → OrderState → OrderRouter → OrderRouter
set_state callback now order_id new_state r =
    (on_book callback (update_state now order_id new_state) r).1

unfoldable pub set_stage : ℕ → ℕ → OrderSlotState → OrderRouter → OrderRouter
set_stage now index stage r = record r {
  orders_shm = on_option (λ shm. (orders_shm_update_stage now index stage now shm).1) r.orders_shm;
}

-- ++stats_.orders_received and the others
unfoldable pub count_received : ℕ → OrderRouter → OrderRouter
count_received now r = record r {
  stats = record (r.stats) {
    orders_received = add64 r.stats.orders_received 1;
    last_order_time = now;
  };
}

unfoldable pub count_sent : OrderRouter → OrderRouter
count_sent r = record r { stats = record (r.stats) { orders_sent = add64 r.stats.orders_sent 1 } }

unfoldable pub count_rejected : OrderRouter → OrderRouter
count_rejected r = record r {
  stats = record (r.stats) { orders_rejected = add64 r.stats.orders_rejected 1 };
}

unfoldable pub count_queue_full : OrderRouter → OrderRouter
count_queue_full r = record r {
  stats = record (r.stats) {
    orders_rejected = add64 r.stats.orders_rejected 1;
    queue_full_count = add64 r.stats.queue_full_count 1;
  };
}

unfoldable pub allocate_internal_order_id : OrderRouter → ℕ × OrderRouter
allocate_internal_order_id r = elim r.upstream_shm [
  | some up ↦ (
    up.next_order_id,
    record r { upstream_shm = some (record up { next_order_id = add32 up.next_order_id 1 }) },
  )
  | none ↦
      ((next_order_id r.order_book).0, record r { order_book = (next_order_id r.order_book).1 })
]

-- A push on the queue that is there, with the stage that tells of it.
unfoldable pub push_downstream : ℕ → ℕ → DownstreamShm → OrderRouter → Bool × OrderRouter
push_downstream now index down r =
    let (pushed, queue) = try_push queue_capacity index down.order_queue in
    if pushed
    then (
      true,
      set_stage now index OrderSlotState.downstream_queued
          (record r { downstream_shm = some (record { last_update = now; order_queue = queue }) }),
    )
    else (false, set_stage now index OrderSlotState.queue_push_failed r)

unfoldable pub send_to_downstream : ℕ → ℕ → OrderRouter → Bool × OrderRouter
send_to_downstream now index r = elim r.downstream_shm [
  | none ↦ (false, r)
  | some down ↦ elim r.orders_shm [ none ↦ (false, r) | some _ ↦ push_downstream now index down r ]
]

-- The index, if the slot was made.
unfoldable pub create_internal_order_slot :
    ℕ → OrderRequest → OrderSlotState → OrderSlotSource → OrderRouter → Option ℕ × OrderRouter
create_internal_order_slot now request stage source r = elim r.orders_shm [
  | none ↦ (none, r)
  | some shm ↦
      let (index, shm') = orders_shm_append now request stage source now shm in
      (index, record r { orders_shm = some shm' })
]

-- The cancel of an order. The entry of a child's cancel has its parent and its strategy.
abbrev pub cancel_request : ℕ → ℕ → ℕ → OrderRequest
cancel_request cancel_id time orig_id = record (init_cancel cancel_id time orig_id blank_request) {
  order_state = OrderState.trader_pending;
}

abbrev pub cancel_entry : ℕ → OrderRequest → ℕ → OrderEntry
cancel_entry now request index = record blank_entry {
  request = request;
  submit_time_ns = now;
  last_update_ns = now;
  shm_order_index = index;
}

-- A child that is there, a new order, and has not ended
abbrev pub live_child : ℕ → OrderRouter → Option OrderEntry
live_child child_id r = elim (find_order child_id r.order_book) [
  | none ↦ none
  | some child ↦
      if is_new child.request.order_type && not (is_terminal child) then some child else none
]

-- The locals of the loop over the children.
pub record CancelFlags : Type 0 where
  pub any_sent : Bool
  pub any_failed : Bool
  pub used_cancel_id : Bool

-- The id of the first cancel is the caller's; the others are new.
unfoldable pub child_cancel_id : ℕ → Bool → OrderRouter → ℕ × OrderRouter
child_cancel_id cancel_id used r = if used then allocate_internal_order_id r else (cancel_id, r)

abbrev pub no_flags : CancelFlags
no_flags = record { any_sent = false; any_failed = false; used_cancel_id = false }

-- What submit_internal_order writes to the entry before it takes a slot.
unfoldable pub submitted_entry : ℕ → ℕ → OrderEntry → OrderEntry
submitted_entry now order_id e =
    let submit_time_ns = if e.submit_time_ns == 0 then now else e.submit_time_ns in
    record e {
      request = record (e.request) {
        internal_order_id = order_id;
        order_state = OrderState.trader_pending;
      };
      submit_time_ns = submit_time_ns;
      last_update_ns = if e.last_update_ns == 0 then submit_time_ns else e.last_update_ns;
    }

module _ (callback : Callback) where
  -- The end that route_order, route_cancel and submit_internal_order share: the push, and the state
  -- and the counters that tell of it.
  unfoldable pub send_order : ℕ → ℕ → ℕ → OrderRouter → Bool × OrderRouter
  send_order now order_id index r =
      let (sent, r') = send_to_downstream now index r in
      if sent
      then (true, set_state callback now order_id OrderState.trader_submitted (count_sent r'))
      else (false, set_state callback now order_id OrderState.trader_error (count_queue_full r'))

  -- The book takes the order, or its slot is marked as failed; then it is sent.
  unfoldable pub add_and_send : ℕ → OrderEntry → OrderRouter → Bool × OrderRouter
  add_and_send now entry r =
      let (added, r') = on_book callback (add_order now entry) r in
      if added then send_order now entry.request.internal_order_id entry.shm_order_index r' else (
        false,
        count_rejected (set_stage now entry.shm_order_index OrderSlotState.queue_push_failed r'),
      )

  unfoldable pub cancel_order : ℕ → ℕ → ℕ → ℕ → OrderRouter → Bool × OrderRouter
  cancel_order now orig_id cancel_id time r =
      let request = cancel_request cancel_id time orig_id in
      let (slot, r') =
        create_internal_order_slot now request OrderSlotState.upstream_dequeued
          OrderSlotSource.account_internal r in
      elim slot [
        | none ↦ (false, count_rejected r')
        | some index ↦ add_and_send now (cancel_entry now request index) r'
      ]

  unfoldable pub cancel_child : ℕ → ℕ → ℕ → ℕ → ℕ → OrderEntry → OrderRouter → Bool × OrderRouter
  cancel_child now orig_id child_id cancel_id time child r =
      let request = cancel_request cancel_id time child_id in
      let (slot, r') =
        create_internal_order_slot now request OrderSlotState.upstream_dequeued
          OrderSlotSource.account_internal r in
      elim slot [
        | none ↦ (false, count_rejected r')
        | some index ↦
            add_and_send now
              (record (cancel_entry now request index) {
                strategy_id = child.strategy_id;
                is_split_child = true;
                parent_order_id = orig_id;
              })
              r'
      ]

  unfoldable pub cancel_children :
      ℕ → ℕ → ℕ → ℕ → List ℕ → CancelFlags → OrderRouter → CancelFlags × OrderRouter
  cancel_children now orig_id cancel_id time [] flags r = (flags, r)
  cancel_children now orig_id cancel_id time (child_id ∷ rest) flags r =
      elim (live_child child_id r) [
        | none ↦ cancel_children now orig_id cancel_id time rest flags r
        | some child ↦
            let (id, r') = child_cancel_id cancel_id flags.used_cancel_id r in
            let (sent, r'') = cancel_child now orig_id child_id id time child r' in
            cancel_children now orig_id cancel_id time rest
              (record {
                any_sent = sent || flags.any_sent;
                any_failed = not sent || flags.any_failed;
                used_cancel_id = true;
              })
              r''
      ]

  unfoldable pub cancel_family : ℕ → ℕ → ℕ → ℕ → List ℕ → OrderRouter → Bool × OrderRouter
  cancel_family now orig_id cancel_id time children r =
      let (flags, r') = cancel_children now orig_id cancel_id time children no_flags r in
      (
        flags.any_sent,
        if flags.any_failed then set_state callback now orig_id OrderState.trader_error r' else r',
      )

  unfoldable pub route_cancel : ℕ → ℕ → ℕ → ℕ → OrderRouter → Bool × OrderRouter
  route_cancel now orig_id cancel_id time r =
      let r' = count_received now r in
      elim (get_children orig_id r.order_book) [
        | [] ↦ cancel_order now orig_id cancel_id time r'
        | child ∷ children ↦ cancel_family now orig_id cancel_id time (child ∷ children) r'
      ]

  unfoldable pub route_new : ℕ → OrderEntry → OrderRouter → Bool × OrderRouter
  route_new now entry r =
      let r' = count_received now r in
      if entry.shm_order_index == u32_max
      then (
        false,
        set_state callback now entry.request.internal_order_id OrderState.trader_error
            (count_rejected r'),
      )
      else send_order now entry.request.internal_order_id entry.shm_order_index r'

  unfoldable pub route_order : ℕ → OrderEntry → OrderRouter → Bool × OrderRouter
  route_order now entry r =
      if is_cancel entry.request.order_type
      then route_cancel now entry.request.orig_internal_order_id entry.request.internal_order_id
          entry.request.md_time_driven r
      else route_new now entry r

  -- The number of orders that were sent. A null entry is none.
  unfoldable pub route_orders : ℕ → List (Option OrderEntry) → OrderRouter → ℕ × OrderRouter
  route_orders now [] r = (0, r)
  route_orders now (none ∷ entries) r = route_orders now entries r
  route_orders now (some entry ∷ entries) r =
      let (sent, r') = route_order now entry r in
      let (count, r'') = route_orders now entries r' in (if sent then count + 1 else count, r'')

  -- The result, and the entry with what is written to it.
  unfoldable pub submit_internal_order :
      ℕ → OrderEntry → OrderRouter → Bool × OrderEntry × OrderRouter
  submit_internal_order now e r =
      let (id, r') =
        (if e.request.internal_order_id == 0
          then allocate_internal_order_id (count_received now r)
          else (e.request.internal_order_id, count_received now r)) in
      let entry = submitted_entry now id e in
      let (slot, r'') =
        (if entry.shm_order_index == u32_max
          then create_internal_order_slot now entry.request OrderSlotState.upstream_dequeued
              OrderSlotSource.account_internal r'
          else (some entry.shm_order_index, r')) in
      elim slot [
        | none ↦ (false, entry, count_rejected r'')
        | some index ↦
            let placed = record entry { shm_order_index = index } in
            let (sent, r''') = add_and_send now placed r'' in (sent, placed, r''')
      ]

unfoldable pub reset_stats : OrderRouter → OrderRouter
reset_stats r = record r { stats = blank_stats }

unfoldable pub recover_downstream_active_orders :
    Callback
    → ℕ
    → (Candidates → List (ℕ × Candidate))
    → (ℕ → ℕ → Reading)
    → Option UpstreamShm
    → OrderRouter
    → Bool × OrderRouter
recover_downstream_active_orders callback now arrange seen upstream_shm r =
    on_book callback
      (recover_downstream_active_orders_from_shm now arrange r.orders_shm seen upstream_shm) r
