-- ===== src/Router/Tests.antt =====
-- A router over a book of four slots, a pool of four slots and an empty queue, and its theorems at it.
use account_services.Base.{◌≡◌, refl, true, inl, none, some, [], ◌∷◌, lookup, insert, nat_eq, arith}
use account_services.Types.{OrderType, OrderState, is_new, is_cancel}
use account_services.Request.{blank_request}
use account_services.Layout.{DownstreamShm}
use account_services.Pool.{OrdersShm, OrderSlotState, OrderSlotSource, orders_shm_update_stage}
use account_services.Book.State.{
  OrderEntry, blank_entry, new_book, find_order, ensure_next_order_id_at_least,
  saturated_next_order_id,
}
use account_services.Book.Orders.{
  stored_entry, place, index_broker, index_security, index_child, add_to_slot, add_order,
}
use account_services.Book.Valid.{BookCall, book_step, book_run, book_run-IsValid}
use account_services.Router.{OrderRouter, Callback, blank_stats, route_order}
use account_services.Router.Sent.{Extends, route_order-Extends}
use account_services.Router.Routed.{can_send, IsRouted, route_order_new}

abbrev order : OrderEntry
order = record blank_entry {
  request = record blank_request {
    internal_order_id = 7;
    order_type = OrderType.new;
    volume_entrust = 100;
    order_state = OrderState.risk_controller_accepted;
  };
  shm_order_index = 0;
}

abbrev cancel : OrderEntry
cancel = record blank_entry {
  request = record blank_request {
    internal_order_id = 8;
    order_type = OrderType.cancel;
    orig_internal_order_id = 7;
  };
  shm_order_index = 1;
}

abbrev pool : OrdersShm
pool = record {
  capacity = 4;
  last_update = 5;
  next_index = 2;
  full_reject_count = 0;
  slots = λ i. record {
    seq = 2;
    body = record {
      request = order.request;
      stage = OrderSlotState.upstream_dequeued;
      source = OrderSlotSource.user;
      last_update_ns = 5;
    };
  };
}

abbrev idle : DownstreamShm
idle = record { last_update = 0; order_queue = record { head = 0; tail = 0; buffer = λ i. 0 } }

abbrev router : OrderRouter
router = record {
  order_book = new_book 4;
  downstream_shm = some idle;
  orders_shm = some pool;
  upstream_shm = none;
  stats = blank_stats;
}

abbrev marks_terminal : Callback
marks_terminal entry event shm =
    (orders_shm_update_stage 9 entry.shm_order_index OrderSlotState.terminal 9 shm).1

route_order-Extends_example :
    Extends
      (some idle)
      (route_order marks_terminal 10 order router).0
      (route_order marks_terminal 10 order router).1.downstream_shm
route_order-Extends_example =
    route_order-Extends marks_terminal 10 order router
      (record { head_in = omega arith; tail_in = omega arith; words = omega arith })

-- The order is in the book when it is routed.
abbrev holding : OrderRouter
holding = record router { order_book = book_run 4 (BookCall.adds 5 order ∷ []) (new_book 4) }

held_order :
    (find_order 7 holding.order_book ≡ some (stored_entry 5 order))
    × (lookup 7 holding.order_book.child_to_parent ≡ none)
unfolding book_run book_step add_order add_to_slot place index_broker index_security index_child
    stored_entry new_book lookup insert ensure_next_order_id_at_least saturated_next_order_id is_new
    find_order
held_order = (refl, refl)

route_order_new_example :
    IsRouted marks_terminal 4 10 7
      (stored_entry 5 order)
      true
      (can_send holding)
      blank_stats
      (route_order marks_terminal 10 order holding)
unfolding is_cancel
route_order_new_example =
    route_order_new marks_terminal 4 10 7 order holding refl refl
      (record { head_in = omega arith; tail_in = omega arith; words = omega arith })
      (book_run-IsValid 4 (BookCall.adds 5 order ∷ [])) held_order.0
      (inl (λ h. ground (arith, h, held_order.1)))
