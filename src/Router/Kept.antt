-- ===== src/Router/Kept.antt =====
-- What the writes of the router keep, its calls keep.
use account_services.Base.{
  ℕ, Bool, true, false, Option, option_keeps, if_keeps, List, list_keeps, [], ◌∷◌, ◌==◌, u32_max,
}
use account_services.Types.{OrderState, is_cancel}
use account_services.Request.{OrderRequest}
use account_services.Layout.{DownstreamShm}
use account_services.Pool.{OrdersShm, OrderSlotState, OrderSlotSource}
use account_services.Book.State.{OrderEntry, get_children}
use account_services.Book.Orders.{add_order}
use account_services.Router.{
  OrderRouter, RouterStats, Callback, on_book, set_state, set_stage, count_received, count_sent,
  count_rejected, count_queue_full, allocate_internal_order_id, push_downstream, send_to_downstream,
  create_internal_order_slot, send_order, add_and_send, cancel_order, cancel_child, cancel_request,
  live_child, CancelFlags, child_cancel_id, no_flags, cancel_children, cancel_family, route_cancel,
  route_new, route_order, submit_internal_order,
}

-- A property that every write of the router to its state keeps.
pub record IsKept (callback : Callback) (P : OrderRouter → Type 0) : Type 0 where
  pub updates :
      (now k : ℕ) (st : OrderState) (r : OrderRouter) → P r → P (set_state callback now k st r)
  pub adds :
      (now : ℕ) (e : OrderEntry) (r : OrderRouter)
      → P r
      → P (on_book callback (add_order now e) r).1
  pub sends :
      (down : Option DownstreamShm) (r : OrderRouter) → P r → P (record r { downstream_shm = down })
  pub writes : (shm : Option OrdersShm) (r : OrderRouter) → P r → P (record r { orders_shm = shm })
  pub counts : (stats : RouterStats) (r : OrderRouter) → P r → P (record r { stats = stats })
  pub allocates : (r : OrderRouter) → P r → P (allocate_internal_order_id r).1

abbrev pub Leaves : {A : Type 0} → (OrderRouter → Type 0) → A × OrderRouter → Type 0
Leaves P s = P s.1

module _ (callback : Callback) (P : OrderRouter → Type 0) (keeps : IsKept callback P) where
  set_stage_keeps :
      (now index : ℕ) (stage : OrderSlotState) (r : OrderRouter)
      → P r
      → P (set_stage now index stage r)
  unfolding set_stage
  set_stage_keeps now index stage r v = keeps.writes _ r v

  slot_keeps :
      (now : ℕ) (request : OrderRequest) (stage : OrderSlotState) (source : OrderSlotSource)
      (r : OrderRouter)
      → P r
      → P (create_internal_order_slot now request stage source r).1
  unfolding create_internal_order_slot
  slot_keeps now request stage source r v =
      option_keeps (Leaves P) r.orders_shm v (λ shm. keeps.writes _ r v)

  push_keeps :
      (now index : ℕ) (down : DownstreamShm) (r : OrderRouter)
      → P r
      → P (push_downstream now index down r).1
  unfolding push_downstream
  push_keeps now index down r v =
      if_keeps (Leaves P) _
        (set_stage_keeps now index OrderSlotState.downstream_queued _ (keeps.sends _ r v))
        (set_stage_keeps now index OrderSlotState.queue_push_failed r v)

  send_keeps : (now index : ℕ) (r : OrderRouter) → P r → P (send_to_downstream now index r).1
  unfolding send_to_downstream
  send_keeps now index r v =
      option_keeps (Leaves P) r.downstream_shm v
        (λ down. option_keeps (Leaves P) r.orders_shm v (λ _. push_keeps now index down r v))

  send_order_keeps :
      (now order_id index : ℕ) (r : OrderRouter)
      → P r
      → P (send_order callback now order_id index r).1
  unfolding send_order count_sent count_queue_full
  send_order_keeps now order_id index r v =
      let sent = send_keeps now index r v in
      if_keeps (Leaves P) _
        (keeps.updates now order_id OrderState.trader_submitted _ (keeps.counts _ _ sent))
        (keeps.updates now order_id OrderState.trader_error _ (keeps.counts _ _ sent))

  add_and_send_keeps :
      (now : ℕ) (entry : OrderEntry) (r : OrderRouter)
      → P r
      → P (add_and_send callback now entry r).1
  unfolding add_and_send count_rejected
  add_and_send_keeps now entry r v =
      let added = keeps.adds now entry r v in
      if_keeps (Leaves P) _
        (send_order_keeps now entry.request.internal_order_id entry.shm_order_index _ added)
        (keeps.counts _ _
          (set_stage_keeps now entry.shm_order_index OrderSlotState.queue_push_failed _ added))

  cancel_order_keeps :
      (now orig_id cancel_id time : ℕ) (r : OrderRouter)
      → P r
      → P (cancel_order callback now orig_id cancel_id time r).1
  unfolding cancel_order count_rejected
  cancel_order_keeps now orig_id cancel_id time r v =
      let request = cancel_request cancel_id time orig_id in
      let made =
        slot_keeps now request OrderSlotState.upstream_dequeued OrderSlotSource.account_internal r
          v in
      option_keeps (Leaves P) _ (keeps.counts _ _ made) (λ index. add_and_send_keeps now _ _ made)

  cancel_child_keeps :
      (now orig_id child_id cancel_id time : ℕ) (child : OrderEntry) (r : OrderRouter)
      → P r
      → P (cancel_child callback now orig_id child_id cancel_id time child r).1
  unfolding cancel_child count_rejected
  cancel_child_keeps now orig_id child_id cancel_id time child r v =
      let request = cancel_request cancel_id time child_id in
      let made =
        slot_keeps now request OrderSlotState.upstream_dequeued OrderSlotSource.account_internal r
          v in
      option_keeps (Leaves P) _ (keeps.counts _ _ made) (λ index. add_and_send_keeps now _ _ made)

  child_cancel_id_keeps :
      (cancel_id : ℕ) (used : Bool) (r : OrderRouter) → P r → P (child_cancel_id cancel_id used r).1
  unfolding child_cancel_id
  child_cancel_id_keeps cancel_id true r v = keeps.allocates r v
  child_cancel_id_keeps cancel_id false r v = v

  cancel_children_keeps :
      (now orig_id cancel_id time : ℕ) (children : List ℕ) (flags : CancelFlags) (r : OrderRouter)
      → P r
      → P (cancel_children callback now orig_id cancel_id time children flags r).1
  unfolding cancel_children
  cancel_children_keeps now orig_id cancel_id time [] flags r v = v
  cancel_children_keeps now orig_id cancel_id time (child_id ∷ rest) flags r v =
      option_keeps (Leaves P) (live_child child_id r)
        (cancel_children_keeps now orig_id cancel_id time rest flags r v)
        (λ child.
          let id = child_cancel_id cancel_id flags.used_cancel_id r in
          let kept = child_cancel_id_keeps cancel_id flags.used_cancel_id r v in
          cancel_children_keeps now orig_id cancel_id time rest _ _
            (cancel_child_keeps now orig_id child_id id.0 time child id.1 kept))

  cancel_family_keeps :
      (now orig_id cancel_id time : ℕ) (children : List ℕ) (r : OrderRouter)
      → P r
      → P (cancel_family callback now orig_id cancel_id time children r).1
  unfolding cancel_family
  cancel_family_keeps now orig_id cancel_id time children r v =
      let done = cancel_children_keeps now orig_id cancel_id time children no_flags r v in
      if_keeps P _ (keeps.updates now orig_id OrderState.trader_error _ done) done

  pub route_cancel_keeps :
      (now orig_id cancel_id time : ℕ) (r : OrderRouter)
      → P r
      → P (route_cancel callback now orig_id cancel_id time r).1
  unfolding route_cancel count_received
  route_cancel_keeps now orig_id cancel_id time r v =
      let received = keeps.counts _ r v in
      list_keeps (Leaves P) (get_children orig_id r.order_book)
        (cancel_order_keeps now orig_id cancel_id time _ received)
        (λ child children.
          cancel_family_keeps now orig_id cancel_id time (child ∷ children) _ received)

  route_new_keeps :
      (now : ℕ) (entry : OrderEntry) (r : OrderRouter) → P r → P (route_new callback now entry r).1
  unfolding route_new count_received count_rejected
  route_new_keeps now entry r v =
      let received = keeps.counts _ r v in
      let order_id = entry.request.internal_order_id in
      if_keeps (Leaves P) (entry.shm_order_index == u32_max)
        (keeps.updates now order_id OrderState.trader_error _ (keeps.counts _ _ received))
        (send_order_keeps now order_id entry.shm_order_index _ received)

  pub route_order_keeps :
      (now : ℕ) (entry : OrderEntry) (r : OrderRouter)
      → P r
      → P (route_order callback now entry r).1
  unfolding route_order
  route_order_keeps now entry r v =
      if_keeps (Leaves P) (is_cancel entry.request.order_type)
        (route_cancel_keeps now entry.request.orig_internal_order_id entry.request.internal_order_id
          entry.request.md_time_driven r v)
        (route_new_keeps now entry r v)

  pub submit_keeps :
      (now : ℕ) (e : OrderEntry) (r : OrderRouter)
      → P r
      → P (submit_internal_order callback now e r).2
  unfolding submit_internal_order count_received count_rejected
  submit_keeps now e r v =
      let received = keeps.counts _ r v in
      let named =
        if_keeps (Leaves P) (e.request.internal_order_id == 0) (keeps.allocates _ received)
          received in
      let placed = if_keeps (Leaves P) _ (slot_keeps now _ _ _ _ named) named in
      option_keeps (λ (s : Bool × OrderEntry × OrderRouter). P s.2) _ (keeps.counts _ _ placed)
        (λ index. add_and_send_keeps now _ _ placed)
