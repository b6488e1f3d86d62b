-- ===== src/Router/Sent.antt =====
-- What reaches the queue of the trading process.
use account_services.Base.{
  ℕ, ◌≡◌, refl, ap, sym, ◌∙◌, subst, inl, inr, Bool, true, false, ◌||◌, Bool-cases, Option, none,
  some, option_keeps, list_keeps, if_keeps, List, [], ◌∷◌, ◌++◌, append-nil, append_assoc, ◌==◌,
  u32_max,
}
use account_services.Types.{is_cancel}
use account_services.Ring.Queue.{IsRing, queue}
use account_services.Ring.Fifo.{try_push_lem}
use account_services.Layout.{DownstreamShm, queue_capacity}
use account_services.Request.{OrderRequest}
use account_services.Pool.{OrderSlotState, OrderSlotSource}
use account_services.Book.State.{OrderEntry, get_children, next_order_id}
use account_services.Book.Orders.{add_order}
use account_services.Router.{
  OrderRouter, Callback, on_book, set_state, set_stage, count_received, count_sent, count_rejected,
  count_queue_full, allocate_internal_order_id, push_downstream, send_to_downstream,
  create_internal_order_slot, send_order, add_and_send, cancel_request, cancel_entry, cancel_order,
  cancel_child, live_child, CancelFlags, no_flags, child_cancel_id, cancel_children, cancel_family,
  route_cancel, route_new, route_order,
}

-- The indexes that wait for the trading process, oldest first.
abbrev pub queue_in : Option DownstreamShm → List ℕ
queue_in none = []
queue_in (some down) = queue queue_capacity down.order_queue

abbrev pub HasRing : Option DownstreamShm → Type 0
HasRing none = Unit
HasRing (some down) = IsRing queue_capacity down.order_queue

abbrev pub any : {A : Type 0} → List A → Bool
any [] = false
any (x ∷ xs) = true

-- The queue has grown at its end by what was sent, and the result says if that is anything.
abbrev pub Extends : Option DownstreamShm → Bool → Option DownstreamShm → Type 0
Extends down result down' =
    (sent : List ℕ) × HasRing down' × (queue_in down' ≡ queue_in down ++ sent) × (result ≡ any sent)

-- What a call returns with the router that it leaves.
abbrev Queues : Option DownstreamShm → Bool × OrderRouter → Type 0
Queues down s = Extends down s.0 s.1.downstream_shm

pub nothing-Extends : (down : Option DownstreamShm) → HasRing down → Extends down false down
nothing-Extends down v = ([], v, sym (append-nil (queue_in down)), refl)

any-append : (xs ys : List ℕ) → any (xs ++ ys) ≡ any ys || any xs
any-append [] [] = refl
any-append [] (y ∷ ys) = refl
any-append (x ∷ xs) [] = refl
any-append (x ∷ xs) (y ∷ ys) = refl

pub then-Extends :
    (down down' down'' : Option DownstreamShm) (first second : Bool)
    → Extends down first down'
    → Extends down' second down''
    → Extends down (second || first) down''
then-Extends down down' down'' first second (xs, _, grown, told) (ys, v, grown', told') = (
  xs ++ ys,
  v,
  grown' ∙ ap (λ (q : List ℕ). q ++ ys) grown ∙ append_assoc (queue_in down) xs ys,
  ap (λ (t : Bool). t || first) told'
      ∙ ap (λ (t : Bool). any ys || t) told
      ∙ sym (any-append xs ys),
)

pub ring_of-Extends :
    (down down' : Option DownstreamShm) (result : Bool) → Extends down result down' → HasRing down'
ring_of-Extends down down' result (_, v, _, _) = v

push-Extends :
    (now index : ℕ) (down : DownstreamShm) (r : OrderRouter)
    → r.downstream_shm ≡ some down
    → HasRing (some down)
    → Queues (some down) (push_downstream now index down r)
unfolding push_downstream set_stage
push-Extends now index down r here v = elim (try_push_lem queue_capacity down.order_queue v index) [
  | inl (_, pushed, v', grown) ↦ rw pushed (index ∷ [], v', grown, refl)
  | inr (_, full) ↦
      rw full (subst (Extends (some down) false) (sym here) (nothing-Extends (some down) v))
]

pub send-Extends :
    (now index : ℕ) (r : OrderRouter)
    → HasRing r.downstream_shm
    → Queues r.downstream_shm (send_to_downstream now index r)
unfolding send_to_downstream
send-Extends now index r v = by_pointer r.downstream_shm refl v
  where
    by_pointer :
        (down : Option DownstreamShm)
        → r.downstream_shm ≡ down
        → HasRing down
        → Queues down (elim down [
          | none ↦ (false, r)
          | some there ↦ elim r.orders_shm [
            | none ↦ (false, r)
            | some _ ↦ push_downstream now index there r
          ]
        ])
    by_pointer none h v = subst (Extends none false) (sym h) (nothing-Extends none v)
    by_pointer (some down) h v =
        option_keeps (Queues (some down)) r.orders_shm
          (subst (Extends (some down) false) (sym h) (nothing-Extends (some down) v))
          (λ _. push-Extends now index down r h v)

pub slot_down :
    (now : ℕ) (request : OrderRequest) (stage : OrderSlotState) (source : OrderSlotSource)
    (r : OrderRouter)
    → (create_internal_order_slot now request stage source r).1.downstream_shm ≡ r.downstream_shm
unfolding create_internal_order_slot
slot_down now request stage source r =
    option_keeps (λ (s : Option ℕ × OrderRouter). s.1.downstream_shm ≡ r.downstream_shm)
      r.orders_shm refl (λ _. refl)

pub allocate_down :
    (r : OrderRouter) → (allocate_internal_order_id r).1.downstream_shm ≡ r.downstream_shm
unfolding allocate_internal_order_id next_order_id
allocate_down r =
    option_keeps (λ (s : ℕ × OrderRouter). s.1.downstream_shm ≡ r.downstream_shm) r.upstream_shm
      refl (λ _. refl)

child_cancel_id_down :
    (cancel_id : ℕ) (used : Bool) (r : OrderRouter)
    → (child_cancel_id cancel_id used r).1.downstream_shm ≡ r.downstream_shm
unfolding child_cancel_id
child_cancel_id_down cancel_id true r = allocate_down r
child_cancel_id_down cancel_id false r = refl

module _ (callback : Callback) where
  pub send_order-Extends :
      (now order_id index : ℕ) (r : OrderRouter)
      → HasRing r.downstream_shm
      → Queues r.downstream_shm (send_order callback now order_id index r)
  unfolding send_order set_state on_book count_sent count_queue_full
  send_order-Extends now order_id index r v =
      let kept = send-Extends now index r v in
      let after = (send_to_downstream now index r).1.downstream_shm in
      elim (Bool-cases (send_to_downstream now index r).0) [
        | inl sent ↦ rw sent (subst (λ t. Extends r.downstream_shm t after) sent kept)
        | inr failed ↦ rw failed (subst (λ t. Extends r.downstream_shm t after) failed kept)
      ]

  pub add_and_send-Extends :
      (now : ℕ) (entry : OrderEntry) (r : OrderRouter)
      → HasRing r.downstream_shm
      → Queues r.downstream_shm (add_and_send callback now entry r)
  unfolding add_and_send count_rejected set_stage on_book
  add_and_send-Extends now entry r v =
      if_keeps (Queues r.downstream_shm) _
        (send_order-Extends now entry.request.internal_order_id entry.shm_order_index
          (on_book callback (add_order now entry) r).1 v)
        (nothing-Extends r.downstream_shm v)

  -- The end of a call that has taken a slot, or has not.
  slotted-Extends :
      (now : ℕ) (down : Option DownstreamShm) (entry : ℕ → OrderEntry) (slot : Option ℕ)
      (r : OrderRouter)
      → HasRing down
      → r.downstream_shm ≡ down
      → Queues down (elim slot [
        | none ↦ (false, count_rejected r)
        | some index ↦ add_and_send callback now (entry index) r
      ])
  unfolding count_rejected
  slotted-Extends now down entry slot r v same =
      option_keeps (Queues down) slot
        (subst (Extends down false) (sym same) (nothing-Extends down v))
        (λ index.
          subst (λ d. Queues d (add_and_send callback now (entry index) r)) same
            (add_and_send-Extends now (entry index) r (subst HasRing (sym same) v)))

  cancel_order-Extends :
      (now orig_id cancel_id time : ℕ) (r : OrderRouter)
      → HasRing r.downstream_shm
      → Queues r.downstream_shm (cancel_order callback now orig_id cancel_id time r)
  unfolding cancel_order
  cancel_order-Extends now orig_id cancel_id time r v =
      let request = cancel_request cancel_id time orig_id in
      slotted-Extends now r.downstream_shm (λ index. cancel_entry now request index) _ _ v
        (slot_down now request OrderSlotState.upstream_dequeued OrderSlotSource.account_internal r)

  cancel_child-Extends :
      (now orig_id child_id cancel_id time : ℕ) (child : OrderEntry) (r : OrderRouter)
      → HasRing r.downstream_shm
      → Queues r.downstream_shm (cancel_child callback now orig_id child_id cancel_id time child r)
  unfolding cancel_child
  cancel_child-Extends now orig_id child_id cancel_id time child r v =
      let request = cancel_request cancel_id time child_id in
      slotted-Extends now r.downstream_shm
        (λ index. record (cancel_entry now request index) {
          strategy_id = child.strategy_id;
          is_split_child = true;
          parent_order_id = orig_id;
        })
        _ _ v
        (slot_down now request OrderSlotState.upstream_dequeued OrderSlotSource.account_internal r)

  cancel_children-Extends :
      (now orig_id cancel_id time : ℕ) (children : List ℕ) (flags : CancelFlags)
      (down : Option DownstreamShm) (r : OrderRouter)
      → Extends down flags.any_sent r.downstream_shm
      → Extends down
          (cancel_children callback now orig_id cancel_id time children flags r).0.any_sent
          (cancel_children callback now orig_id cancel_id time children flags r).1.downstream_shm
  unfolding cancel_children
  cancel_children-Extends now orig_id cancel_id time [] flags down r done = done
  cancel_children-Extends now orig_id cancel_id time (child_id ∷ rest) flags down r done =
      option_keeps (λ (s : CancelFlags × OrderRouter). Extends down s.0.any_sent s.1.downstream_shm)
        (live_child child_id r)
        (cancel_children-Extends now orig_id cancel_id time rest flags down r done)
        (λ child.
          let id = child_cancel_id cancel_id flags.used_cancel_id r in
          let same = child_cancel_id_down cancel_id flags.used_cancel_id r in
          let before = subst (Extends down flags.any_sent) (sym same) done in
          let ring = ring_of-Extends down id.1.downstream_shm flags.any_sent before in
          let sent = cancel_child callback now orig_id child_id id.0 time child id.1 in
          cancel_children-Extends now orig_id cancel_id time rest _ down sent.1 (
            then-Extends down id.1.downstream_shm sent.1.downstream_shm flags.any_sent sent.0 before
              (cancel_child-Extends now orig_id child_id id.0 time child id.1 ring)))

  cancel_family-Extends :
      (now orig_id cancel_id time : ℕ) (children : List ℕ) (r : OrderRouter)
      → HasRing r.downstream_shm
      → Queues r.downstream_shm (cancel_family callback now orig_id cancel_id time children r)
  unfolding cancel_family set_state on_book
  cancel_family-Extends now orig_id cancel_id time children r v =
      let done = cancel_children callback now orig_id cancel_id time children no_flags r in
      let kept =
        cancel_children-Extends now orig_id cancel_id time children no_flags r.downstream_shm r
          (nothing-Extends r.downstream_shm v) in
      if_keeps (λ (s : OrderRouter). Extends r.downstream_shm done.0.any_sent s.downstream_shm)
        done.0.any_failed kept kept

  route_cancel-Extends :
      (now orig_id cancel_id time : ℕ) (r : OrderRouter)
      → HasRing r.downstream_shm
      → Queues r.downstream_shm (route_cancel callback now orig_id cancel_id time r)
  unfolding route_cancel count_received
  route_cancel-Extends now orig_id cancel_id time r v =
      list_keeps (Queues r.downstream_shm) (get_children orig_id r.order_book)
        (cancel_order-Extends now orig_id cancel_id time (count_received now r) v)
        (λ child children.
          cancel_family-Extends now orig_id cancel_id time (child ∷ children) (count_received now r)
            v)

  route_new-Extends :
      (now : ℕ) (entry : OrderEntry) (r : OrderRouter)
      → HasRing r.downstream_shm
      → Queues r.downstream_shm (route_new callback now entry r)
  unfolding route_new count_received count_rejected set_state on_book
  route_new-Extends now entry r v =
      if_keeps (Queues r.downstream_shm) (entry.shm_order_index == u32_max)
        (nothing-Extends r.downstream_shm v)
        (send_order-Extends now entry.request.internal_order_id entry.shm_order_index
          (count_received now r) v)

  -- With a queue of the trading process in order, or none, routing an order or a cancel only adds to
  -- the end of that queue, leaves it in order, and returns true exactly when it added something.
  pub route_order-Extends :
      (now : ℕ) (entry : OrderEntry) (r : OrderRouter)
      → HasRing r.downstream_shm
      → Extends r.downstream_shm
          (route_order callback now entry r).0
          (route_order callback now entry r).1.downstream_shm
  unfolding route_order
  route_order-Extends now entry r v =
      if_keeps (Queues r.downstream_shm) (is_cancel entry.request.order_type)
        (route_cancel-Extends now entry.request.orig_internal_order_id
          entry.request.internal_order_id entry.request.md_time_driven r v)
        (route_new-Extends now entry r v)
