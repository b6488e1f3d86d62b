-- ===== src/Router/Routed.antt =====
-- What routing a new order does to the order and to the counters.
use account_services.Base.{
  ℕ, ◌+◌, ◌≡◌, refl, sym, ap, ◌∙◌, inl, inr, Bool, true, false, not, ◌&&◌, Bool-cases, Option-cases,
  none, some, [], add64, u32_max, ltb, ◌==◌, length, arith, if◌then◌else◌, subst,
}
use account_services.Types.{OrderState, is_cancel}
use account_services.Ring.Queue.{queue}
use account_services.Ring.Fifo.{try_push_lem}
use account_services.Layout.{DownstreamShm, queue_capacity}
use account_services.Book.State.{OrderEntry, find_order}
use account_services.Book.Slots.{IsValid}
use account_services.Book.Updates.{with_state}
use account_services.Book.Updates.Frame.{IsOutOfReach, find_order-update_state_self}
use account_services.Router.{
  OrderRouter, RouterStats, Callback, on_book, set_state, set_stage, count_received, count_sent,
  count_rejected, count_queue_full, push_downstream, send_to_downstream, send_order, route_new,
  route_order,
}
use account_services.Router.Sent.{HasRing}

-- The memory is there, and the queue has room.
abbrev pub can_send : OrderRouter → Bool
can_send r = elim r.downstream_shm [
  | none ↦ false
  | some down ↦ elim r.orders_shm [
    | none ↦ false
    | some shm ↦ ltb (length (queue queue_capacity down.order_queue) + 1) queue_capacity
  ]
]

-- The counters after an order that has a slot or not, and was sent or not.
abbrev pub counted : ℕ → Bool → Bool → RouterStats → RouterStats
counted now has_slot sent stats = record stats {
  orders_received = add64 stats.orders_received 1;
  orders_sent = if sent then add64 stats.orders_sent 1 else stats.orders_sent;
  orders_rejected = if sent then stats.orders_rejected else add64 stats.orders_rejected 1;
  queue_full_count =
      if has_slot && not sent then add64 stats.queue_full_count 1 else stats.queue_full_count;
  last_order_time = now;
}

pushed_lem :
    (now index : ℕ) (down : DownstreamShm) (r : OrderRouter)
    → HasRing (some down)
    → ((push_downstream now index down r).0
        ≡ ltb (length (queue queue_capacity down.order_queue) + 1) queue_capacity)
      × ((push_downstream now index down r).1.order_book ≡ r.order_book)
      × ((push_downstream now index down r).1.stats ≡ r.stats)
unfolding push_downstream set_stage
pushed_lem now index down r v = elim (try_push_lem queue_capacity down.order_queue v index) [
  | inl (room, pushed, _, _) ↦ rw pushed (ground (arith, room), refl, refl)
  | inr (full, refused) ↦ rw refused (ground (arith, full), refl, refl)
]

send_lem :
    (now index : ℕ) (r : OrderRouter)
    → HasRing r.downstream_shm
    → ((send_to_downstream now index r).0 ≡ can_send r)
      × ((send_to_downstream now index r).1.order_book ≡ r.order_book)
      × ((send_to_downstream now index r).1.stats ≡ r.stats)
unfolding send_to_downstream
send_lem now index r v = elim (Option-cases r.downstream_shm) [
  | inl absent ↦ rw (send_to_downstream, absent) (refl, refl, refl)
  | inr (down, there) ↦ elim (Option-cases r.orders_shm) [
    | inl null ↦ rw (send_to_downstream, there, null) (refl, refl, refl)
    | inr (shm, mapped) ↦
        rw (send_to_downstream, there, mapped) (pushed_lem now index down r (subst HasRing there v))
  ]
]

module _ (callback : Callback) (capacity now k : ℕ) where
  -- The order has the state, and the counters are those given.
  abbrev IsTold : OrderEntry → OrderState → RouterStats → OrderRouter → Type 0
  IsTold e st stats r = (find_order k r.order_book ≡ some (with_state now st e)) × (r.stats ≡ stats)

  set_state-IsTold :
      (st : OrderState) (r : OrderRouter) (e : OrderEntry)
      → IsValid capacity r.order_book
      → find_order k r.order_book ≡ some e
      → IsOutOfReach k k r.order_book
      → IsTold e st r.stats (set_state callback now k st r)
  unfolding set_state on_book find_order
  set_state-IsTold st r e v found far = (
    find_order-update_state_self capacity now k st (record r.order_book { notified = [] }) v found
        far,
    refl,
  )

  abbrev pub IsRouted : OrderEntry → Bool → Bool → RouterStats → Bool × OrderRouter → Type 0
  IsRouted e has_slot can stats out =
      (out.0 ≡ (has_slot && can))
      × (find_order k out.1.order_book
          ≡ some (
              with_state now
                (if out.0 then OrderState.trader_submitted else OrderState.trader_error) e))
      × (out.1.stats ≡ counted now has_slot out.0 stats)

  -- The state and the counters after the push, of a router whose book the push left alone.
  send_order_lem :
      (index : ℕ) (r : OrderRouter) (e : OrderEntry)
      → HasRing r.downstream_shm
      → IsValid capacity r.order_book
      → find_order k r.order_book ≡ some e
      → IsOutOfReach k k r.order_book
      → IsRouted e true
          (can_send r)
          r.stats
          (send_order callback now k index (count_received now r))
  unfolding send_order count_received count_sent count_queue_full
  send_order_lem index r e ring v found far =
      let received = count_received now r in
      let out = send_to_downstream now index received in
      let (result, book, stats) = send_lem now index received ring in
      let told : (st : OrderState) (x : OrderRouter)
          → x.order_book ≡ r.order_book
          → IsTold e st x.stats (set_state callback now k st x) =
        λ st x same.
          set_state-IsTold st x e (subst (IsValid capacity) (sym same) v)
            (ap (find_order k) same ∙ found) (subst (IsOutOfReach k k) (sym same) far) in
      elim (Bool-cases out.0) [
        | inl sent ↦
            let (order, counters) = told OrderState.trader_submitted (count_sent out.1) book in
            rw sent (sym sent ∙ result, order, counters ∙ rw stats refl)
        | inr failed ↦
            let (order, counters) = told OrderState.trader_error (count_queue_full out.1) book in
            rw failed (sym failed ∙ result, order, counters ∙ rw stats refl)
      ]

  -- A new order that is in the book, is not its own unmanaged parent, and is routed with a valid book
  -- and a queue in order, is sent exactly when it has a slot, the shared memory is there and the queue
  -- has room. It is then submitted in the book and counted as sent, and otherwise it has an error and
  -- is counted as rejected, and as met by a full queue if it has a slot.
  pub route_order_new :
      (entry : OrderEntry) (r : OrderRouter) {e : OrderEntry}
      → is_cancel entry.request.order_type ≡ false
      → entry.request.internal_order_id ≡ k
      → HasRing r.downstream_shm
      → IsValid capacity r.order_book
      → find_order k r.order_book ≡ some e
      → IsOutOfReach k k r.order_book
      → IsRouted e
          (not (entry.shm_order_index == u32_max))
          (can_send r)
          r.stats
          (route_order callback now entry r)
  unfolding route_order route_new count_received count_rejected
  route_order_new entry r {e} new same ring v found far =
      elim (Bool-cases (entry.shm_order_index == u32_max)) [
        | inl no_slot ↦
            let (order, counters) =
              set_state-IsTold OrderState.trader_error (count_rejected (count_received now r)) e v
                found far in
            rw (route_order, new, route_new, no_slot, same) (refl, order, counters)
        | inr slot ↦
            rw (route_order, new, route_new, slot, same)
              (send_order_lem entry.shm_order_index r e ring v found far)
      ]
