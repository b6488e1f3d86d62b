-- ===== src/Loop/Batches/Ends.antt =====
-- The loops of a turn end.
use account_services.Base.{
  ℕ, zero, suc, ◌+◌, ◌≤◌, ◌<◌, ◌≡◌, refl, ap, sym, subst, ◌⊎◌, inl, inr, true, Bool-cases, Option,
  Option-cases, none, some, List, [], ◌∷◌, length, ltb, arith,
}
use account_services.Ring.{Ring}
use account_services.Ring.Queue.{IsRing, queue}
use account_services.Ring.Fifo.{try_pop_lem}
use account_services.Layout.{UpstreamShm, TradesShm, TradeResponse, queue_capacity}
use account_services.Pool.{Snapshot}
use account_services.Recovery.{Reading}
use account_services.Loop.State.{EventLoop, Services, Times}
use account_services.Loop.Kept.{Holds, steady}
use account_services.Loop.Laws.{
  EngineLaws, ring_in, upstream_ring, HasRingOf, HasRingOf-IsKeptByLoop, fact-IsKeptByLoop,
}
use account_services.Loop.Kept.Trades.{handle_trade_response_keeps}
use account_services.Loop.Batches.Kept.{upstream_keeps}
use account_services.Loop.Trades.{handle_trade_response}
use account_services.Loop.Batches.{
  shifted, pop_upstream, take_from, take_upstream, snapshot_of, handle_upstream, process_orders,
  take_response, take_response_from, process_responses,
}

-- The indexes that wait upstream, oldest first.
abbrev pub items_in : Option (Ring ℕ) → List ℕ
items_in none = []
items_in (some q) = queue queue_capacity q

abbrev pub IsRingIn : Option (Ring ℕ) → Type 0
IsRingIn none = Unit
IsRingIn (some q) = IsRing queue_capacity q

abbrev pub waiting : {E : Type 0} → EventLoop E → List ℕ
waiting s = items_in (upstream_ring s.router)

abbrev pub IsQueued : {E : Type 0} → EventLoop E → Type 0
IsQueued s = IsRingIn (upstream_ring s.router)

module _ {E : Type 0} where
  -- The queue has an index and gives its first, or it has none.
  TakesFirst : Option UpstreamShm → Option ℕ × EventLoop E → Type 0
  TakesFirst up (taken, s) =
      ((index : ℕ) × (taken ≡ some index)
        × IsQueued s
        × (items_in (ring_in up) ≡ index ∷ waiting s))
      ⊎ ((items_in (ring_in up) ≡ []) × (taken ≡ none))

  take_from_lem :
      (up : Option UpstreamShm) (s : EventLoop E)
      → IsRingIn (ring_in up)
      → TakesFirst up (take_from up s)
  unfolding TakesFirst take_from pop_upstream
  take_from_lem none s v = inr (refl, refl)
  take_from_lem (some up) s v = elim (try_pop_lem queue_capacity up.upstream_order_queue v) [
    | inl (x, got, valid, items) ↦ inl (x, got, valid, items)
    | inr (none_left, same) ↦ inr (none_left, ap (λ (r : Option ℕ × Ring ℕ). r.0) same)
  ]

module _ {E : Type 0} (services : Services E) (laws : EngineLaws services.engine) where
  -- Handling an order leaves the queue as it is.
  handled_queue :
      (t : Times) (index : ℕ) (snapshot : Snapshot) (s : EventLoop E)
      → upstream_ring (handle_upstream services t index snapshot s).router ≡ upstream_ring s.router
  unfolding Holds
  handled_queue t index snapshot s =
      let q = upstream_ring s.router in
      upstream_keeps services (λ t m. HasRingOf q)
        (steady services (λ t. HasRingOf q) (λ t. HasRingOf-IsKeptByLoop services laws q)) t index
        snapshot s refl

  -- The batch is full, or nothing waits; and it is no larger than its limit.
  abbrev pub IsBatch : ℕ → ℕ → ℕ × EventLoop E → Type 0
  IsBatch limit processed (n, s) =
      (processed ≤ n) × ((limit ≤ n) ⊎ (waiting s ≡ [])) × (processed ≤ limit → n ≤ limit)

  abbrev pub Ends : ℕ → ℕ → Option (ℕ × EventLoop E) → Type 0
  Ends limit processed o = (r : ℕ × EventLoop E) × (o ≡ some r) × IsBatch limit processed r

  one_more :
      (limit processed : ℕ) (o : Option (ℕ × EventLoop E))
      → ltb processed limit ≡ true
      → Ends limit (processed + 1) o
      → Ends limit processed o
  one_more limit processed o room ((n, s), at, (more, full, bound)) =
      ((n, s), at, (omega (arith, more), full, λ h. bound (ground (arith, room))))

  -- With an upstream queue in order, or none, that the execution engine leaves alone, and more fuel
  -- than orders that wait, the loop over the queue ends, whatever slots it can read: with a full batch, or with no order left to wait. It
  -- counts at least what was counted before, and no more than the batch limit.
  pub process_orders-Ends :
      (fuel limit processed : ℕ) (seen : ℕ → Reading) (times : ℕ → Times) (s : EventLoop E)
      → IsQueued s
      → length (waiting s) < fuel
      → Ends limit processed (process_orders services fuel seen times limit processed s)
  unfolding process_orders take_upstream TakesFirst
  process_orders-Ends zero limit processed seen times s v enough = absurd (omega (arith, enough))
  process_orders-Ends (suc fuel) limit processed seen times s v enough =
      elim (Bool-cases (ltb processed limit)) [
        | inr full ↦
            rw full ((processed, s), refl, (omega arith, inl (ground (arith, full)), λ h. h))
        | inl room ↦ elim (take_from_lem s.router.upstream_shm s v) [
          | inr (drained, nothing) ↦
              rw (room, nothing) ((processed, s), refl, (omega arith, inr drained, λ h. h))
          | inl (index, got, v', items) ↦
              let taken = (take_from s.router.upstream_shm s).1 in
              let fewer : length (waiting taken) < fuel = omega (arith, enough, ap length items) in
              elim (Option-cases (snapshot_of index (seen 0) s)) [
                | inl unreadable ↦
                    rw (room, got, unreadable)
                      (process_orders-Ends fuel limit processed (shifted seen) (shifted times) taken
                        v' fewer)
                | inr (snapshot, read) ↦
                    let handled = handle_upstream services (times 0) index snapshot taken in
                    let same = handled_queue (times 0) index snapshot taken in
                    rw (room, got, read)
                      (one_more limit processed _ room (
                        process_orders-Ends fuel limit (processed + 1) (shifted seen)
                          (shifted times) handled (subst IsRingIn (sym same) v')
                          (subst (λ q. length (items_in q) < fuel) (sym same) fewer)))
              ]
        ]
      ]

-- The responses that wait, oldest first.
abbrev pub responses_in : Option TradesShm → List TradeResponse
responses_in none = []
responses_in (some trades) = queue queue_capacity trades.response_queue

abbrev pub IsResponseRing : Option TradesShm → Type 0
IsResponseRing none = Unit
IsResponseRing (some trades) = IsRing queue_capacity trades.response_queue

module _ {E : Type 0} where
  TakesResponse : Option TradesShm → Option TradeResponse × EventLoop E → Type 0
  TakesResponse trades (taken, s) =
      ((response : TradeResponse) × (taken ≡ some response)
        × IsResponseRing s.trades_shm
        × (responses_in trades ≡ response ∷ responses_in s.trades_shm))
      ⊎ ((responses_in trades ≡ []) × (taken ≡ none))

  take_response_from_lem :
      (trades : Option TradesShm) (s : EventLoop E)
      → IsResponseRing trades
      → TakesResponse trades (take_response_from trades s)
  unfolding TakesResponse take_response_from
  take_response_from_lem none s v = inr (refl, refl)
  take_response_from_lem (some trades) s v =
      elim (try_pop_lem queue_capacity trades.response_queue v) [
        | inl (x, got, valid, items) ↦ inl (x, got, valid, items)
        | inr (none_left, same) ↦
            inr (none_left, ap (λ (r : Option TradeResponse × Ring TradeResponse). r.0) same)
      ]

module _ {E : Type 0} (services : Services E) (laws : EngineLaws services.engine) where
  handled_responses :
      (now : ℕ) (response : TradeResponse) (s : EventLoop E)
      → (handle_trade_response services now response s).trades_shm ≡ s.trades_shm
  unfolding Holds
  handled_responses now response s =
      handle_trade_response_keeps services (λ t m r. t ≡ s.trades_shm)
        (steady services (λ t r. t ≡ s.trades_shm)
          (λ t. fact-IsKeptByLoop services laws (t ≡ s.trades_shm)))
        (λ t m m' r v. v) now response s refl

  -- With a queue of responses in order, or none, and more fuel than responses that wait, the loop
  -- over the queue ends.
  pub process_responses_end :
      (fuel limit processed : ℕ) (times : ℕ → ℕ) (s : EventLoop E)
      → IsResponseRing s.trades_shm
      → length (responses_in s.trades_shm) < fuel
      → (r : ℕ × EventLoop E) × (process_responses services fuel times limit processed s ≡ some r)
  unfolding process_responses take_response TakesResponse
  process_responses_end zero limit processed times s v enough = absurd (omega (arith, enough))
  process_responses_end (suc fuel) limit processed times s v enough =
      elim (Bool-cases (ltb processed limit)) [
        | inr full ↦ rw full ((processed, s), refl)
        | inl room ↦ elim (take_response_from_lem s.trades_shm s v) [
          | inr (drained, nothing) ↦ rw (room, nothing) ((processed, s), refl)
          | inl (response, got, v', items) ↦
              let taken = (take_response_from s.trades_shm s).1 in
              let handled = handle_trade_response services (times 0) response taken in
              let same = handled_responses (times 0) response taken in
              let fewer : length (responses_in taken.trades_shm) < fuel =
                omega (arith, enough, ap length items) in
              rw (room, got)
                (process_responses_end fuel limit (processed + 1) (shifted times) handled
                  (subst IsResponseRing (sym same) v')
                  (subst (λ q. length (responses_in q) < fuel) (sym same) fewer))
        ]
      ]
