-- ===== src/Loop/Batches/Kept.antt =====
-- What every handler keeps, a batch keeps.
use account_services.Base.{ℕ, zero, suc, ◌+◌, ltb, Option, none, some, option_keeps, if_keeps}
use account_services.Layout.{UpstreamShm, TradesShm}
use account_services.Pool.{Snapshot}
use account_services.Recovery.{Reading}
use account_services.Portfolio.State.{PositionManager}
use account_services.Router.{OrderRouter}
use account_services.Loop.State.{EventLoop, Services, Times}
use account_services.Loop.Kept.{Property, Keeps, Holds}
use account_services.Loop.Kept.Funds.{stage_keeps}
use account_services.Loop.Kept.Orders.{handle_order_request_keeps}
use account_services.Loop.Batches.{
  shifted, take_from, take_upstream, pop_upstream, snapshot_of, handle_upstream, process_orders,
}

-- What holds of the state that a batch leaves. Nothing is said when the fuel runs out.
abbrev pub HoldsIn : {A E : Type 0} → Property → Option (A × EventLoop E) → Type 0
HoldsIn P none = Unit
HoldsIn P (some (a, s)) = Holds P s

module _ {E : Type 0} (services : Services E) (P : Property) (keeps : Keeps services P) where
  pub upstream_keeps :
      (t : Times) (index : ℕ) (snapshot : Snapshot) (s : EventLoop E)
      → Holds P s
      → Holds P (handle_upstream services t index snapshot s)
  unfolding handle_upstream
  upstream_keeps t index snapshot s v =
      handle_order_request_keeps services P keeps t index snapshot.request _
        (stage_keeps services P keeps t.now index _ s v)

  module _
      (pops : (t : Option TradesShm) (m : PositionManager) (up : Option UpstreamShm)
          (r : OrderRouter)
        → P t m r
        → P t m (record r { upstream_shm = up })) where
    taken_keeps :
        (up : Option UpstreamShm) (s : EventLoop E) → Holds P s → Holds P (take_from up s).1
    unfolding take_from pop_upstream Holds
    taken_keeps none s v = v
    taken_keeps (some up) s v = pops s.trades_shm s.positions _ s.router v

    pub orders_keep :
        (fuel limit processed : ℕ) (seen : ℕ → Reading) (times : ℕ → Times) (s : EventLoop E)
        → Holds P s
        → HoldsIn P (process_orders services fuel seen times limit processed s)
    unfolding process_orders take_upstream
    orders_keep zero limit processed seen times s v = tt
    orders_keep (suc fuel) limit processed seen times s v =
        let taken = taken_keeps s.router.upstream_shm s v in
        if_keeps (HoldsIn P) (ltb processed limit)
          (option_keeps (HoldsIn P) (take_from s.router.upstream_shm s).0 v (λ index.
            option_keeps (HoldsIn P) (snapshot_of index (seen 0) s)
              (orders_keep fuel limit processed (shifted seen) (shifted times) _ taken)
              (λ snapshot.
                orders_keep fuel limit (processed + 1) (shifted seen) (shifted times) _
                  (upstream_keeps (times 0) index snapshot _ taken))))
          v
