-- ===== src/Loop/Batches/Balance.antt =====
-- The fund while a batch of orders is handled.
use account_services.Base.{
  ℕ, ◌<◌, ◌≡◌, refl, subst, Option, some, option_keeps, length, ltb, if_keeps,
}
use account_services.Recovery.{Reading}
use account_services.Portfolio.Fund.Worth.{IsWorth, freeze_fund-IsWorth, unfreeze_fund-IsWorth}
use account_services.Loop.State.{EventLoop, Services, Times}
use account_services.Loop.Kept.{Property, Keeps, Holds}
use account_services.Loop.Laws.{EngineLaws, fact-IsKeptByLoop}
use account_services.Loop.Batches.{
  on_some, count_orders, process_orders, process_upstream_orders, batch_limit,
}
use account_services.Loop.Batches.Kept.{HoldsIn, orders_keep}
use account_services.Loop.Batches.Ends.{waiting, IsQueued, process_orders-Ends}

abbrev Worth : ℕ → ℕ → Property
Worth total_asset market_value t m r = IsWorth total_asset market_value m

module _ {E : Type 0} (services : Services E) (laws : EngineLaws services.engine) where
  Worth-Keeps : (total_asset market_value : ℕ) → Keeps services (Worth total_asset market_value)
  Worth-Keeps total_asset market_value = record {
    writes = λ t m. fact-IsKeptByLoop services laws (IsWorth total_asset market_value m);
    freezes = λ now amount t m r w. freeze_fund-IsWorth now amount total_asset market_value m w;
    unfreezes = λ now amount t m r w. unfreeze_fund-IsWorth now amount total_asset market_value m w;
  }

  -- The batch ends, with the same worth.
  abbrev pub EndsWorth : ℕ → ℕ → Option (ℕ × EventLoop E) → Type 0
  EndsWorth total_asset market_value o =
      (r : ℕ × EventLoop E) × (o ≡ some r) × IsWorth total_asset market_value r.1.positions

  orders_worth :
      (fuel limit total_asset market_value : ℕ) (seen : ℕ → Reading) (times : ℕ → Times)
      (s : EventLoop E)
      → IsQueued s
      → length (waiting s) < fuel
      → IsWorth total_asset market_value s.positions
      → EndsWorth total_asset market_value (process_orders services fuel seen times limit 0 s)
  unfolding Holds
  orders_worth fuel limit total_asset market_value seen times s queued enough w =
      let (r, at, _) = process_orders-Ends services laws fuel limit 0 seen times s queued enough in
      (
        r,
        at,
        subst (HoldsIn (Worth total_asset market_value)) at (
            orders_keep services (Worth total_asset market_value)
              (Worth-Keeps total_asset market_value) (λ t m up r v. v) fuel limit 0 seen times s w),
      )

  counted_worth :
      (now total_asset market_value : ℕ) (o : Option (ℕ × EventLoop E))
      → EndsWorth total_asset market_value o
      → EndsWorth total_asset market_value (on_some (count_orders now) o)
  unfolding count_orders
  counted_worth now total_asset market_value o ((n, s), at, w) = rw at (
      if_keeps (λ (t : ℕ × EventLoop E). EndsWorth total_asset market_value (some t)) (ltb 0 n)
        (_, refl, w) (_, refl, w))

  -- With a queue of orders in order or absent that the execution engine leaves alone, and more fuel
  -- than it holds, a batch of any orders ends, and from balanced books it leaves balanced books with
  -- the same total asset and the same market value: it only moves money between what is available
  -- and what is frozen.
  pub process_upstream_orders-IsWorth :
      (fuel total_asset market_value now : ℕ) (seen : ℕ → Reading) (times : ℕ → Times)
      (s : EventLoop E)
      → IsQueued s
      → length (waiting s) < fuel
      → IsWorth total_asset market_value s.positions
      → EndsWorth total_asset market_value (process_upstream_orders services fuel seen times now s)
  unfolding process_upstream_orders
  process_upstream_orders-IsWorth fuel total_asset market_value now seen times s queued enough w =
      option_keeps (EndsWorth total_asset market_value) s.router.upstream_shm ((0, s), refl, w)
        (λ up.
          option_keeps (EndsWorth total_asset market_value) s.router.orders_shm ((0, s), refl, w)
            (λ shm. counted_worth now total_asset market_value _ (
              orders_worth fuel (batch_limit s.config.poll_batch_size) total_asset market_value seen
                times s queued enough w)))
