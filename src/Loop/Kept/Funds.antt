-- ===== src/Loop/Kept/Funds.antt =====
-- The parts of the handlers that move money or tell of a state.
use account_services.Base.{ℕ, refl, not, ◌||◌, ◌==◌, option_keeps, if_keeps}
use account_services.Types.{OrderState}
use account_services.Pool.{OrderSlotState}
use account_services.Portfolio.Fund.{freeze_fund, unfreeze_fund}
use account_services.Router.{set_stage}
use account_services.Loop.State.{EventLoop, Services, set_order_state, set_slot_stage, write_entry}
use account_services.Loop.Funds.{
  with_frozen, entry_at, is_new_buy, reserved_total, reserve_order_resources,
  release_order_resources,
}
use account_services.Loop.Kept.{Property, Keeps, Holds, HoldsAfter}

module _ {E : Type 0} (services : Services E) (P : Property) (keeps : Keeps services P) where
  freeze_keeps :
      (now amount : ℕ) (s : EventLoop E)
      → Holds P s
      → Holds P (record s { positions = (freeze_fund now amount s.positions).1 })
  unfolding Holds
  freeze_keeps now amount s v = keeps.freezes now amount s.trades_shm s.positions s.router v

  unfreeze_keeps :
      (now amount : ℕ) (s : EventLoop E)
      → Holds P s
      → Holds P (record s { positions = (unfreeze_fund now amount s.positions).1 })
  unfolding Holds
  unfreeze_keeps now amount s v = keeps.unfreezes now amount s.trades_shm s.positions s.router v

  pub frozen_keeps :
      (slot amount : ℕ) (s : EventLoop E)
      → Holds P s
      → Holds P (write_entry slot (with_frozen amount) s)
  unfolding write_entry Holds
  frozen_keeps slot amount s v =
      (keeps.writes s.trades_shm s.positions).entries slot (with_frozen amount) s.router (λ e. refl)
        v

  pub reserve_keeps :
      (now slot : ℕ) (s : EventLoop E)
      → Holds P s
      → HoldsAfter P (reserve_order_resources now slot s)
  unfolding reserve_order_resources
  reserve_keeps now slot s v =
      let e = entry_at slot s in
      if_keeps (HoldsAfter P) (not (is_new_buy e)) v (
        option_keeps (HoldsAfter P) (reserved_total e.request) v (λ total.
          let paid = freeze_fund now total s.positions in
          let kept = freeze_keeps now total s v in
          if_keeps (HoldsAfter P) paid.0 (frozen_keeps slot total _ kept) kept))

  pub release_keeps :
      (now slot : ℕ) (s : EventLoop E) → Holds P s → Holds P (release_order_resources now slot s)
  unfolding release_order_resources
  release_keeps now slot s v =
      let e = entry_at slot s in
      let paid = unfreeze_fund now e.fund_frozen s.positions in
      let kept = unfreeze_keeps now e.fund_frozen s v in
      if_keeps (Holds P) (not (is_new_buy e) || (e.fund_frozen == 0)) v
        (if_keeps (Holds P) paid.0 (frozen_keeps slot 0 _ kept) kept)

  pub state_keeps :
      (now k : ℕ) (st : OrderState) (s : EventLoop E)
      → Holds P s
      → Holds P (set_order_state now k st s)
  unfolding set_order_state Holds
  state_keeps now k st s v =
      ((keeps.writes s.trades_shm s.positions).routes now).updates now k st s.router v

  pub stage_keeps :
      (now index : ℕ) (stage : OrderSlotState) (s : EventLoop E)
      → Holds P s
      → Holds P (set_slot_stage now index stage s)
  unfolding set_slot_stage set_stage Holds
  stage_keeps now index stage s v =
      ((keeps.writes s.trades_shm s.positions).routes now).writes _ s.router v
