-- ===== src/Loop/Kept/Trades.antt =====
-- EventLoop::handle_trade_response and process_pending_archives.
use account_services.Base.{
  leb, if◌then◌else◌, ◌-◌, ℕ, not, ◌&&◌, ◌==◌, ltb, Option, option_keeps, if_keeps, Map,
}
use account_services.Types.{is_new, is_cancel, is_terminal_state}
use account_services.Layout.{TradeResponse}
use account_services.Book.State.{find_slot, is_terminal}
use account_services.Book.Orders.{archive_order}
use account_services.Book.Updates.{update_trade}
use account_services.Loop.State.{EventLoop, Services, book_of, call_book}
use account_services.Risk.Rules.{is_buy, is_sell}
use account_services.Portfolio.State.{PositionManager}
use account_services.Portfolio.Fund.{deduct_fund}
use account_services.Loop.Funds.{entry_at, try_total_with_fee, settle_buy_trade_fund}
use account_services.Loop.Trades.{
  trade_fund, settle_trade, apply_trade, release_original, release_ended, forget_deadline,
  schedule_archive, tell_engine, handle_trade_response,
}
use account_services.Loop.Kept.{Property, Keeps, Ignores, Holds, HoldsAfter}
use account_services.Loop.Kept.Funds.{frozen_keeps, release_keeps, state_keeps}

module _ {E : Type 0} (services : Services E) (P : Property) (keeps : Keeps services P)
    (ignores : Ignores P) where
  funds_keep :
      (m : PositionManager) (s : EventLoop E) → Holds P s → Holds P (record s { positions = m })
  unfolding Holds
  funds_keep m s v = ignores s.trades_shm s.positions m s.router v

  settle_keeps :
      (now slot amount fee : ℕ) (s : EventLoop E)
      → Holds P s
      → HoldsAfter P (settle_buy_trade_fund now slot amount fee s)
  unfolding settle_buy_trade_fund
  settle_keeps now slot amount fee s v =
      let frozen = (entry_at slot s).fund_frozen in
      let paid = deduct_fund now amount fee s.positions in
      let kept = funds_keep paid.1 s v in
      if_keeps (HoldsAfter P) (frozen == 0) (funds_keep _ s v) (
        option_keeps (HoldsAfter P) (try_total_with_fee amount fee) v (λ total.
          if_keeps (HoldsAfter P) paid.0
            (frozen_keeps services P keeps slot (if leb total frozen then frozen - total else 0) _
              kept)
            kept))

  fund_keeps :
      (now : ℕ) (response : TradeResponse) (slot : ℕ) (s : EventLoop E)
      → Holds P s
      → Holds P (trade_fund now response slot s)
  unfolding trade_fund
  fund_keeps now response slot s v =
      if_keeps (Holds P) (is_buy response.trade_side)
        (settle_keeps now slot response.dvalue_traded response.dfee s v)
        (if_keeps (Holds P) (is_sell response.trade_side) (funds_keep _ s v) v)

  settled_keeps :
      (now : ℕ) (response : TradeResponse) (s : EventLoop E)
      → Holds P s
      → Holds P (settle_trade now response s)
  unfolding settle_trade
  settled_keeps now response s v =
      option_keeps (Holds P) (find_slot response.internal_order_id (book_of s)) v (λ slot.
        if_keeps (Holds P) (is_new (entry_at slot s).request.order_type)
          (funds_keep _ _ (fund_keeps now response slot s v)) v)

  traded_keeps :
      (now : ℕ) (response : TradeResponse) (s : EventLoop E)
      → Holds P s
      → Holds P (
          call_book now
            (update_trade now response.internal_order_id response.volume_traded
              response.dprice_traded response.dvalue_traded response.dfee)
            s)
  unfolding call_book Holds
  traded_keeps now response s v =
      (keeps.writes s.trades_shm s.positions).trades now _ _ _ _ _ s.router v

  apply_keeps :
      (now : ℕ) (response : TradeResponse) (s : EventLoop E)
      → Holds P s
      → Holds P (apply_trade now response s)
  unfolding apply_trade
  apply_keeps now response s v =
      if_keeps (Holds P) (ltb 0 response.volume_traded)
        (settled_keeps now response _ (traded_keeps now response s v)) v

  original_keeps :
      (now slot : ℕ) (s : EventLoop E) → Holds P s → Holds P (release_original now slot s)
  unfolding release_original
  original_keeps now slot s v =
      let e = entry_at slot s in
      if_keeps (Holds P)
        (is_cancel e.request.order_type
          && (is_terminal e && not (e.request.orig_internal_order_id == 0)))
        (option_keeps (Holds P) (find_slot e.request.orig_internal_order_id (book_of s)) v
          (λ original. release_keeps services P keeps now original s v))
        v

  ended_keeps :
      (now : ℕ) (response : TradeResponse) (s : EventLoop E)
      → Holds P s
      → Holds P (release_ended now response s)
  unfolding release_ended
  ended_keeps now response s v =
      option_keeps (Holds P) (find_slot response.internal_order_id (book_of s)) v (λ slot.
        original_keeps now slot _ (
          if_keeps (Holds P) (is_terminal (entry_at slot s))
            (release_keeps services P keeps now slot s v) v))

  archived_keeps :
      (now k : ℕ) (s : EventLoop E) → Holds P s → Holds P (call_book now (archive_order k) s)
  unfolding call_book Holds
  archived_keeps now k s v = (keeps.writes s.trades_shm s.positions).archives now k s.router v

  deadlines_keep :
      (deadlines : Map ℕ ℕ) (s : EventLoop E)
      → Holds P s
      → Holds P (record s { pending_archive_deadlines_ns = deadlines })
  unfolding Holds
  deadlines_keep deadlines s v = v

  forget_keeps : (k : ℕ) (s : EventLoop E) → Holds P s → Holds P (forget_deadline k s)
  unfolding forget_deadline
  forget_keeps k s v = deadlines_keep _ s v

  schedule_keeps :
      (now : ℕ) (response : TradeResponse) (s : EventLoop E)
      → Holds P s
      → Holds P (schedule_archive now response s)
  unfolding schedule_archive
  schedule_keeps now response s v =
      if_keeps (Holds P)
        (not (is_terminal_state response.new_state && s.config.archive_terminal_orders))
        (forget_keeps response.internal_order_id s v)
        (if_keeps (Holds P) (s.config.terminal_archive_delay_ms == 0)
          (forget_keeps response.internal_order_id _
            (archived_keeps now response.internal_order_id s v))
          (deadlines_keep _ s v))

  engine_keeps :
      (engine : Option E) (s : EventLoop E)
      → Holds P s
      → Holds P (record s { execution_engine = engine })
  unfolding Holds
  engine_keeps engine s v = v

  told_keeps :
      (response : TradeResponse) (s : EventLoop E)
      → Holds P s
      → Holds P (tell_engine services response s)
  unfolding tell_engine
  told_keeps response s v =
      option_keeps (Holds P) s.execution_engine v (λ engine. engine_keeps _ s v)

  pub handle_trade_response_keeps :
      (now : ℕ) (response : TradeResponse) (s : EventLoop E)
      → Holds P s
      → Holds P (handle_trade_response services now response s)
  unfolding handle_trade_response
  handle_trade_response_keeps now response s v =
      let told = told_keeps response s v in
      if_keeps (Holds P) (response.internal_order_id == 0) told (
        schedule_keeps now response _ (
          ended_keeps now response _ (
            apply_keeps now response _ (
              state_keeps services P keeps now response.internal_order_id response.new_state _
                told))))
