-- ===== src/Loop/Trades.antt =====
-- EventLoop::handle_trade_response and process_pending_archives. The elements of the map of deadlines
-- are listed in the order of its association list.
use account_services.Base.{
  ℕ, not, ◌&&◌, none, some, List, [], ◌∷◌, Map, Text, empty, insert, erase, nat_eq, add64, mul64,
  ltb, leb, ◌==◌, if◌then◌else◌,
}
use account_services.Types.{is_new, is_cancel, is_terminal_state}
use account_services.Layout.{TradeResponse}
use account_services.Portfolio.State.{PositionManager, get_position}
use account_services.Portfolio.Fund.{apply_sell_trade_fund}
use account_services.Portfolio.Securities.{add_position, deduct_position, add_security}
use account_services.Book.State.{OrderEntry, find_slot, find_order, is_terminal}
use account_services.Book.Orders.{archive_order}
use account_services.Book.Updates.{update_trade}
use account_services.Loop.State.{EventLoop, Services, book_of, call_book, set_order_state}
use account_services.Risk.Rules.{is_buy, is_sell}
use account_services.Loop.Funds.{entry_at, settle_buy_trade_fund, release_order_resources}

-- The security of the trade: the response's, or else the order's.
abbrev traded_security : TradeResponse → OrderEntry → Text
traded_security response e =
    if empty response.internal_security_id
    then e.request.internal_security_id
    else response.internal_security_id

-- A row is made for a security that has none.
unfoldable pub ensure_row : ℕ → Text → OrderEntry → PositionManager → PositionManager
ensure_row now security_id e m = elim (get_position m security_id) [
  | some _ ↦ m
  | none ↦
      let name =
        if empty e.request.internal_security_id
        then security_id
        else e.request.internal_security_id in
      if empty e.request.security_id
      then m
      else (add_security now e.request.security_id name e.request.market m).1
]

unfoldable pub trade_position : ℕ → Text → TradeResponse → PositionManager → PositionManager
trade_position now security_id response m =
    if is_buy response.trade_side
    then (add_position now security_id response.volume_traded response.dprice_traded m).1
    else if is_sell response.trade_side
    then (deduct_position now security_id response.volume_traded response.dvalue_traded m).1
    else m

unfoldable pub trade_row : ℕ → TradeResponse → OrderEntry → PositionManager → PositionManager
trade_row now response e m =
    let security_id = traded_security response e in
    if empty security_id
    then m
    else trade_position now security_id response (ensure_row now security_id e m)

-- The ids whose time has come.
unfoldable pub due_order_ids : ℕ → Map ℕ ℕ → List ℕ
due_order_ids now [] = []
due_order_ids now ((order_id, deadline) ∷ rest) =
    if leb deadline now then order_id ∷ due_order_ids now rest else due_order_ids now rest

module _ {E : Type 0} where
  -- The fund's part of a trade; a failure is only logged.
  unfoldable pub trade_fund : ℕ → TradeResponse → ℕ → EventLoop E → EventLoop E
  trade_fund now response slot s =
      if is_buy response.trade_side
      then (settle_buy_trade_fund now slot response.dvalue_traded response.dfee s).1
      else if is_sell response.trade_side
      then record s {
        positions = (apply_sell_trade_fund now response.dvalue_traded response.dfee s.positions).1;
      }
      else s

  unfoldable pub settle_trade : ℕ → TradeResponse → EventLoop E → EventLoop E
  settle_trade now response s = elim (find_slot response.internal_order_id (book_of s)) [
    | none ↦ s
    | some slot ↦
        let s' = trade_fund now response slot s in
        if is_new (entry_at slot s).request.order_type
        then record s' { positions = trade_row now response (entry_at slot s') s'.positions }
        else s
  ]

  unfoldable pub apply_trade : ℕ → TradeResponse → EventLoop E → EventLoop E
  apply_trade now response s =
      if ltb 0 response.volume_traded
      then settle_trade now response (
          call_book now
            (update_trade now response.internal_order_id response.volume_traded
              response.dprice_traded response.dvalue_traded response.dfee)
            s)
      else s

  -- The cancelled order's resources, when its cancel has ended.
  unfoldable pub release_original : ℕ → ℕ → EventLoop E → EventLoop E
  release_original now slot s =
      let e = entry_at slot s in
      let released : EventLoop E = elim (find_slot e.request.orig_internal_order_id (book_of s)) [
        | none ↦ s
        | some original ↦ release_order_resources now original s
      ] in
      if is_cancel e.request.order_type
        && (is_terminal e && not (e.request.orig_internal_order_id == 0))
      then released
      else s

  unfoldable pub release_ended : ℕ → TradeResponse → EventLoop E → EventLoop E
  release_ended now response s = elim (find_slot response.internal_order_id (book_of s)) [
    | none ↦ s
    | some slot ↦
        release_original now slot
          (if is_terminal (entry_at slot s) then release_order_resources now slot s else s)
  ]

  unfoldable pub forget_deadline : ℕ → EventLoop E → EventLoop E
  forget_deadline order_id s = record s {
    pending_archive_deadlines_ns = erase order_id s.pending_archive_deadlines_ns;
  }

  unfoldable pub schedule_archive : ℕ → TradeResponse → EventLoop E → EventLoop E
  schedule_archive now response s =
      let id = response.internal_order_id in
      if not (is_terminal_state response.new_state && s.config.archive_terminal_orders)
      then forget_deadline id s
      else if s.config.terminal_archive_delay_ms == 0
      then forget_deadline id (call_book now (archive_order id) s)
      else record s {
        pending_archive_deadlines_ns =
            insert id (add64 now (mul64 s.config.terminal_archive_delay_ms 1000000))
              s.pending_archive_deadlines_ns;
      }

  unfoldable pub tell_engine : Services E → TradeResponse → EventLoop E → EventLoop E
  tell_engine services response s = elim s.execution_engine [
    | none ↦ s
    | some engine ↦ record s {
      execution_engine = some (services.engine.on_trade_response response (book_of s) engine);
    }
  ]

  unfoldable pub handle_trade_response : Services E → ℕ → TradeResponse → EventLoop E → EventLoop E
  handle_trade_response services now response s =
      let told = tell_engine services response s in
      if response.internal_order_id == 0
      then told
      else schedule_archive now response (
          release_ended now response (
            apply_trade now response
              (set_order_state now response.internal_order_id response.new_state told)))

  unfoldable pub archive_due : ℕ → List ℕ → EventLoop E → EventLoop E
  archive_due now [] s = s
  archive_due now (order_id ∷ rest) s =
      let archived : EventLoop E = elim (find_order order_id (book_of s)) [
        | none ↦ s
        | some e ↦ if is_terminal e then call_book now (archive_order order_id) s else s
      ] in
      archive_due now rest (forget_deadline order_id archived)

  unfoldable pub process_pending_archives : ℕ → EventLoop E → EventLoop E
  process_pending_archives now s =
      archive_due now (due_order_ids now s.pending_archive_deadlines_ns) s
