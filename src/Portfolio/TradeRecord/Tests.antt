-- ===== src/Portfolio/TradeRecord/Tests.antt =====
-- Three trades, and what is found of them.
use account_services.Base.{
  ℕ, ◌≡◌, refl, none, some, List, [], ◌∷◌, codes, lookup, insert, eq_text, nat_eq, if◌then◌else◌,
  ◌==◌, arith,
}
use account_services.Types.{TradeSide}
use account_services.Portfolio.TradeRecord.{
  TradeRecord, TradeRecordManager, no_trades, add_trade, stored_id, find_trade, get_trades_by_order,
  get_trades_by_security, get_all_trades, is_known,
}
use account_services.Portfolio.TradeRecord.Groups.{with_key}
use account_services.Portfolio.TradeRecord.Run.{
  add_trades, get_trades_lem, HasFreshIds, find_trade-add_trade,
}

abbrev trade_of : ℕ → ℕ → ℕ → TradeRecord
trade_of id order volume = record {
  trade_id = id;
  order_id = order;
  security_id = codes "XSHG_600000";
  side = TradeSide.buy;
  volume = volume;
  price = 1000;
  value = volume;
  fee = 5;
  trade_time = 93000000;
  local_time = 0;
  broker_trade_id = codes "T1";
}

-- The third trade repeats an id.
abbrev day : List TradeRecord
day = trade_of 0 7 100 ∷ trade_of 4 8 200 ∷ trade_of 4 7 300 ∷ []

abbrev stored : List TradeRecord
stored = trade_of 1 7 100 ∷ trade_of 4 8 200 ∷ trade_of 5 7 300 ∷ []

added_rows : get_all_trades (add_trades day no_trades) ≡ stored
unfolding add_trade stored_id is_known lookup insert
added_rows = refl

get_trades_lem_example :
    let m = add_trades day no_trades in
    (get_trades_by_order 7 m ≡ with_key (λ t. t.order_id) 7 (get_all_trades m))
    × (get_trades_by_security (codes "XSHG_600000") m
        ≡ with_key (λ t. t.security_id) (codes "XSHG_600000") (get_all_trades m))
get_trades_lem_example = get_trades_lem day 7 (codes "XSHG_600000")

abbrev one_trade : TradeRecordManager
one_trade = record {
  trades = trade_of 4 7 100 ∷ [];
  id_index = (4, 0) ∷ [];
  order_index = (7, 0 ∷ []) ∷ [];
  security_index = (codes "XSHG_600000", 0 ∷ []) ∷ [];
  next_trade_id = 5;
}

one_trade-HasFreshIds : HasFreshIds one_trade
unfolding lookup
one_trade-HasFreshIds = (omega arith, λ id i h. ground arith)

find_trade-add_trade_example :
    let new = (stored_id 4 one_trade).0 in
    (find_trade new one_trade ≡ none)
    × (find_trade 4 (add_trade (trade_of 4 8 50) one_trade) ≡ (
        if new == 4
        then some (record (trade_of 4 8 50) { trade_id = new })
        else find_trade 4 one_trade))
    × HasFreshIds (add_trade (trade_of 4 8 50) one_trade)
find_trade-add_trade_example =
    find_trade-add_trade (trade_of 4 8 50) one_trade 4 one_trade-HasFreshIds (omega arith)
      (omega arith)
