-- ===== src/Portfolio/TradeRecord.antt =====
-- trade_record_manager of src/portfolio/trade_record.cpp: the day's trades, with their indices by
-- id, by order and by security. The rows of a vector are read at indices that are in it; another
-- index, which the program never reads, gives no row. save_to_db, which writes a file, is left out.
pub mod Groups
mod Run
mod Tests
use account_services.Base.{
  ℕ, zero, suc, ◌+◌, Bool, true, false, Option, none, some, List, [], ◌∷◌, ◌++◌, Map, Eq, Text,
  length, lookup, insert, eq_text, nat_eq, ltb, ◌==◌, ◌||◌, not, if◌then◌else◌, add64,
}
use account_services.Types.{TradeSide}

pub record TradeRecord : Type 0 where
  pub trade_id : ℕ
  pub order_id : ℕ
  pub security_id : Text
  pub side : TradeSide
  pub volume : ℕ
  pub price : ℕ
  pub value : ℕ
  pub fee : ℕ
  pub trade_time : ℕ
  pub local_time : ℕ
  pub broker_trade_id : Text

pub record TradeRecordManager : Type 0 where
  pub trades : List TradeRecord
  pub id_index : Map ℕ ℕ
  pub order_index : Map ℕ (List ℕ)
  pub security_index : Map Text (List ℕ)
  pub next_trade_id : ℕ

abbrev pub no_trades : TradeRecordManager
no_trades = record {
  trades = [];
  id_index = [];
  order_index = [];
  security_index = [];
  next_trade_id = 1;
}

module _ {ℓ} {A : Type ℓ} where
  abbrev pub get_elem? : List A → ℕ → Option A
  get_elem? [] i = none
  get_elem? (x ∷ xs) zero = some x
  get_elem? (x ∷ xs) (suc i) = get_elem? xs i

  -- The rows at the given indices.
  pub at_indices : List A → List ℕ → List A
  at_indices rows [] = []
  at_indices rows (i ∷ rest) = elim (get_elem? rows i) [
    | none ↦ at_indices rows rest
    | some x ↦ x ∷ at_indices rows rest
  ]

module _ {K : Type 0} ⦃e : Eq K⦄ where
  pub indices_of : K → Map K (List ℕ) → List ℕ
  indices_of k index = elim (lookup k index) [ none ↦ [] | some l ↦ l ]

  -- index[k].push_back(i)
  pub push_index : K → ℕ → Map K (List ℕ) → Map K (List ℕ)
  push_index k i index = insert k (indices_of k index ++ i ∷ []) index

pub load_today_trades : TradeRecordManager → Bool × TradeRecordManager
load_today_trades m = (true, no_trades)

-- id_index_.find(id) != id_index_.end()
pub is_known : ℕ → TradeRecordManager → Bool
is_known id m = elim (lookup id m.id_index) [ none ↦ false | some i ↦ true ]

-- The id that a trade is stored with, and the id that is next.
pub stored_id : ℕ → TradeRecordManager → ℕ × ℕ
stored_id id m =
    if (id == 0) || is_known id m
    then (m.next_trade_id, add64 m.next_trade_id 1)
    else if ltb id m.next_trade_id
    then (id, m.next_trade_id)
    else (id, add64 id 1)

pub add_trade : TradeRecord → TradeRecordManager → TradeRecordManager
add_trade trade m =
    let (id, next) = stored_id trade.trade_id m in
    let index = length m.trades in
    record {
      trades = m.trades ++ (record trade { trade_id = id }) ∷ [];
      id_index = insert id index m.id_index;
      order_index = push_index trade.order_id index m.order_index;
      security_index = push_index trade.security_id index m.security_index;
      next_trade_id = next;
    }

pub find_trade : ℕ → TradeRecordManager → Option TradeRecord
find_trade id m = elim (lookup id m.id_index) [ none ↦ none | some i ↦ get_elem? m.trades i ]

pub get_trades_by_order : ℕ → TradeRecordManager → List TradeRecord
get_trades_by_order order_id m = at_indices m.trades (indices_of order_id m.order_index)

pub get_trades_by_security : Text → TradeRecordManager → List TradeRecord
get_trades_by_security security_id m = at_indices m.trades (indices_of security_id m.security_index)

abbrev pub get_all_trades : TradeRecordManager → List TradeRecord
get_all_trades m = m.trades

pub trade_count : TradeRecordManager → ℕ
trade_count m = length m.trades

sum_from : (TradeRecord → ℕ) → ℕ → List TradeRecord → ℕ
sum_from f total [] = total
sum_from f total (t ∷ rest) = sum_from f (add64 total (f t)) rest

pub total_traded_value : TradeRecordManager → ℕ
total_traded_value m = sum_from (λ t. t.value) 0 m.trades

pub total_fee : TradeRecordManager → ℕ
total_fee m = sum_from (λ t. t.fee) 0 m.trades
