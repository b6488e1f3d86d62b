-- ===== src/Portfolio/EntrustRecord.antt =====
-- entrust_record_manager of src/portfolio/entrust_record.cpp: what was entrusted on the day, one row
-- for an order, with indices by order and by security. The broker's order id as a string is an
-- argument of from_order_request, since the order has it as a number. save_to_db, which writes a
-- file, is left out.
mod Found
mod Tests
use account_services.Base.{
  ℕ, zero, suc, Bool, true, false, not, Option, none, some, List, [], ◌∷◌, ◌++◌, Map, Text, length,
  lookup, insert, ◌==◌, if◌then◌else◌, eq_text, nat_eq,
}
use account_services.Types.{OrderType, TradeSide, Market, OrderState}
use account_services.Request.{OrderRequest}
use account_services.Portfolio.TradeRecord.{get_elem?, at_indices, indices_of, push_index}

pub record EntrustRecord : Type 0 where
  pub order_id : ℕ
  pub security_id : Text
  pub order_type : OrderType
  pub side : TradeSide
  pub market : Market
  pub status : OrderState
  pub volume_entrust : ℕ
  pub volume_traded : ℕ
  pub price_entrust : ℕ
  pub price_traded_avg : ℕ
  pub value_traded : ℕ
  pub fee : ℕ
  pub time_entrust : ℕ
  pub time_first_trade : ℕ
  pub time_last_update : ℕ
  pub broker_order_id : Text
  pub security_code : Text

pub record EntrustRecordManager : Type 0 where
  pub entrusts : List EntrustRecord
  pub id_index : Map ℕ ℕ
  pub security_index : Map Text (List ℕ)

abbrev pub no_entrusts : EntrustRecordManager
no_entrusts = record { entrusts = []; id_index = []; security_index = [] }

pub is_terminal : OrderState → Bool
is_terminal OrderState.risk_controller_rejected = true
is_terminal OrderState.trader_rejected = true
is_terminal OrderState.trader_error = true
is_terminal OrderState.broker_rejected = true
is_terminal OrderState.market_rejected = true
is_terminal OrderState.finished = true
is_terminal OrderState.unknown = true
is_terminal _ = false

pub from_order_request : Text → OrderRequest → EntrustRecord
from_order_request broker_text req = record {
  order_id = req.internal_order_id;
  security_id = req.internal_security_id;
  order_type = req.order_type;
  side = req.trade_side;
  market = req.market;
  status = req.order_state;
  volume_entrust = req.volume_entrust;
  volume_traded = req.volume_traded;
  price_entrust = req.dprice_entrust;
  price_traded_avg = req.dprice_traded;
  value_traded = req.dvalue_traded;
  fee = req.dfee_executed;
  time_entrust = req.md_time_entrust;
  time_first_trade = req.md_time_traded_first;
  time_last_update =
      if not (req.md_time_market_response == 0)
      then req.md_time_market_response
      else req.md_time_broker_response;
  broker_order_id = broker_text;
  security_code = req.security_id;
}

pub load_today_entrusts : EntrustRecordManager → Bool × EntrustRecordManager
load_today_entrusts m = (true, no_entrusts)

-- entrusts_[i] = record
abbrev pub set_elem : {A : Type 0} → ℕ → A → List A → List A
set_elem i y [] = []
set_elem zero y (x ∷ xs) = y ∷ xs
set_elem (suc i) y (x ∷ xs) = x ∷ set_elem i y xs

pub add_or_update : EntrustRecord → EntrustRecordManager → EntrustRecordManager
add_or_update r m = elim (lookup r.order_id m.id_index) [
  | some i ↦ record m { entrusts = set_elem i r m.entrusts }
  | none ↦
      let index = length m.entrusts in
      record {
        entrusts = m.entrusts ++ r ∷ [];
        id_index = insert r.order_id index m.id_index;
        security_index = push_index r.security_id index m.security_index;
      }
]

pub update_from_order : Text → OrderRequest → EntrustRecordManager → EntrustRecordManager
update_from_order broker_text order m = add_or_update (from_order_request broker_text order) m

pub find_entrust : ℕ → EntrustRecordManager → Option EntrustRecord
find_entrust order_id m = elim (lookup order_id m.id_index) [
  | none ↦ none
  | some i ↦ get_elem? m.entrusts i
]

pub get_entrusts_by_security : Text → EntrustRecordManager → List EntrustRecord
get_entrusts_by_security security_id m =
    at_indices m.entrusts (indices_of security_id m.security_index)

pub active_rows : List EntrustRecord → List EntrustRecord
active_rows [] = []
active_rows (r ∷ rest) =
    let active = active_rows rest in if not (is_terminal r.status) then r ∷ active else active

pub get_active_entrusts : EntrustRecordManager → List EntrustRecord
get_active_entrusts m = active_rows m.entrusts

pub get_all_entrusts : EntrustRecordManager → List EntrustRecord
get_all_entrusts m = m.entrusts

pub entrust_count : EntrustRecordManager → ℕ
entrust_count m = length m.entrusts

count_active : List EntrustRecord → ℕ
count_active [] = 0
count_active (r ∷ rest) =
    let count = count_active rest in if not (is_terminal r.status) then suc count else count

pub active_count : EntrustRecordManager → ℕ
active_count m = count_active m.entrusts
