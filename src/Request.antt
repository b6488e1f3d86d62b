-- ===== src/Request.antt =====
-- OrderRequest of src/order/order_request.hpp, the order as it stands in shared memory. The padding
-- is left out; the broker's order id is the number that the copy constructor copies.
use account_services.Base.{ℕ, [], Text, assign}
use account_services.Types.{
  OrderType, TradeSide, Market, OrderState, ExecutionState, PassiveExecutionAlgo,
}

pub record OrderRequest : Type 0 where
  pub internal_order_id : ℕ
  pub passive_execution_algo : PassiveExecutionAlgo
  pub order_type : OrderType
  pub trade_side : TradeSide
  pub market : Market
  pub volume_entrust : ℕ
  pub dprice_entrust : ℕ
  pub orig_internal_order_id : ℕ
  pub internal_security_id : Text
  pub security_id : Text
  pub active_strategy_claimed : ℕ
  pub reserved_exec_flags : ℕ
  pub broker_order_id : ℕ
  pub volume_traded : ℕ
  pub volume_remain : ℕ
  pub dvalue_traded : ℕ
  pub dprice_traded : ℕ
  pub dfee_estimate : ℕ
  pub dfee_executed : ℕ
  pub md_time_driven : ℕ
  pub md_time_entrust : ℕ
  pub md_time_cancel_sent : ℕ
  pub md_time_cancel_done : ℕ
  pub md_time_broker_response : ℕ
  pub md_time_market_response : ℕ
  pub md_time_traded_first : ℕ
  pub md_time_traded_latest : ℕ
  pub order_state : OrderState
  pub execution_algo : PassiveExecutionAlgo
  pub execution_state : ExecutionState
  pub target_volume : ℕ
  pub working_volume : ℕ
  pub schedulable_volume : ℕ

-- OrderRequest{}
abbrev pub blank_request : OrderRequest
blank_request = record {
  internal_order_id = 0;
  passive_execution_algo = PassiveExecutionAlgo.default;
  order_type = OrderType.not_set;
  trade_side = TradeSide.not_set;
  market = Market.not_set;
  volume_entrust = 0;
  dprice_entrust = 0;
  orig_internal_order_id = 0;
  internal_security_id = [];
  security_id = [];
  active_strategy_claimed = 0;
  reserved_exec_flags = 0;
  broker_order_id = 0;
  volume_traded = 0;
  volume_remain = 0;
  dvalue_traded = 0;
  dprice_traded = 0;
  dfee_estimate = 0;
  dfee_executed = 0;
  md_time_driven = 0;
  md_time_entrust = 0;
  md_time_cancel_sent = 0;
  md_time_cancel_done = 0;
  md_time_broker_response = 0;
  md_time_market_response = 0;
  md_time_traded_first = 0;
  md_time_traded_latest = 0;
  order_state = OrderState.not_set;
  execution_algo = PassiveExecutionAlgo.none;
  execution_state = ExecutionState.none;
  target_volume = 0;
  working_volume = 0;
  schedulable_volume = 0;
}

-- kSecurityIdSize
abbrev pub security_id_size : ℕ
security_id_size = 16

-- What it does not write keeps its value.
unfoldable pub init_new :
    Text → Text → ℕ → TradeSide → Market → ℕ → ℕ → ℕ → OrderRequest → OrderRequest
init_new sec_id internal_sec_id internal_id side mkt vol dpx md_time_driven r = record r {
  internal_order_id = internal_id;
  order_type = OrderType.new;
  trade_side = side;
  market = mkt;
  volume_entrust = vol;
  dprice_entrust = dpx;
  md_time_driven = md_time_driven;
  md_time_entrust = 0;
  passive_execution_algo = PassiveExecutionAlgo.default;
  security_id = assign security_id_size sec_id;
  internal_security_id = internal_sec_id;
  active_strategy_claimed = 0;
  reserved_exec_flags = 0;
  md_time_cancel_sent = 0;
  md_time_cancel_done = 0;
  volume_traded = 0;
  volume_remain = vol;
  dvalue_traded = 0;
  dprice_traded = 0;
  dfee_estimate = 0;
  dfee_executed = 0;
  execution_algo = PassiveExecutionAlgo.none;
  execution_state = ExecutionState.none;
  target_volume = 0;
  working_volume = 0;
  schedulable_volume = 0;
}

unfoldable pub init_cancel : ℕ → ℕ → ℕ → OrderRequest → OrderRequest
init_cancel internal_id md_time_driven orig_internal_id r = record r {
  internal_order_id = internal_id;
  order_type = OrderType.cancel;
  trade_side = TradeSide.not_set;
  market = Market.not_set;
  volume_entrust = 0;
  dprice_entrust = 0;
  md_time_driven = md_time_driven;
  md_time_entrust = 0;
  passive_execution_algo = PassiveExecutionAlgo.none;
  security_id = [];
  internal_security_id = [];
  active_strategy_claimed = 0;
  reserved_exec_flags = 0;
  orig_internal_order_id = orig_internal_id;
  md_time_cancel_sent = 0;
  md_time_cancel_done = 0;
  broker_order_id = 0;
  volume_traded = 0;
  volume_remain = 0;
  dvalue_traded = 0;
  dprice_traded = 0;
  dfee_estimate = 0;
  dfee_executed = 0;
  md_time_broker_response = 0;
  md_time_market_response = 0;
  md_time_traded_first = 0;
  md_time_traded_latest = 0;
  execution_algo = PassiveExecutionAlgo.none;
  execution_state = ExecutionState.none;
  target_volume = 0;
  working_volume = 0;
  schedulable_volume = 0;
}
