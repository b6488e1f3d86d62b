-- ===== src/Types.antt =====
-- The enumerations of src/common/types.hpp and src/order/order_request.hpp, with their codes.
use account_services.Base.{ℕ, Bool, true, false}

pub data OrderType : Type 0 where
  not_set new cancel unknown : OrderType

unfoldable pub is_new : OrderType → Bool
is_new OrderType.new = true
is_new _ = false

unfoldable pub is_cancel : OrderType → Bool
is_cancel OrderType.cancel = true
is_cancel _ = false

pub data TradeSide : Type 0 where
  not_set buy sell : TradeSide

pub data Market : Type 0 where
  not_set sz sh bj hk unknown : Market

pub data OrderState : Type 0 where
  not_set user_submitted : OrderState
  risk_controller_pending risk_controller_rejected risk_controller_accepted : OrderState
  trader_pending trader_rejected trader_submitted trader_error : OrderState
  broker_rejected broker_accepted market_rejected market_accepted : OrderState
  finished unknown : OrderState

-- The value of the enumerator, by which the source compares states.
abbrev pub state_code : OrderState → ℕ
state_code OrderState.not_set = 0
state_code OrderState.user_submitted = 0x12
state_code OrderState.risk_controller_pending = 0x20
state_code OrderState.risk_controller_rejected = 0x21
state_code OrderState.risk_controller_accepted = 0x22
state_code OrderState.trader_pending = 0x30
state_code OrderState.trader_rejected = 0x31
state_code OrderState.trader_submitted = 0x32
state_code OrderState.trader_error = 0x33
state_code OrderState.broker_rejected = 0x41
state_code OrderState.broker_accepted = 0x42
state_code OrderState.market_rejected = 0x51
state_code OrderState.market_accepted = 0x52
state_code OrderState.finished = 0x62
state_code OrderState.unknown = 0xff

pub data ExecutionState : Type 0 where
  none running cancelling finished failed : ExecutionState

abbrev pub execution_code : ExecutionState → ℕ
execution_code ExecutionState.none = 0
execution_code ExecutionState.running = 1
execution_code ExecutionState.cancelling = 2
execution_code ExecutionState.finished = 3
execution_code ExecutionState.failed = 4

pub data PassiveExecutionAlgo : Type 0 where
  default none fixed_size twap vwap iceberg : PassiveExecutionAlgo

abbrev pub algo_code : PassiveExecutionAlgo → ℕ
algo_code PassiveExecutionAlgo.default = 0
algo_code PassiveExecutionAlgo.none = 1
algo_code PassiveExecutionAlgo.fixed_size = 2
algo_code PassiveExecutionAlgo.twap = 3
algo_code PassiveExecutionAlgo.vwap = 4
algo_code PassiveExecutionAlgo.iceberg = 5

pub data RiskResult : Type 0 where
  pass reject_insufficient_fund reject_insufficient_position : RiskResult
  reject_exceed_max_order_value reject_exceed_max_order_volume : RiskResult
  reject_exceed_daily_limit reject_price_out_of_range reject_security_not_allowed : RiskResult
  reject_account_frozen reject_duplicate_order reject_unknown : RiskResult

-- switch (status) of is_terminal_state
unfoldable pub is_terminal_state : OrderState → Bool
is_terminal_state OrderState.risk_controller_rejected = true
is_terminal_state OrderState.trader_rejected = true
is_terminal_state OrderState.trader_error = true
is_terminal_state OrderState.broker_rejected = true
is_terminal_state OrderState.market_rejected = true
is_terminal_state OrderState.finished = true
is_terminal_state OrderState.unknown = true
is_terminal_state _ = false

-- switch (status) of status_progress_rank
unfoldable pub status_progress_rank : OrderState → ℕ
status_progress_rank OrderState.market_accepted = 7
status_progress_rank OrderState.broker_accepted = 6
status_progress_rank OrderState.trader_submitted = 5
status_progress_rank OrderState.trader_pending = 4
status_progress_rank OrderState.risk_controller_accepted = 3
status_progress_rank OrderState.risk_controller_pending = 2
status_progress_rank OrderState.user_submitted = 1
status_progress_rank _ = 0
