-- ===== src/Layout.antt =====
-- src/shm/shm_layout.hpp: the memory that the processes share, as far as the service uses it. The
-- identity fields of the headers, which no operation here reads, are left out.
use account_services.Base.{ℕ, Text}
use account_services.Types.{TradeSide, OrderState}
use account_services.Ring.{Ring}

-- kUpstreamOrderQueueCapacity, kDownstreamQueueCapacity and kResponseQueueCapacity
abbrev pub queue_capacity : ℕ
queue_capacity = 262144

pub record TradeResponse : Type 0 where
  pub internal_order_id : ℕ
  pub broker_order_id : ℕ
  pub internal_security_id : Text
  pub trade_side : TradeSide
  pub new_state : OrderState
  pub volume_traded : ℕ
  pub cancelled_volume : ℕ
  pub dprice_traded : ℕ
  pub dvalue_traded : ℕ
  pub dfee : ℕ
  pub md_time_traded : ℕ
  pub recv_time_ns : ℕ

pub record TradesShm : Type 0 where
  pub response_queue : Ring TradeResponse

pub record UpstreamShm : Type 0 where
  pub next_order_id : ℕ
  pub upstream_order_queue : Ring ℕ

pub record DownstreamShm : Type 0 where
  pub last_update : ℕ
  pub order_queue : Ring ℕ
