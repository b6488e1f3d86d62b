-- ===== src/Portfolio.antt =====
-- src/portfolio: the positions table in shared memory, its fund row and its security rows.
pub mod State
pub mod Fund
pub mod Securities
pub mod Startup
pub mod TradeRecord
pub mod EntrustRecord
