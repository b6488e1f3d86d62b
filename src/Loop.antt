-- ===== src/Loop.antt =====
-- src/core/event_loop.hpp and event_loop.cpp: the loop that takes orders and trade responses from
-- the queues and drives the book, the risk rules, the fund, the positions and the router.
pub mod State
pub mod Funds
pub mod Kept
pub mod Laws
pub mod Orders
pub mod Trades
pub mod Batches
mod Tests
