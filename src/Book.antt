-- ===== src/Book.antt =====
-- src/order/order_book.hpp and order_book.cpp: the orders in work, their indexes, and the
-- aggregation of split orders.
pub mod State
pub mod Slots
pub mod Refresh
pub mod Orders
pub mod Updates
pub mod Valid
mod Tests
