-- ===== src/Lib.antt =====
-- The core of the account service: the process that takes orders from strategies over shared
-- memory, checks them against its risk rules, keeps them in an order book, splits and routes them
-- to a broker gateway, and keeps the account's fund and positions as the trades come back.
--
-- The parts that are modelled, and how they meet in the program:
-- - Types: the enumerations of src/common/types.hpp and src/order/order_request.hpp.
-- - Identity: src/common/security_identity.hpp, the key of a security in both of its formats. The
--   book and the positions index by the canonical key, so a security has one entry under either.
-- - Request: OrderRequest of src/order/order_request.hpp with init_new and init_cancel.
-- - Portfolio: PositionManager of src/portfolio/position_manager.cpp over the table of
--   src/portfolio/positions.h. Portfolio.State is the mapped table and the index of rows;
--   Portfolio.Fund the operations on the fund row; Portfolio.Securities those on the securities;
--   Portfolio.Startup initialize. Portfolio.TradeRecord and
--   Portfolio.EntrustRecord are src/portfolio/trade_record.cpp and entrust_record.cpp, the day's
--   trades and entrusts with their indices.
-- - Book: OrderBook of src/order/order_book.cpp. Book.State is the class and its lookups;
--   Book.Orders add_order, archive_order and clear; Book.Updates update_state, update_trade,
--   mark_managed_parent and sync_managed_parent_view; Book.Refresh the aggregation of split orders.
-- - Risk: Risk.Rules is src/risk/risk_checker.cpp, and Risk.Manager src/risk/risk_manager.cpp, whose
--   checks read the fund and the positions of Portfolio.
-- - Ring: src/shm/spsc_queue.hpp, the queue that carries orders and responses between processes.
--   Ring.Queue relates its buffer to the list of its items, and Ring.Fifo runs of calls to a list.
-- - Pool: src/shm/orders_shm.hpp, the slots of the day's orders in shared memory. Pool.Writers has
--   a write as the loads and stores of its writer; Pool.Torn is about readers beside writers that take
--   turns, and Pool.Overlap about two writers that overlap.
-- - Layout: the memory that the processes share, of src/shm/shm_layout.hpp.
-- - Router: order_router of src/order/order_router.cpp, which puts orders and cancels into the queue
--   of the trading process. Router.Kept is what its writes to the state keep, its calls keep;
--   Router.Sent is about the queue, and Router.Routed about the order and the counters.
-- - Recovery: src/order/order_recovery.cpp, which fills the book from the order slots after a restart.
-- - Loop: EventLoop of src/core/event_loop.cpp, which drives all of these. Loop.State is the class and
--   the book's change callback, Loop.Orders handle_order_request, Loop.Trades handle_trade_response
--   and the archiving, Loop.Funds what both do to the fund, and Loop.Batches a turn of the loop.
--   Loop.Kept is what all the handlers keep when their writes to the state keep it. The
--   execution engine is the interface Loop.State.Engine with the laws of Loop.Laws.
-- - PassiveExecution: src/order/passive_execution.hpp, the algorithm that an order declares.
-- - Base: Boolean tests, lists over the native numbers, machine words, maps and fixed strings.
--
-- How the code becomes the model:
-- - An operation has the name of its function, takes its arguments and then the state, and returns
--   the new state, with the bool that the function returns where it returns one. The definitions
--   of a body, such as freeze of freeze_fund, are the part of the function under its lock.
-- - A word of 32, 64 or 128 bits is a natural number, and an operation that can wrap is written with
--   % 2 ^ w. Subtractions stand under the test that the source makes before them.
-- - An array is a function from its indices, and a write changes one cell. A pointer into the table
--   of orders or positions is its index; a pointer to a rule is the identity of the rule.
-- - std::unordered_map is an association list with one entry for each key; its order, which the
--   standard leaves open, shows in get_active_order_ids and in the archiving of due orders, and is
--   an argument of the recovery. FixedString is the bytes of its view.
-- - now_ns() and now_monotonic_ns() are arguments, one value for all the readings of a call, but that
--   each risk rule has its own. Locks make each operation one step, and so is each
--   operation of the queue; what its two sides may see of each other halfway is not modelled. A slot of Pool is
--   a function from the time for its readers, and so are its writers, whose fences are taken as
--   keeping the order of the stores and loads. The change
--   callback and the post-check callback are logged with their arguments, newest first. The router and
--   the loop apply the change callback after each call of the book to what it logged, in its order; a
--   callback that calls back into its caller is not modelled. The book, the router and the memory
--   that several objects point to stand once, in the router's state. Log lines, error records and the texts of risk
--   results are left out.
-- - kMaxActiveOrders is an argument of the book's theorems, which hold for any capacity, so that the
--   examples can use a small one; max_active_orders is its value. The 32 attempts of
--   a reader and the 5 of the recovery are the source's own bounds. The two loops over queues in
--   Loop.Batches run on fuel, of which one more than what waits in the queue is enough; every other
--   loop of the modelled code goes over a list or counts to a bound.
--
-- What is not modelled: the execution engine behind its interface, the fee arithmetic of
-- src/portfolio/account_info.cpp, which uses floating point and is an argument of the loop, the start,
-- the stop and the signals of the loop, the gateway, the position loader, which is an argument of
-- PositionManager::initialize, the recorder of order events, and reading of configuration. The broker
-- order id is modelled as a number, as the book uses it; its reading as a string is not. User-defined
-- subclasses of risk_rule, of which the repository has none, are left out.
pub mod Base
pub mod Types
pub mod Identity
pub mod Portfolio
pub mod Request
pub mod Book
pub mod Risk
pub mod Ring
pub mod Pool
pub mod Layout
pub mod Router
pub mod Recovery
pub mod Loop
pub mod PassiveExecution
