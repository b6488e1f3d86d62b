-- ===== src/Risk.antt =====
-- src/risk: the rules that an order is checked against, and the manager that runs them.
pub mod Rules
pub mod Limits
pub mod Pacing
pub mod Manager
pub mod Admission
mod Tests
