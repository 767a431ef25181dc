-- ===== src/Budget.antt =====
-- Budgets: the calendar of their periods, the spend of a client, and free-token budgets.
pub mod Calendar
pub mod FreeTiers
pub mod Spend
mod Tests
