-- ===== src/Order.antt =====
-- order-service.
pub mod Table
pub mod Clients
pub mod Placing
pub mod Saga
pub mod Laws
pub mod Balance
pub mod Attempts
pub mod Rows
pub mod Deduction
pub mod Charging
pub mod Placed
pub mod Totals
pub mod Outcome
pub mod Created
pub mod Ending
pub mod Recovery
pub mod Admission
pub mod Queries
pub mod Privacy
pub mod BestEffort
