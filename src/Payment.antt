-- ===== src/Payment.antt =====
-- payment-service.
pub mod Table
pub mod Service
pub mod Refunds
pub mod Lookup
pub mod Invariant
pub mod Routes
pub mod Ledger
pub mod Races
