-- ===== src/Tests.antt =====
-- Runs of the model on concrete data, and the theorems at concrete inputs.
mod ProductTests
mod PaymentTests
mod OrderData
mod OrderTests
mod LostTests
mod IdentityTests
mod PinsTests
mod RequestTests
mod GatewayTests
mod UserTests
mod ConcurrentTests
mod ServingTests
mod NotificationTests
