-- ===== src/Billing.antt =====
-- The life of a payment: `refreshPaymentStatus` in
-- internal/repository/rental_flow_repository.go, and what opens a rental.
pub mod Lifecycle
pub mod History
pub mod Opening
pub mod FirstOpening
