-- ===== src/Rental.antt =====
-- internal/repository/rental_flow_repository.go: the queries and transactions of the rental flow,
-- one module for each group of methods.
pub mod Ids
pub mod Select
pub mod Sweep
pub mod Locations
pub mod Book
pub mod Pay
pub mod Access
pub mod Finish
