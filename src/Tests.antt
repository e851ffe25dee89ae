-- ===== src/Tests.antt =====
-- Concrete runs of the rental flow, and the theorems at them.
mod Data
mod Flow
mod Dates
mod Rentals
mod Requests
mod Admins
mod Accounts
mod Web
mod Wires
mod Races
mod Older
mod Starts
mod Panels
