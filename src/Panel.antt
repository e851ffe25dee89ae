-- ===== src/Panel.antt =====
-- The administrators' panel: internal/service/admin_service.go over
-- internal/repository/admin_panel_repository.go.
pub mod Filters
pub mod Words
pub mod Cells
pub mod Outcomes
pub mod Holds
pub mod Races
pub mod Lists
pub mod Listing
pub mod Locations
pub mod Detail
pub mod Sessions
pub mod Revenue
