-- ===== src/Service.antt =====
-- internal/service: what the services check and compute before and after a call of a repository.
pub mod Errors
pub mod Numbers
pub mod Phone
pub mod Size
pub mod Dates
pub mod Flow
