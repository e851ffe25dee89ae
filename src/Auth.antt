-- ===== src/Auth.antt =====
-- Who an administrator is: `Login` and `Me` of internal/service/admin_service.go, the accounts of
-- internal/repository/admin_repository.go and the guard of internal/auth/middleware.go.
pub mod Tokens
pub mod Login
pub mod Accounts
pub mod Admission
