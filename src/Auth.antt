-- ===== src/Auth.antt =====
-- internal/auth: which credentials a request may use.
pub mod Selector
pub mod Entitlement
pub mod Repository
pub mod DockerTokens
pub mod WebSessions
pub mod Administration
pub mod OciTokens
pub mod Accepted
pub mod Issued
pub mod Tests
pub mod Revocation
