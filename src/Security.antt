-- ===== src/Security.antt =====
-- internal/security: what keeps attackers out.
pub mod FailureLimiter
pub mod LimiterLaws
pub mod Operations
pub mod Waiting
pub mod Window
pub mod Blocking
pub mod Tests
