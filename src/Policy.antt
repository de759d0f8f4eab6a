-- ===== src/Policy.antt =====
-- internal/policy/policy.go: the routing policy. `Types` has its data, `Normalize` the form of
-- repository names, `Patterns` the match patterns, `Validate` the checks on a configuration and
-- `Engine` the decisions; the other children prove what these do.
pub mod Types
pub mod Normalize
pub mod Patterns
pub mod Validate
pub mod Engine
pub mod Canonical
pub mod Overlap
pub mod Accepted
pub mod Selection
pub mod Ambiguity
pub mod Decisions
pub mod Tests
