-- ===== src/Database.antt =====
-- The tables of users and security records of internal/metadata/sqlite_repository.go, and what the
-- statements of internal/metadata/sqlite_security.go do with them.
pub mod Records
pub mod Tables
pub mod Rules
pub mod Rows
pub mod Audit
pub mod Growth
pub mod Operations
pub mod Reading
pub mod Demotion
pub mod Governance
pub mod Administrators
pub mod Counting
pub mod Invalidation
pub mod History
pub mod Statements
pub mod Rotation
pub mod Accounts
pub mod Users
pub mod Mappings
pub mod Mirror
pub mod Events
pub mod Selecting
pub mod Durations
pub mod Summing
pub mod Tokens
pub mod Sessions
pub mod Credentials
