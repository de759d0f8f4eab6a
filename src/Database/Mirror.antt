-- ===== src/Database/Mirror.antt =====
-- The repository of internal/metadata/sqlite_repository.go next to the one in memory of
-- internal/metadata/repository.go.
pub mod Keyed
pub mod Keys
pub mod Relation
pub mod Users
pub mod Insertion
pub mod Changes
pub mod Update
pub mod Renewal
pub mod Modification
pub mod Events
pub mod Bindings
pub mod Caching
pub mod Tags
pub mod Recording
pub mod Calls
pub mod Operations
pub mod Answers
pub mod Tests
