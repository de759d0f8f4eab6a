-- ===== src/Metadata.antt =====
-- internal/metadata: the records that the gateway keeps of its work.
pub mod Types
pub mod Memory
pub mod Users
pub mod Events
pub mod Tags
pub mod Bindings
pub mod UsersAgree
pub mod Steps
pub mod UserLaws
pub mod EventLaws
pub mod Percentile
pub mod TagLaws
pub mod BindingLaws
pub mod Tests
