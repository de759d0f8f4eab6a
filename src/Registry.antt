-- ===== src/Registry.antt =====
-- internal/registry: the interface of an upstream registry, and manifests.
pub mod Types
pub mod Parse
pub mod FakeConnector
pub mod FakeLaws
pub mod Tests
