-- ===== src/Content.antt =====
-- internal/content: the blobs on disk, by their digests.
pub mod Types
pub mod FileStore
pub mod Addressing
pub mod Tests
