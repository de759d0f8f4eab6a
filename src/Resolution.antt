-- ===== src/Resolution.antt =====
-- internal/resolution: pulls and pushes. `Services` has what the resolvers call, `Records` the events
-- that `Recording` writes, `Cache` the local cache, `Pull` and `Push` the resolvers.
pub mod Services
pub mod Records
pub mod Recording
pub mod Cache
pub mod Pull
pub mod Push
pub mod Asking
pub mod PullSources
pub mod CacheSafety
pub mod CacheResults
pub mod PushSafety
pub mod BlobAccess
pub mod Assembly
pub mod Tests
