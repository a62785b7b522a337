-- ===== src/Tests.antt =====
-- Each property that has conditions, applied where they hold.
pub mod Decoding
pub mod Scheduling
pub mod Gpu
pub mod Staging
pub mod Wrapper
pub mod Batches
pub mod Drafts
pub mod Caches
pub mod CacheServing
pub mod Selection
