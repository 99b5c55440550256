-- ===== src/Njs.antt =====
-- The stream filters of core/njs: bans and buckets, and the WebSocket session filter.
pub mod Runtime
pub mod Bucket
pub mod Policy
pub mod Access
pub mod Bans
pub mod Session
pub mod Filters
pub mod Inspect
pub mod Frames
pub mod Ws
