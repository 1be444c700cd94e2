-- ===== src/Streaming.antt =====
-- streaming/index.js: the streaming API server. Each child models one part of a worker.
pub mod Config
pub mod Database
pub mod Subs
pub mod Auth
pub mod Filter
pub mod Routes
pub mod Liveness
