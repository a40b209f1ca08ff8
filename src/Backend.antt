-- ===== src/Backend.antt =====
-- django_tasks_redis/backends.py: RedisTaskBackend and its Lua scripts.
pub mod Config
pub mod Index
pub mod Scripts
pub mod Claim
pub mod Finish
pub mod Data
pub mod Entry
pub mod Run
pub mod Queue
pub mod Fetch
pub mod Listing
pub mod Counts
pub mod Rebuild
