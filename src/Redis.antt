-- ===== src/Redis.antt =====
-- src/modules/redis: the services over Redis.
pub mod Locks
pub mod Limits
