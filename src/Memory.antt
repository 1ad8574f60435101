-- ===== src/Memory.antt =====
-- The in-memory store: storage/store/memory/.
pub mod Paging
pub mod Uptime
pub mod Status
pub mod Cache
pub mod Hourly
pub mod Store
