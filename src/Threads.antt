-- ===== src/Threads.antt =====
-- hw10-threads: the statistics of web logs, gathered by several threads.
pub mod Glib
pub mod Topn
pub mod Order
pub mod Lookup
pub mod Cut
pub mod Upsert
pub mod Merge
pub mod Files
pub mod Parser
pub mod Lines
pub mod GetStat
pub mod Interleave
pub mod Total
pub mod Program
pub mod Selftest
mod Lists
mod Tests
