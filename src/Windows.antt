-- ===== src/Windows.antt =====
-- agent/src/metrics_collector.cpp: the branches under `_WIN32`.
-- The Windows API is outside: each function gets what the calls that it makes returned.
pub mod Times
pub mod Names
pub mod Processes
pub mod Collect
pub mod Handles
pub mod Laws
pub mod Bounds
pub mod Ranking
pub mod Sane
pub mod Tests
