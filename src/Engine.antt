-- ===== src/Engine.antt =====
-- src/vortex.cpp: the database over the log, the filter and the tables.
pub mod Scan
pub mod Replay
pub mod Infer
pub mod State
pub mod Ready
pub mod Reaches
pub mod Lookup
pub mod Spares
pub mod Store
pub mod Index
pub mod Recover
pub mod Latest
pub mod Recovered
pub mod Tables
pub mod Merge
pub mod Range
pub mod Delete
pub mod Segments
pub mod Compact
pub mod Open
