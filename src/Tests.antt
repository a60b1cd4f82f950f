-- ===== src/Tests.antt =====
-- Runs of the modelled code, and the theorems at concrete inputs.
mod Filters
mod Tables
mod Logs
mod Databases
mod Lookups
mod Ranges
mod Clients
mod Segments
mod Served
mod Openings
