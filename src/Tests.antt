-- ===== src/Tests.antt =====
-- Runs of the definitions at concrete inputs, and the theorems applied there.
mod Scan
mod Runs
mod Data
mod Lines
mod Options
mod Zeroconf
mod Config
mod Http
