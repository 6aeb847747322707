-- ===== src/Tests.antt =====
-- Runs of the operations, and the theorems at concrete inputs.
mod Caches
mod Crud
mod Generated
mod Streams
mod Stores
mod Packages
mod Overlaps
mod Plugins
mod Redis
mod Workers
mod Starter
mod Processes
mod Scans
mod Commands
mod Examples
