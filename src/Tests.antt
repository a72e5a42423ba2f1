-- ===== src/Tests.antt =====
-- Tests by evaluation, and the theorems at concrete inputs.
mod Storage
mod KeySpace
mod Command
mod Manifest
mod Handles
mod Search
mod Client
mod BulkInsert
mod Commands
mod Handover
mod Listing
mod Daemon
mod Transfer
