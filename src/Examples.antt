-- ===== src/Examples.antt =====
-- The theorems at concrete inputs, one module for each group of files.
pub mod Link
pub mod Clocks
pub mod Devices
pub mod Lines
pub mod Sessions
pub mod Interrogations
pub mod Starts
pub mod Deadlock
pub mod UaNodes
pub mod Sockets
pub mod Clients
pub mod Entities
