-- ===== src/Tests.antt =====
-- The theorems at concrete streams, buffers and segments.
pub mod Data
pub mod Segments
pub mod Parts
pub mod Tables
pub mod Addresses
pub mod Rings
pub mod Sockets
pub mod Pools
pub mod Packets
pub mod Routes
pub mod Timers
pub mod Threads
