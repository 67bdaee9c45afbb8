-- ===== src/Meshnet.antt =====
-- The mesh network of include/pfs/netty/patterns/meshnet.
pub mod Channels
pub mod Handshake
pub mod Heartbeat
pub mod Protocol
pub mod PriorityFrame
pub mod PriorityInput
pub mod PriorityQueue
mod Tests
