-- ===== src/P2p.antt =====
-- The peer-to-peer engines of include/pfs/netty/p2p.
pub mod Packet
pub mod Serializer
pub mod Delivery
pub mod FileTransporter
pub mod ReliableDelivery
