-- ===== src/Net.antt =====
-- The components of include/pfs/netty.
pub mod QueueOps
pub mod WriterPool
pub mod WriterQueue
pub mod SocketPool
pub mod ReaderPool
pub mod ConnectingPool
pub mod ListenerPool
