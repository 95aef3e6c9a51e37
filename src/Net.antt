-- ===== src/Net.antt =====
-- models/network/: the packet helpers, the bridge between a byte-wide port and a raw socket, and the
-- mock interface that feeds it.
pub mod Packet
pub mod Datagrams
pub mod Sums
pub mod Gmii
pub mod EthBridge
pub mod Sides
pub mod Wire
pub mod Limits
pub mod Receiving
pub mod Tests
